-- ===== src/Libc/Str/Search.antt =====
-- strchr, strrchr and strstr: what the pointer that they return says.
use mathlib.Core.Option
use blueberry_os.Base.{
  ℕ, zero, suc, ◌+◌, ◌<◌, ◌≡◌, ◌≢◌, inl, inr, refl, sym, ap, arith, Bool, true, false, Option, none,
  some, List, [], ◌∷◌, ◌++◌, length, length-append, append_assoc, append-nil, ==→eq, ◌==◌,
  if◌then◌else◌, Bool-cases, ◌∙◌,
}
use native.Mathlib.Nat.{add-zero}
use blueberry_os.Libc.Mem.{Mem}
use blueberry_os.Libc.Str.{IsStr, strchr_loop, strchr, strstr_loop, strstr}
use blueberry_os.Libc.Str.Length.{strlen-length}

-- The address of the first `c` in a text that starts at `p`.
unfoldable pub first_at : ℕ → ℕ → List ℕ → Option ℕ
first_at p c [] = none
first_at p c (x ∷ s) = if x == c then some p else first_at (p + 1) c s

strchr_loop-first_at :
    (fuel : ℕ) (m : Mem) (str c i p : ℕ) (s : List ℕ)
    → p ≡ str + i
    → IsStr m p s
    → length s < fuel
    → strchr_loop fuel m str c i ≡ some (first_at p c s)
unfolding strchr_loop first_at
strchr_loop-first_at zero m str c i p s e h f = absurd (omega arith)
strchr_loop-first_at (suc fuel) m str c i p [] e h f = ground arith
strchr_loop-first_at (suc fuel) m str c i p (x ∷ s) e h f =
    ground (arith, strchr_loop-first_at fuel m str c (i + 1) (p + 1) s)

-- strchr, with more rounds than the text has characters, returns the address of the first
-- character of the text that is `c`, and NULL if there is none.
pub strchr-first_at :
    (fuel : ℕ) (m : Mem) (str c : ℕ) (s : List ℕ)
    → IsStr m str s
    → length s < fuel
    → strchr fuel m str c ≡ some (first_at str c s)
unfolding strchr
strchr-first_at fuel m str c s h f = strchr_loop-first_at fuel m str c 0 str s (omega arith) h f

-- `sub` stands in `s`, a text at `str`, at the address that is returned; NULL says nothing.
abbrev pub Found : ℕ → List ℕ → List ℕ → Option ℕ → Type 0
Found str s sub none = Unit {0}
Found str s sub (some p) =
    (pre : List ℕ) × (post : List ℕ) × (s ≡ pre ++ sub ++ post) × (p ≡ str + length pre)

module _ (m : Mem) (str sub len : ℕ) where
  strstr_step_hit :
      (fuel : ℕ) (set : Bool) (start i j : ℕ)
      → m (str + i) ≢ 0
      → m (sub + j) ≡ m (str + i)
      → j + 1 ≢ len
      → strstr_loop (suc fuel) m str sub len set start i j
        ≡ strstr_loop fuel m str sub len true (if set then start else i) (i + 1) (j + 1)
  unfolding strstr_loop
  strstr_step_hit fuel set start i j x y e = rw y (ground arith)

  strstr_step_done :
      (fuel : ℕ) (set : Bool) (start i j : ℕ)
      → m (str + i) ≢ 0
      → m (sub + j) ≡ m (str + i)
      → j + 1 ≡ len
      → strstr_loop (suc fuel) m str sub len set start i j
        ≡ some (some (str + (if set then start else i)))
  unfolding strstr_loop
  strstr_step_done fuel set start i j x y e = rw y (ground arith)

  strstr_step_miss :
      (fuel : ℕ) (set : Bool) (start i j : ℕ)
      → m (str + i) ≢ 0
      → m (sub + j) ≢ 0
      → m (str + i) ≢ m (sub + j)
      → len ≢ 0
      → strstr_loop (suc fuel) m str sub len set start i j
        ≡ strstr_loop fuel m str sub len false start (i + 1) 0
  unfolding strstr_loop
  strstr_step_miss fuel set start i j x y ne e = ground arith

-- One character moves from what lies ahead to what is matched.
snoc_assoc :
    (pre got rest : List ℕ) (x : ℕ) → pre ++ got ++ x ∷ rest ≡ pre ++ (got ++ x ∷ []) ++ rest
snoc_assoc pre got rest x = simp append_assoc

seen :
    (pre got : List ℕ) (x i : ℕ)
    → i ≡ length pre + length got
    → i + 1 ≡ length (pre ++ (got ++ x ∷ []))
seen pre got x i e = omega (arith, length-append pre (got ++ x ∷ []), length-append got (x ∷ []))

length_one : (left : List ℕ) → length left ≡ 0 → left ≡ []
length_one [] e = refl
length_one (x ∷ left) e = absurd (omega arith)

length-snoc : (got : List ℕ) (x : ℕ) → length (got ++ x ∷ []) ≡ length got + 1
length-snoc got x = omega (arith, length-append got (x ∷ []))

module _ (m : Mem) (str sub : ℕ) (t : List ℕ) (ht : IsStr m sub t) where
  -- The loop of strstr: `pre ++ got` has been read, `got` matched, and `rest` and `left` lie ahead.
  strstr_loop-Found :
      (fuel : ℕ) (set : Bool) (start i j p q : ℕ) (w pre got rest left : List ℕ)
      → p ≡ str + i
      → q ≡ sub + j
      → IsStr m p rest
      → IsStr m q left
      → length rest < fuel
      → (if set then start else i) ≡ length pre
      → i ≡ length pre + length got
      → j ≡ length got
      → w ≡ pre ++ got ++ rest
      → t ≡ got ++ left
      → (r : Option ℕ) × (strstr_loop fuel m str sub (length t) set start i j ≡ some r)
        × Found str w t r
  unfolding strstr_loop
  strstr_loop-Found zero set start i j p q w pre got rest left ep eq hr hl f es ei ej ew et =
      absurd (omega arith)
  strstr_loop-Found (suc fuel) set start i j p q w pre got [] left ep eq hr hl f es ei ej ew et =
      (none, ground arith, tt)
  strstr_loop-Found (suc fuel) set start i j p q w pre got (x ∷ rest) [] ep eq hr hl f es ei ej ew
        et =
      (none, ground arith, tt)
  strstr_loop-Found (suc fuel) set start i j p q w pre got (x ∷ rest) (y ∷ left) ep eq hr hl f es ei
        ej ew et =
      let size : length t ≡ length got + suc (length left) =
        ap length et ∙ length-append got (y ∷ left) in
      elim (Bool-cases (x == y)) [
        | inl same ↦
            let ahead : t ≡ (got ++ x ∷ []) ++ left =
              et ∙ ap (λ z. got ++ z ∷ left) (sym (==→eq x y same)) ∙ snoc_assoc [] got left x in
            let whole : w ≡ pre ++ (got ++ x ∷ []) ++ rest = ew ∙ snoc_assoc pre got rest x in
            elim (Bool-cases (j + 1 == length t)) [
              | inl done ↦ (
                some (str + (if set then start else i)),
                strstr_step_done m str sub (length t) fuel set start i j (ground arith)
                    (ground arith) (==→eq (j + 1) (length t) done),
                (
                  pre,
                  rest,
                  ground (arith, length_one left, append-nil (got ++ x ∷ [])),
                  ap (λ z. str + z) es,
                ),
              )
              | inr more ↦
                  let (r, run, found) =
                    strstr_loop-Found fuel true (if set then start else i) (i + 1) (j + 1) (p + 1)
                      (q + 1) w pre (got ++ x ∷ []) rest left (omega arith) (omega arith) hr.2 hl.2
                      (omega arith) es (omega (arith, length-snoc got x))
                      (omega (arith, length-snoc got x)) whole ahead in
                  (
                    r,
                    strstr_step_hit m str sub (length t) fuel set start i j (ground arith)
                          (ground arith) (ground arith)
                        ∙ run,
                    found,
                  )
            ]
        | inr other ↦
            let (r, run, found) =
              strstr_loop-Found fuel false start (i + 1) 0 (p + 1) sub w (pre ++ (got ++ x ∷ [])) []
                rest t (omega arith) (omega arith) hr.2 ht (omega arith) (seen pre got x i ei)
                (seen pre got x i ei ∙ sym (add-zero _)) refl
                (ew ∙ snoc_assoc pre got rest x ∙ ap (λ z. z ++ rest) (sym (append-nil _))) refl in
            (
              r,
              strstr_step_miss m str sub (length t) fuel set start i j (ground arith) (ground arith)
                    (ground arith) (omega arith)
                  ∙ run,
              found,
            )
      ]

  -- strstr, with more rounds than either text has characters, returns; and an address that it
  -- returns is one at which the second text stands in the first.
  pub strstr-Found :
      (fuel : ℕ) (w : List ℕ)
      → IsStr m str w
      → length w < fuel
      → length t < fuel
      → (r : Option ℕ) × (strstr fuel m str sub ≡ some r) × Found str w t r
  unfolding strstr Option.bind
  strstr-Found fuel w hw fw ft =
      let (r, run, found) =
        strstr_loop-Found fuel false 0 0 0 str sub w [] [] w t (omega arith) (omega arith) hw ht fw
          refl refl refl refl refl in
      (r, rw (strlen-length fuel m sub t ht ft) run, found)
