-- ===== src/Libc/Str/Order.antt =====
-- strcmp and strncmp decide whether two texts are equal.
use blueberry_os.Base.{
  ℕ, zero, suc, ◌+◌, ◌<◌, ◌≡◌, ◌≢◌, ◌↔◌, inl, inr, refl, arith, some, List, [], ◌∷◌, length, take,
  ◌==◌, Bool-cases,
}
use blueberry_os.Base.Int.{ℤ, pos}
use blueberry_os.Libc.Mem.{Mem}
use blueberry_os.Libc.Str.{IsStr, char_sub, strcmp_loop, strcmp, strncmp_loop, strncmp}

abbrev pub IsBytes : Mem → Type 0
IsBytes m = (a : ℕ) → m a < 256

char_sub_ne : (a b : ℕ) → a < 256 → b < 256 → a ≢ b → char_sub a b ≢ pos 0
unfolding char_sub
char_sub_ne a b ha hb ne = ground arith

-- A result that is zero exactly if `P` holds.
abbrev pub ZeroIff : ℤ → Type 0 → Type 0
ZeroIff r P = (r ≡ pos 0) ↔ P

module _ (m : Mem) (bytes : IsBytes m) (s1 s2 : ℕ) where
  differ :
      (i : ℕ) (s t : List ℕ)
      → m (s1 + i) ≢ m (s2 + i)
      → s ≢ t
      → ZeroIff (char_sub (m (s1 + i)) (m (s2 + i))) (s ≡ t)
  differ i s t ne other =
      (λ z. absurd (char_sub_ne _ _ (bytes (s1 + i)) (bytes (s2 + i)) ne z), λ e. absurd (other e))

  strcmp_loop-ne :
      (fuel i : ℕ)
      → m (s1 + i) ≢ m (s2 + i)
      → strcmp_loop (suc fuel) m s1 s2 i ≡ some (char_sub (m (s1 + i)) (m (s2 + i)))
  unfolding strcmp_loop
  strcmp_loop-ne fuel i ne = ground arith

  strcmp_loop-ZeroIff :
      (fuel i p q : ℕ) (s t : List ℕ)
      → p ≡ s1 + i
      → q ≡ s2 + i
      → IsStr m p s
      → IsStr m q t
      → length s < fuel
      → (r : ℤ) × (strcmp_loop fuel m s1 s2 i ≡ some r) × ZeroIff r (s ≡ t)
  unfolding strcmp_loop
  strcmp_loop-ZeroIff zero i p q s t ep eq hs ht f = absurd (omega arith)
  strcmp_loop-ZeroIff (suc fuel) i p q [] [] ep eq hs ht f =
      (pos 0, ground arith, ((λ _. refl), (λ _. refl)))
  strcmp_loop-ZeroIff (suc fuel) i p q [] (d ∷ t) ep eq hs ht f =
      let ne : m (s1 + i) ≢ m (s2 + i) = ground arith in
      (_, strcmp_loop-ne fuel i ne, differ i [] (d ∷ t) ne (λ e. cc))
  strcmp_loop-ZeroIff (suc fuel) i p q (c ∷ s) [] ep eq hs ht f =
      let ne : m (s1 + i) ≢ m (s2 + i) = ground arith in
      (_, strcmp_loop-ne fuel i ne, differ i (c ∷ s) [] ne (λ e. cc))
  strcmp_loop-ZeroIff (suc fuel) i p q (c ∷ s) (d ∷ t) ep eq hs ht f = elim (Bool-cases (c == d)) [
    | inl same ↦
        let (r, run, iff) =
          strcmp_loop-ZeroIff fuel (i + 1) (p + 1) (q + 1) s t (omega arith) (omega arith) hs.2 ht.2
            (omega arith) in
        (r, ground arith, ((λ z. ground (arith, iff.0 z)), (λ e. iff.1 (cc))))
    | inr other ↦
        let ne : m (s1 + i) ≢ m (s2 + i) = ground arith in
        (_, strcmp_loop-ne fuel i ne, differ i (c ∷ s) (d ∷ t) ne (λ e. ground arith))
  ]

  -- strcmp, with more rounds than the first text has characters, returns a number, and that
  -- number is 0 exactly if the two texts are equal.
  pub strcmp-ZeroIff :
      (fuel : ℕ) (s t : List ℕ)
      → IsStr m s1 s
      → IsStr m s2 t
      → length s < fuel
      → (r : ℤ) × (strcmp fuel m s1 s2 ≡ some r) × ZeroIff r (s ≡ t)
  unfolding strcmp
  strcmp-ZeroIff fuel s t hs ht f =
      strcmp_loop-ZeroIff fuel 0 s1 s2 s t (omega arith) (omega arith) hs ht f

  strncmp_loop-ne :
      (n i : ℕ)
      → m (s1 + i) ≢ m (s2 + i)
      → strncmp_loop (suc n) m s1 s2 i ≡ char_sub (m (s1 + i)) (m (s2 + i))
  unfolding strncmp_loop
  strncmp_loop-ne n i ne = ground arith

  strncmp_loop-same :
      (n i c : ℕ)
      → m (s1 + i) ≡ c
      → m (s2 + i) ≡ c
      → c ≢ 0
      → strncmp_loop (suc n) m s1 s2 i ≡ strncmp_loop n m s1 s2 (i + 1)
  unfolding strncmp_loop
  strncmp_loop-same n i c e1 e2 ne = ground arith

  strncmp_loop-ZeroIff :
      (n i p q : ℕ) (s t : List ℕ)
      → p ≡ s1 + i
      → q ≡ s2 + i
      → IsStr m p s
      → IsStr m q t
      → ZeroIff (strncmp_loop n m s1 s2 i) (take n s ≡ take n t)
  unfolding strncmp_loop
  strncmp_loop-ZeroIff zero i p q s t ep eq hs ht = ((λ _. refl), (λ _. refl))
  strncmp_loop-ZeroIff (suc n) i p q [] [] ep eq hs ht = ((λ _. refl), (λ _. ground arith))
  strncmp_loop-ZeroIff (suc n) i p q [] (d ∷ t) ep eq hs ht =
      let ne : m (s1 + i) ≢ m (s2 + i) = ground arith in
      rw (strncmp_loop-ne n i ne) (differ i [] (d ∷ take n t) ne (λ e. cc))
  strncmp_loop-ZeroIff (suc n) i p q (c ∷ s) [] ep eq hs ht =
      let ne : m (s1 + i) ≢ m (s2 + i) = ground arith in
      rw (strncmp_loop-ne n i ne) (differ i (c ∷ take n s) [] ne (λ e. cc))
  strncmp_loop-ZeroIff (suc n) i p q (c ∷ s) (d ∷ t) ep eq hs ht = elim (Bool-cases (c == d)) [
    | inl same ↦
        let iff =
          strncmp_loop-ZeroIff n (i + 1) (p + 1) (q + 1) s t (omega arith) (omega arith) hs.2
            ht.2 in
        rw (strncmp_loop-same n i c (ground arith) (ground arith) hs.1)
          ((λ z. ground (arith, iff.0 z)), (λ e. iff.1 (cc)))
    | inr other ↦
        let ne : m (s1 + i) ≢ m (s2 + i) = ground arith in
        rw (strncmp_loop-ne n i ne) (differ i (c ∷ take n s) (d ∷ take n t) ne (λ e. ground arith))
  ]

  -- strncmp returns 0 exactly if the first `n` characters of the two texts are equal.
  pub strncmp-ZeroIff :
      (n : ℕ) (s t : List ℕ)
      → IsStr m s1 s
      → IsStr m s2 t
      → ZeroIff (strncmp m s1 s2 n) (take n s ≡ take n t)
  unfolding strncmp
  strncmp-ZeroIff n s t hs ht = strncmp_loop-ZeroIff n 0 s1 s2 s t (omega arith) (omega arith) hs ht
