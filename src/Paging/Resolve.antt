-- ===== src/Paging/Resolve.antt =====
-- kernel/src/usermode.c: resolveProcessAddress, whether a process may use a range of its memory.
use blueberry_os.Base.{
  ℕ, zero, suc, ◌+◌, ◌-◌, ◌*◌, ◌/◌, ◌%◌, ◌==◌, ◌≡◌, ◌≤◌, ◌<◌, ◌↔◌, refl, arith, Bool, true, false,
  not, ◌&&◌, ◌||◌, leb, if◌then◌else◌, inl, inr, Bool-cases, sym, ◌∙◌, subst, ==→eq,
}
use blueberry_os.Paging.{Words, entry, present, read_write, user, pti, pi, get_pagetable, get_page}

-- A page that the process may use: `pagetable[pi]` passes the test.
abbrev pub accessible : Bool → ℕ → Bool
accessible needrw e = not (not (present e) || not (user e) || (needrw && not (read_write e)))

-- The `while`, with fuel. `count` goes down by a page and stops at 0.
unfoldable pub resolve_loop : ℕ → Words → ℕ → ℕ → Bool → ℕ → ℕ → Bool
resolve_loop zero w pd v needrw count pages = false
resolve_loop (suc n) w pd v needrw count pages =
    let table = pti v + pages / 1024 in
    let page = pi v + pages % 1024 in
    let rest = resolve_loop n w pd v needrw (count - 4096) (pages + 1) in
    if count == 0
    then true
    else if leb 768 table
    then false
    else if not (present (entry w pd table))
    then false
    else if not (accessible needrw (entry w (get_pagetable (entry w pd table)) page))
    then false
    else rest

unfoldable pub resolve_process_address : Words → ℕ → ℕ → ℕ → Bool → Bool
resolve_process_address w pd v count needrw = resolve_loop (suc count) w pd v needrw count 0

-- A page that a process may use: it is present, a user page, and writable where that is asked for.
pub record Usable (needrw : Bool) (e : ℕ) : Type 0 where
  pub is_present : e % 2 ≡ 1
  pub is_user : e / 4 % 2 ≡ 1
  pub is_writable : needrw ≡ true → e / 2 % 2 ≡ 1

accessible-Usable : (needrw : Bool) (e : ℕ) → (accessible needrw e ≡ true) ↔ Usable needrw e
accessible-Usable true e = (
  λ h. record {
    is_present = ground arith;
    is_user = ground arith;
    is_writable = λ r. ground arith;
  },
  λ u. let p = u.is_present in let q = u.is_user in let r = u.is_writable refl in ground arith,
)
accessible-Usable false e = (
  λ h. record { is_present = ground arith; is_user = ground arith; is_writable = λ r. cc },
  λ u. let p = u.is_present in let q = u.is_user in ground arith,
)

and_true : (b c : Bool) → (if b then c else false) ≡ true → (b ≡ true) × (c ≡ true)
and_true true c e = (refl, e)
and_true false c e = absurd (ground (arith, e))

if_true : (b : Bool) → (if b then true else false) ≡ b
if_true true = refl
if_true false = refl

module _ (w : Words) (pd v : ℕ) (needrw : Bool) (user_half : pti v < 768) where
  -- The page that is `k` pages behind the one of `v`.
  abbrev page_behind : ℕ → ℕ
  page_behind k = get_page w pd (v + 4096 * k)

  behind_table : (k : ℕ) → pi v + k < 1024 → pti (v + 4096 * k) ≡ pti v
  behind_table k h = omega arith

  behind_page : (k : ℕ) → pi v + k < 1024 → pi (v + 4096 * k) ≡ pi v + k
  behind_page k h = omega arith

  page_behind_gone :
      (k : ℕ) → pi v + k < 1024 → present (entry w pd (pti v)) ≡ false → page_behind k ≡ 0
  unfolding get_page
  page_behind_gone k h gone = rw (behind_table k h, gone) refl

  page_behind_live :
      (k : ℕ)
      → pi v + k < 1024
      → present (entry w pd (pti v)) ≡ true
      → page_behind k ≡ entry w (get_pagetable (entry w pd (pti v))) (pi v + k)
  unfolding get_page
  page_behind_live k h live = rw (behind_table k h, live, behind_page k h) refl

  -- One round of the loop.
  resolve_loop-step :
      (n count k : ℕ)
      → 0 < count
      → pi v + k < 1024
      → resolve_loop (suc n) w pd v needrw count k ≡ (
          if accessible needrw (page_behind k)
          then resolve_loop n w pd v needrw (count - 4096) (k + 1)
          else false)
  unfolding resolve_loop
  resolve_loop-step n count k h inside =
      let some_left : (count == 0) ≡ false = ground arith in
      let table : pti v + k / 1024 ≡ pti v = omega arith in
      let page : pi v + k % 1024 ≡ pi v + k = omega arith in
      let low : leb 768 (pti v) ≡ false = ground arith in
      elim (Bool-cases (present (entry w pd (pti v)))) [
        | inl live ↦ rw (page_behind_live k inside live) (ground arith)
        | inr gone ↦ rw (page_behind_gone k inside gone) (ground arith)
      ]

  resolve_loop_none : (n k : ℕ) → resolve_loop (suc n) w pd v needrw 0 k ≡ true
  unfolding resolve_loop
  resolve_loop_none n k = refl

  step_true :
      (n count k : ℕ)
      → 0 < count
      → pi v + k < 1024
      → resolve_loop (suc n) w pd v needrw count k ≡ true
      → (accessible needrw (page_behind k) ≡ true)
        × (resolve_loop n w pd v needrw (count - 4096) (k + 1) ≡ true)
  step_true n count k h inside e =
      and_true (accessible needrw (page_behind k))
        (resolve_loop n w pd v needrw (count - 4096) (k + 1))
        (sym (resolve_loop-step n count k h inside) ∙ e)

  loop_checks :
      (n count k : ℕ)
      → count < n
      → pi v + k + (count + 4095) / 4096 ≤ 1024
      → resolve_loop n w pd v needrw count k ≡ true
      → (j : ℕ) → k ≤ j
      → j < k + (count + 4095) / 4096
      → accessible needrw (page_behind j) ≡ true
  loop_checks zero count k fuel inside e j lo hi = absurd (omega arith)
  loop_checks (suc n) count k fuel inside e j lo hi =
      let (here, after) = step_true n count k (omega arith) (omega arith) e in
      elim (Bool-cases (k == j)) [
        | inl same ↦ subst (λ x. accessible needrw (page_behind x) ≡ true) (==→eq k j same) here
        | inr later ↦
            loop_checks n (count - 4096) (k + 1) (omega arith) (omega arith) after j (ground arith)
              (omega arith)
      ]

  checks_loop :
      (n count k : ℕ)
      → count < n
      → pi v + k + (count + 4095) / 4096 ≤ 1024
      → ((j : ℕ) → k ≤ j → j < k + (count + 4095) / 4096 → accessible needrw (page_behind j) ≡ true)
      → resolve_loop n w pd v needrw count k ≡ true
  checks_loop zero count k fuel inside good = absurd (omega arith)
  checks_loop (suc n) count k fuel inside good = elim (Bool-cases (count == 0)) [
    | inl none_left ↦
        subst (λ x. resolve_loop (suc n) w pd v needrw x k ≡ true) (sym (==→eq count 0 none_left))
          (resolve_loop_none n k)
    | inr some_left ↦
        let more : 0 < count = ground arith in
        rw (resolve_loop-step n count k more (omega arith), good k (omega arith) (omega arith))
          (checks_loop n (count - 4096) (k + 1) (omega arith) (omega arith)
            (λ j lo hi. good j (omega arith) (omega arith)))
  ]

  -- The page of the byte `a` is one of those behind.
  behind_get_page :
      (a k : ℕ) → pi v + k < 1024 → a / 4096 ≡ v / 4096 + k → get_page w pd a ≡ page_behind k
  unfolding get_page
  behind_get_page a k inside same =
      let table : pti a ≡ pti (v + 4096 * k) = omega arith in
      let page : pi a ≡ pi (v + 4096 * k) = omega arith in rw (table, page) refl

  -- resolveProcessAddress of `count` bytes of the user half, where the page of the first byte and
  -- as many behind it as `count` bytes take in whole pages lie in one page table: it is true exactly
  -- when each byte of the `count` bytes from the start of that page on has a page that is present and
  -- is a user page, and is writable where writing is asked for. The bytes of the range itself are
  -- these where its address is aligned to a page.
  pub resolve_process_address-Usable :
      (count : ℕ)
      → pi v + (count + 4095) / 4096 ≤ 1024
      → (resolve_process_address w pd v count needrw ≡ true) ↔ (
          (a : ℕ)
          → v / 4096 * 4096 ≤ a
          → a < v / 4096 * 4096 + count
          → Usable needrw (get_page w pd a))
  unfolding resolve_process_address
  resolve_process_address-Usable count inside = (
    λ e a lo hi.
        let k = a / 4096 - v / 4096 in
        let near : pi v + k < 1024 = omega arith in
        let good =
          loop_checks (suc count) count 0 (omega arith) (omega arith) e k (omega arith)
            (omega arith) in
        rw (behind_get_page a k near (omega arith))
          ((accessible-Usable needrw (page_behind k)).0 good),
    λ good. checks_loop (suc count) count 0 (omega arith) (omega arith) λ j lo hi.
        let a = v / 4096 * 4096 + 4096 * j in
        let same = behind_get_page a j (omega arith) (omega arith) in
        (accessible-Usable needrw (page_behind j)).1
          (subst (λ e. Usable needrw e) same (good a (omega arith) (omega arith))),
  )

  -- resolveProcessAddress of up to a page of bytes looks at the page of the first byte alone, also
  -- where the range reaches into the next page.
  pub resolve_process_address_first_page :
      (count : ℕ)
      → 0 < count
      → count ≤ 4096
      → resolve_process_address w pd v count needrw ≡ accessible needrw (get_page w pd v)
  unfolding resolve_process_address
  resolve_process_address_first_page zero h small = absurd (omega arith)
  resolve_process_address_first_page (suc n) h small =
      let first : v + 4096 * 0 ≡ v = omega arith in
      let none_left : suc n - 4096 ≡ 0 = omega arith in
      resolve_loop-step (suc n) (suc n) 0 h (omega arith)
      ∙ rw (none_left, resolve_loop_none n 1, first) (if_true (accessible needrw (get_page w pd v)))
