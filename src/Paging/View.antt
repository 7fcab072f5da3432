-- ===== src/Paging/View.antt =====
-- What the page directory maps after one page has been entered, for any of the functions that do.
use blueberry_os.Base.{
  ℕ, ◌/◌, ◌^◌, ◌==◌, ◌≡◌, ◌≢◌, ◌<◌, arith, true, false, inl, inr, Bool-cases, sym, ◌∙◌, ap, subst,
  ==→eq,
}
use blueberry_os.Paging.{Words, entry, present, pti, pi, get_pagetable, get_page}
use blueberry_os.Paging.Directory.{
  table_at, IsFrame, IsDirectory, get_pagetable-IsFrame, pti_below, pi_below,
}
use blueberry_os.Paging.Map.{Entered, map_at, get_page_live, get_page_gone, get_page_same}

-- The table that has been found or made for the address `v`, where `w` is the memory before and
-- `w0` with a new table cleared.
pub record Prepared (w : Words) (pd v table : ℕ) (w0 : Words) : Type 0 where
  pub frame : IsFrame table
  pub other : table ≢ pd
  pub no_table :
      (j : ℕ) → j < 1024 → pti v ≢ j → present (entry w pd j) ≡ true → table_at w pd j ≢ table
  pub same_frames : (g j : ℕ) → IsFrame g → table ≢ g → j < 1024 → entry w0 g j ≡ entry w g j
  pub old : present (entry w pd (pti v)) ≡ true → table_at w pd (pti v) ≡ table
  pub old_pages :
      (j : ℕ) → j < 1024 → present (entry w pd (pti v)) ≡ true → entry w0 table j ≡ entry w table j
  pub new_pages : (j : ℕ) → j < 1024 → present (entry w pd (pti v)) ≡ false → entry w0 table j ≡ 0

module _ (w w0 w' : Words) (pd v table e : ℕ) (good : IsDirectory w pd)
    (ready : Prepared w pd v table w0) (done : Entered w0 pd table v e w') (low : v < 2 ^ 32) where
  same_tables : (j : ℕ) → j < 1024 → pti v ≢ j → entry w' pd j ≡ entry w pd j
  same_tables j h d = done.same_tables j h d ∙ ready.same_frames pd j good.frame ready.other h

  -- Another page of the same table.
  other_page : (u : ℕ) → pti v ≡ pti u → pi v ≢ pi u → get_page w' pd u ≡ get_page w pd u
  other_page u same d =
      let after : get_page w' pd u ≡ entry w' table (pi u) =
        get_page_live w' pd u table (subst (λ x. present (entry w' pd x) ≡ true) same done.leads)
          (subst (λ x. table_at w' pd x ≡ table) same done.leads_to) in
      let kept = done.same_pages (pi u) (pi_below u) d in
      elim (Bool-cases (present (entry w pd (pti v)))) [
        | inl live ↦
            after
            ∙ kept
            ∙ ready.old_pages (pi u) (pi_below u) live
            ∙ sym (
                get_page_live w pd u table (subst (λ x. present (entry w pd x) ≡ true) same live)
                  (subst (λ x. table_at w pd x ≡ table) same (ready.old live)))
        | inr gone ↦
            after
            ∙ kept
            ∙ ready.new_pages (pi u) (pi_below u) gone
            ∙ sym (get_page_gone w pd u (subst (λ x. present (entry w pd x) ≡ false) same gone))
      ]

  this_page : (u : ℕ) → pti v ≡ pti u → pi v ≡ pi u → get_page w' pd u ≡ e
  this_page u same same' =
      get_page_live w' pd u table (subst (λ x. present (entry w' pd x) ≡ true) same done.leads)
        (subst (λ x. table_at w' pd x ≡ table) same done.leads_to)
      ∙ subst (λ x. entry w' table x ≡ e) same' done.page

  other_table : (u : ℕ) → u < 2 ^ 32 → pti v ≢ pti u → get_page w' pd u ≡ get_page w pd u
  other_table u h d =
      let below = pti_below u h in
      get_page_same w w' pd u (same_tables (pti u) below d) (λ live.
        let g = table_at w pd (pti u) in
        let fr = get_pagetable-IsFrame (entry w pd (pti u)) in
        let d1 = ready.no_table (pti u) below d live in
        let d2 = good.apart (pti u) below live in
        done.same_frames g (pi u) fr (λ q. d1 (sym q)) (λ q. d2 (sym q)) (pi_below u)
        ∙ ready.same_frames g (pi u) fr (λ q. d1 (sym q)) (pi_below u))

  pub entered-get_page : (u : ℕ) → u < 2 ^ 32 → get_page w' pd u ≡ map_at (get_page w pd) v e u
  entered-get_page u h = elim (Bool-cases (pti v == pti u)) [
    | inl t ↦ elim (Bool-cases (pi v == pi u)) [
      | inl q ↦
          let here : (u / 4096 == v / 4096) ≡ true = ground arith in
          rw here (this_page u (==→eq (pti v) (pti u) t) (==→eq (pi v) (pi u) q))
      | inr q ↦
          let elsewhere : (u / 4096 == v / 4096) ≡ false = ground arith in
          rw elsewhere (other_page u (==→eq (pti v) (pti u) t) (ground arith))
    ]
    | inr t ↦
        let elsewhere : (u / 4096 == v / 4096) ≡ false = ground arith in
        rw elsewhere (other_table u h (ground arith))
  ]

  table_after :
      (i : ℕ)
      → i < 1024
      → present (entry w' pd i) ≡ true
      → pti v ≢ i
      → (present (entry w pd i) ≡ true) × (table_at w' pd i ≡ table_at w pd i)
  table_after i h live d =
      (sym (ap present (same_tables i h d)) ∙ live, ap get_pagetable (same_tables i h d))

  pub entered-IsDirectory : IsDirectory w' pd
  entered-IsDirectory = record {
    frame = good.frame;
    apart = λ i h live. elim (Bool-cases (pti v == i)) [
      | inl t ↦
          subst (λ x. table_at w' pd x ≢ pd) (==→eq (pti v) i t)
            (λ q. ready.other (sym done.leads_to ∙ q))
      | inr t ↦
          let (was, same) = table_after i h live (ground arith) in
          λ q. good.apart i h was (sym same ∙ q)
    ];
    distinct = λ i j hi hj d live live'. elim (Bool-cases (pti v == i)) [
      | inl t ↦
          let (was, same) = table_after j hj live' (ground arith) in
          let to = ap (λ x. table_at w' pd x) (==→eq (pti v) i t) in
          λ q. ready.no_table j hj (ground arith) was (sym same ∙ sym q ∙ sym to ∙ done.leads_to)
      | inr t ↦ elim (Bool-cases (pti v == j)) [
        | inl t' ↦
            let (was, same) = table_after i hi live (ground arith) in
            let to = ap (λ x. table_at w' pd x) (==→eq (pti v) j t') in
            λ q. ready.no_table i hi (ground arith) was (sym same ∙ q ∙ sym to ∙ done.leads_to)
        | inr t' ↦
            let (was, same) = table_after i hi live (ground arith) in
            let (was', same') = table_after j hj live' (ground arith) in
            λ q. good.distinct i j hi hj d was was' (sym same ∙ q ∙ same')
      ]
    ];
  }
