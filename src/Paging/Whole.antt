-- ===== src/Paging/Whole.antt =====
-- map_pagetable_pd of kernel/src/paging.c: a page table that maps 4 MB in one piece.
use blueberry_os.Base.{
  ℕ, zero, suc, ◌+◌, ◌*◌, ◌^◌, ◌==◌, ◌≡◌, ◌≢◌, ◌≤◌, ◌<◌, refl, arith, Bool, true, if◌then◌else◌,
  inl, inr, Bool-cases, sym, ◌∙◌, some, u32, ==→eq, subst,
}
use blueberry_os.Memory.{FrameMap}
use blueberry_os.Memory.Mapped.{kalloc_frame-words}
use blueberry_os.Paging.{
  Words, entry, set_entry, present, pti, pi, get_page, page_flags, v_to_p, fill_entries,
  table_or_frame, map_pagetable_pd,
}
use blueberry_os.Paging.Directory.{
  table_at, IsFrame, IsDirectory, get_pagetable-IsFrame, get_pagetable-v_to_p, present-v_to_p,
  set_entry_self, set_entry_index, set_entry_other, pti_below, pi_below,
}
use blueberry_os.Paging.Map.{get_page_live, get_page_same}
use blueberry_os.Paging.Space.{GivesUnused, page_flags-present, page_flags_small}

module _ (f : ℕ) (value : ℕ → ℕ) where
  fill_entries_other :
      (n i : ℕ) (w : Words) (g j : ℕ)
      → i + n ≤ 1024
      → IsFrame f
      → IsFrame g
      → f ≢ g
      → j < 1024
      → entry (fill_entries n i f value w) g j ≡ entry w g j
  unfolding fill_entries
  fill_entries_other zero i w g j room hf hg ne h = refl
  fill_entries_other (suc n) i w g j room hf hg ne h =
      fill_entries_other n (i + 1) (set_entry w f i (value i)) g j (omega arith) hf hg ne h
      ∙ set_entry_other w f g i j (value i) hf hg ne (omega arith) h

  fill_entries_before :
      (n i : ℕ) (w : Words) (j : ℕ) → j < i → entry (fill_entries n i f value w) f j ≡ entry w f j
  unfolding fill_entries
  fill_entries_before zero i w j h = refl
  fill_entries_before (suc n) i w j h =
      fill_entries_before n (i + 1) (set_entry w f i (value i)) j (omega arith)
      ∙ set_entry_index w f i j (value i) (λ e. omega (arith, e, h))

  fill_entries_filled :
      (n i : ℕ) (w : Words) (j : ℕ)
      → i ≤ j
      → j < i + n
      → entry (fill_entries n i f value w) f j ≡ value j
  unfolding fill_entries
  fill_entries_filled zero i w j lo hi = absurd (omega arith)
  fill_entries_filled (suc n) i w j lo hi =
      let w' = set_entry w f i (value i) in
      elim (Bool-cases (i == j)) [
        | inl same ↦
            subst (λ x. entry (fill_entries n (i + 1) f value w') f x ≡ value x) (==→eq i j same)
              (fill_entries_before n (i + 1) w' i (omega arith) ∙ set_entry_self w f i (value i))
        | inr later ↦ fill_entries_filled n (i + 1) w' j (ground arith) (omega arith)
      ]

-- The table for an index, and that nothing else leads to it.
record Chosen (w : Words) (pd index table : ℕ) : Type 0 where
  frame : IsFrame table
  other : table ≢ pd
  no_table :
      (j : ℕ) → j < 1024 → index ≢ j → present (entry w pd j) ≡ true → table_at w pd j ≢ table

module _ (s : FrameMap) (pd v : ℕ) (good : IsDirectory s.words pd) (low : v < 2 ^ 32)
    (gives : GivesUnused s pd v) where
  choose :
      (table : ℕ) × (s' : FrameMap) × (table_or_frame pd (pti v) s ≡ some (table, s'))
      × (s'.words ≡ s.words)
      × Chosen s.words pd (pti v) table
  unfolding table_or_frame
  choose = elim (Bool-cases (present (entry s.words pd (pti v)))) [
    | inl live ↦ (
      table_at s.words pd (pti v),
      s,
      rw live refl,
      refl,
      record {
        frame = get_pagetable-IsFrame (entry s.words pd (pti v));
        other = good.apart (pti v) (pti_below v low) live;
        no_table =
            λ j h d live'. good.distinct j (pti v) h (pti_below v low) (λ q. d (sym q)) live' live;
      },
    )
    | inr gone ↦
        let (f, rest, e, none_mapped, unused) = gives gone in
        (
          f,
          rest,
          rw (gone, e) refl,
          kalloc_frame-words s f rest none_mapped e,
          record {
            frame = unused.frame;
            other = unused.other;
            no_table = λ j h d live. unused.no_table j h live;
          },
        )
  ]

  module _ (physical_index : ℕ) (writable kernel : Bool) where
    abbrev pub page_value : ℕ → ℕ
    page_value i = u32 (physical_index * 4194304 + i * 4096) + page_flags writable kernel

    abbrev whole : ℕ → Words → Words
    whole table w =
        set_entry (fill_entries 1024 0 table page_value w) pd (pti v)
          (v_to_p table + page_flags writable kernel)

    whole-get_page :
        (table : ℕ)
        → Chosen s.words pd (pti v) table
        → (u : ℕ) → u < 2 ^ 32
        → get_page (whole table s.words) pd u
          ≡ (if pti u == pti v then page_value (pi u) else get_page s.words pd u)
    whole-get_page table chosen u h =
        let filled = fill_entries 1024 0 table page_value s.words in
        let link = v_to_p table + page_flags writable kernel in
        let self = set_entry_self filled pd (pti v) link in
        let below = pti_below v low in
        elim (Bool-cases (pti u == pti v)) [
          | inl same ↦
              let e = sym (==→eq (pti u) (pti v) same) in
              let live : present (entry (whole table s.words) pd (pti v)) ≡ true = rw self (
                present-v_to_p table (page_flags writable kernel) chosen.frame
                  (page_flags-present writable kernel)) in
              let to : table_at (whole table s.words) pd (pti v) ≡ table = rw self (
                get_pagetable-v_to_p table (page_flags writable kernel) chosen.frame
                  (page_flags_small writable kernel)) in
              rw same (
                get_page_live (whole table s.words) pd u table
                  (subst (λ x. present (entry (whole table s.words) pd x) ≡ true) e live)
                  (subst (λ x. table_at (whole table s.words) pd x ≡ table) e to)
                ∙ set_entry_other filled pd table (pti v) (pi u) link good.frame chosen.frame
                    (λ q. chosen.other (sym q)) below (pi_below u)
                ∙ fill_entries_filled table page_value 1024 0 s.words (pi u) (omega arith)
                    (omega (arith, pi_below u)))
          | inr different ↦
              let d : pti v ≢ pti u = ground arith in
              let pti_u = pti_below u h in
              rw different (
                get_page_same s.words (whole table s.words) pd u
                  (set_entry_index filled pd (pti v) (pti u) link d
                    ∙ fill_entries_other table page_value 1024 0 s.words pd (pti u) (omega arith)
                        chosen.frame good.frame chosen.other pti_u)
                  (λ live.
                    let g = table_at s.words pd (pti u) in
                    let fr = get_pagetable-IsFrame (entry s.words pd (pti u)) in
                    set_entry_other filled pd g (pti v) (pi u) link good.frame fr
                      (λ q. good.apart (pti u) pti_u live (sym q)) below (pi_below u)
                    ∙ fill_entries_other table page_value 1024 0 s.words g (pi u) (omega arith)
                        chosen.frame fr (λ q. chosen.no_table (pti u) pti_u d live (sym q))
                        (pi_below u)))
        ]

    -- map_pagetable_pd for the 4 MB of an address below 2 ^ 32, on a directory whose tables are
    -- frames of their own. Where it has no table for them, a frame is in the cache of kalloc_frame, or
    -- each frame of the map is mapped in `page_directory`, and kalloc_frame gives a frame that the
    -- directory does not use. Then map_pagetable_pd returns, each page of these 4 MB is mapped to the page at the same place of the
    -- physical 4 MB, with the flags, and every page outside is mapped as before.
    pub map_pagetable_pd-get_page :
        (s' : FrameMap) × (map_pagetable_pd pd physical_index (pti v) writable kernel s ≡ some s')
        × ((u : ℕ)
            → u < 2 ^ 32
            → get_page s'.words pd u ≡ (
                if pti u == pti v
                then u32 (physical_index * 4194304 + pi u * 4096) + page_flags writable kernel
                else get_page s.words pd u))
    unfolding map_pagetable_pd
    map_pagetable_pd-get_page =
        let (table, s', e, same, chosen) = choose in
        let after : FrameMap = record s' { words = whole table s'.words } in
        (after, rw (e, map_pagetable_pd) refl, λ u h. rw same (whole-get_page table chosen u h))
