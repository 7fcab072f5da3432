-- ===== src/Paging/Copy.antt =====
-- The routines of kernel/src/paging.c that fill a whole directory or a whole page table.
use blueberry_os.Base.{
  ℕ, zero, suc, ◌+◌, ◌^◌, ◌==◌, ◌≡◌, ◌≢◌, ◌≤◌, ◌<◌, refl, arith, inl, inr, Bool-cases, sym, ◌∙◌,
  some, ==→eq, subst,
}
use blueberry_os.Memory.{FrameMap, kalloc_frame}
use blueberry_os.Memory.Mapped.{MapsNone, kalloc_frame-words, kalloc_frame-page_directory}
use blueberry_os.Paging.{
  Words, entry, set_entry, present, pti, pi, get_page, copy_entries, copy_system_pagedirectory,
}
use blueberry_os.Paging.Directory.{
  table_at, IsFrame, IsDirectory, IsUnused, get_pagetable-IsFrame, set_entry_self, set_entry_index,
  set_entry_other, pti_below, pi_below,
}
use blueberry_os.Paging.Map.{get_page_live, get_page_gone}

module _ (f : ℕ) (hf : IsFrame f) where
  copy_entries_other :
      (n i source : ℕ) (w : Words) (g j : ℕ)
      → i + n ≤ 1024
      → IsFrame g
      → f ≢ g
      → j < 1024
      → entry (copy_entries n i f source w) g j ≡ entry w g j
  unfolding copy_entries
  copy_entries_other zero i source w g j room hg ne h = refl
  copy_entries_other (suc n) i source w g j room hg ne h =
      copy_entries_other n (i + 1) source (set_entry w f i (entry w source i)) g j (omega arith) hg
        ne h
      ∙ set_entry_other w f g i j (entry w source i) hf hg ne (omega arith) h

  copy_entries_before :
      (n i source : ℕ) (w : Words) (j : ℕ)
      → j < i
      → entry (copy_entries n i f source w) f j ≡ entry w f j
  unfolding copy_entries
  copy_entries_before zero i source w j h = refl
  copy_entries_before (suc n) i source w j h =
      copy_entries_before n (i + 1) source (set_entry w f i (entry w source i)) j (omega arith)
      ∙ set_entry_index w f i j (entry w source i) (λ e. omega (arith, e, h))

  copy_entries_copied :
      (n i source : ℕ) (w : Words) (j : ℕ)
      → i + n ≤ 1024
      → IsFrame source
      → f ≢ source
      → i ≤ j
      → j < i + n
      → entry (copy_entries n i f source w) f j ≡ entry w source j
  unfolding copy_entries
  copy_entries_copied zero i source w j room hs ne lo hi = absurd (omega arith)
  copy_entries_copied (suc n) i source w j room hs ne lo hi =
      let w' = set_entry w f i (entry w source i) in
      elim (Bool-cases (i == j)) [
        | inl same ↦
            let e = ==→eq i j same in
            subst (λ x. entry (copy_entries n (i + 1) f source w') f x ≡ entry w source x) e
              (copy_entries_before n (i + 1) source w' i (omega arith)
                ∙ set_entry_self w f i (entry w source i))
        | inr later ↦
            copy_entries_copied n (i + 1) source w' j (omega arith) hs ne (ground arith)
              (omega arith)
            ∙ set_entry_other w f source i j (entry w source i) hf hs ne (omega arith) (omega arith)
      ]

-- A copy of the entries maps what the directory maps.
copied-get_page :
    (w : Words) (pd f : ℕ)
    → IsDirectory w pd
    → IsUnused w pd f
    → (u : ℕ) → u < 2 ^ 32
    → get_page (copy_entries 1024 0 f pd w) f u ≡ get_page w pd u
copied-get_page w pd f good unused u h =
    let w' = copy_entries 1024 0 f pd w in
    let below = pti_below u h in
    let same =
      copy_entries_copied f unused.frame 1024 0 pd w (pti u) (omega arith) good.frame unused.other
        (omega arith) below in
    elim (Bool-cases (present (entry w pd (pti u)))) [
      | inl live ↦
          let table = table_at w pd (pti u) in
          let fr = get_pagetable-IsFrame (entry w pd (pti u)) in
          let apart = unused.no_table (pti u) below live in
          get_page_live w' f u table (rw same live) (rw same refl)
          ∙ copy_entries_other f unused.frame 1024 0 pd w table (pi u) (omega arith) fr
              (λ q. apart (sym q)) (pi_below u)
          ∙ sym (get_page_live w pd u table live refl)
      | inr gone ↦ get_page_gone w' f u (rw same gone) ∙ sym (get_page_gone w pd u gone)
    ]

-- copy_system_pagedirectory, where the tables of the system's page directory are frames of their own,
-- a frame is in the cache of kalloc_frame or each frame of the map is mapped in this directory, and
-- kalloc_frame gives a frame that the directory does not use: it returns that frame, as a
-- directory that maps every address below 2 ^ 32 as the system's does.
pub copy_system_pagedirectory-get_page :
    (s : FrameMap) (f : ℕ) (rest : FrameMap)
    → IsDirectory s.words s.page_directory
    → kalloc_frame s ≡ some (f, rest)
    → MapsNone s
    → IsUnused s.words s.page_directory f
    → (s' : FrameMap) × (copy_system_pagedirectory s ≡ some (f, s'))
      × ((u : ℕ) → u < 2 ^ 32 → get_page s'.words f u ≡ get_page s.words s.page_directory u)
unfolding copy_system_pagedirectory
copy_system_pagedirectory-get_page s f rest good e none_mapped unused =
    let same_words = kalloc_frame-words s f rest none_mapped e in
    let same_directory = kalloc_frame-page_directory s f rest none_mapped e in
    (
      record rest { words = copy_entries 1024 0 f rest.page_directory rest.words },
      rw (e, copy_system_pagedirectory) refl,
      λ u h.
          rw (same_words, same_directory)
            (copied-get_page s.words s.page_directory f good unused u h),
    )
