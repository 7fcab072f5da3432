-- ===== src/Paging/Release.antt =====
-- kernel/src/usermode.c: freeProcessPagedirectory, which gives the frames of a process back.
use blueberry_os.Base.{
  ℕ, zero, suc, ◌+◌, ◌==◌, ◌≡◌, ◌≢◌, ◌≤◌, ◌<◌, ◌⊎◌, ◌/◌, ◌%◌, refl, arith, Bool, true, false, ◌&&◌,
  ◌||◌, leb, if◌then◌else◌, inl, inr, Bool-cases, sym, ◌∙◌, subst, ==→eq,
}
use blueberry_os.Memory.{FrameMap, kfree_frame, index_of}
use blueberry_os.Paging.{Words, entry, present, read_write, get_pagetable, get_page_location}

-- Whether the page of an entry goes back, too.
abbrev pub goes_back : Bool → ℕ → Bool
goes_back free_read_only e = present e && (read_write e || free_read_only)

-- The inner loop, over the entries of a page table from `j` on, with `n` of them left.
unfoldable pub free_pages : ℕ → ℕ → ℕ → Bool → Words → FrameMap → FrameMap
free_pages zero j pt ro w fr = fr
free_pages (suc n) j pt ro w fr =
    let e = entry w pt j in
    free_pages n (j + 1) pt ro w
      (if goes_back ro e then kfree_frame (get_page_location e) fr else fr)

-- The outer loop, over the entries of the page directory.
unfoldable pub free_tables : ℕ → ℕ → ℕ → Bool → Words → FrameMap → FrameMap
free_tables zero i pd ro w fr = fr
free_tables (suc n) i pd ro w fr =
    let e = entry w pd i in
    free_tables n (i + 1) pd ro w (
      if present e
      then kfree_frame (get_pagetable e) (free_pages 1024 0 (get_pagetable e) ro w fr)
      else fr)

unfoldable pub free_process_pagedirectory : ℕ → Bool → FrameMap → FrameMap
free_process_pagedirectory pd free_read_only s =
    kfree_frame pd (free_tables 768 0 pd free_read_only s.words s)

-- What freeing frames leaves: the frames have their addresses, and a free one is free.
pub record Frees (before after : FrameMap) : Type 0 where
  pub same_start : after.framestart ≡ before.framestart
  pub same_size : after.frame_map_size ≡ before.frame_map_size
  pub still : (i : ℕ) → before.frame_map i ≡ false → after.frame_map i ≡ false

-- The frame at the address is one of the map, and is free.
pub record IsFree (fr : FrameMap) (frame : ℕ) : Type 0 where
  pub free : fr.frame_map (index_of fr frame) ≡ false

-- The address is one of a frame of the map.
abbrev pub InMap : FrameMap → ℕ → Type 0
InMap fr frame = index_of fr frame < fr.frame_map_size

Frees-refl : (fr : FrameMap) → Frees fr fr
Frees-refl fr = record { same_start = refl; same_size = refl; still = λ i h. h }

Frees-trans : {a b c : FrameMap} → Frees a b → Frees b c → Frees a c
Frees-trans p q = record {
  same_start = q.same_start ∙ p.same_start;
  same_size = q.same_size ∙ p.same_size;
  still = λ i h. q.still i (p.still i h);
}

kfree_frame-Frees : (frame : ℕ) (fr : FrameMap) → Frees fr (kfree_frame frame fr)
unfolding kfree_frame
kfree_frame-Frees frame fr = elim (Bool-cases (leb fr.frame_map_size (index_of fr frame))) [
  | inl out ↦ rw out (Frees-refl fr)
  | inr within ↦
      rw within (record { same_start = refl; same_size = refl; still = λ i h. ground (arith, h) })
]

kfree_frame-IsFree :
    (frame : ℕ) (fr : FrameMap) → InMap fr frame → IsFree (kfree_frame frame fr) frame
unfolding kfree_frame index_of
kfree_frame-IsFree frame fr h =
    let within : leb fr.frame_map_size (index_of fr frame) ≡ false = ground arith in
    rw within (record { free = ground arith })

kfree_frame_other :
    (frame : ℕ) (fr : FrameMap) (x : ℕ)
    → x ≢ index_of fr frame
    → (kfree_frame frame fr).frame_map x ≡ fr.frame_map x
unfolding kfree_frame
kfree_frame_other frame fr x ne = elim (Bool-cases (leb fr.frame_map_size (index_of fr frame))) [
  | inl out ↦ rw out refl
  | inr within ↦ rw within (ground arith)
]

index_of-Frees : {a b : FrameMap} → Frees a b → (frame : ℕ) → index_of b frame ≡ index_of a frame
unfolding index_of
index_of-Frees p frame = rw (p.same_start) refl

InMap-Frees : {a b : FrameMap} → Frees a b → (frame : ℕ) → InMap a frame → InMap b frame
InMap-Frees p frame h = rw (index_of-Frees p frame, p.same_size) h

IsFree-Frees : {a b : FrameMap} → Frees a b → (frame : ℕ) → IsFree a frame → IsFree b frame
IsFree-Frees {a} {b} p frame h = record {
  free = rw (index_of-Frees p frame) (p.still (index_of a frame) h.free);
}

-- A step that frees some frames under a condition.
Frees-if : (b : Bool) (fr after : FrameMap) → Frees fr after → Frees fr (if b then after else fr)
Frees-if true fr after p = p
Frees-if false fr after p = Frees-refl fr

module _ (pt : ℕ) (ro : Bool) (w : Words) where
  -- What the round for the entry `j` leaves.
  abbrev page_round : ℕ → FrameMap → FrameMap
  page_round j fr =
      if goes_back ro (entry w pt j) then kfree_frame (get_page_location (entry w pt j)) fr else fr

  page_round-Frees : (j : ℕ) (fr : FrameMap) → Frees fr (page_round j fr)
  page_round-Frees j fr =
      Frees-if (goes_back ro (entry w pt j)) fr (kfree_frame (get_page_location (entry w pt j)) fr)
        (kfree_frame-Frees (get_page_location (entry w pt j)) fr)

  free_pages-Frees : (n j : ℕ) (fr : FrameMap) → Frees fr (free_pages n j pt ro w fr)
  unfolding free_pages
  free_pages-Frees zero j fr = Frees-refl fr
  free_pages-Frees (suc n) j fr =
      Frees-trans (page_round-Frees j fr) (free_pages-Frees n (j + 1) (page_round j fr))

  free_pages-IsFree :
      (n j : ℕ) (fr : FrameMap) (k : ℕ)
      → j ≤ k
      → k < j + n
      → goes_back ro (entry w pt k) ≡ true
      → InMap fr (get_page_location (entry w pt k))
      → IsFree (free_pages n j pt ro w fr) (get_page_location (entry w pt k))
  unfolding free_pages
  free_pages-IsFree zero j fr k lo hi back inside = absurd (omega arith)
  free_pages-IsFree (suc n) j fr k lo hi back inside = elim (Bool-cases (j == k)) [
    | inl same ↦
        IsFree-Frees (free_pages-Frees n (j + 1) (page_round j fr))
          (get_page_location (entry w pt k))
          (subst (λ x. IsFree (page_round x fr) (get_page_location (entry w pt k)))
            (sym (==→eq j k same))
            (rw back (kfree_frame-IsFree (get_page_location (entry w pt k)) fr inside)))
    | inr later ↦
        free_pages-IsFree n (j + 1) (page_round j fr) k (ground arith) (omega arith) back
          (InMap-Frees (page_round-Frees j fr) (get_page_location (entry w pt k)) inside)
  ]

  -- A frame that is not one of the pages that go back stays as it is.
  free_pages_other :
      (n j : ℕ) (fr : FrameMap) (x : ℕ)
      → j + n ≤ 1024
      → ((k : ℕ)
          → k < 1024
          → goes_back ro (entry w pt k) ≡ true
          → x ≢ index_of fr (get_page_location (entry w pt k)))
      → (free_pages n j pt ro w fr).frame_map x ≡ fr.frame_map x
  unfolding free_pages
  free_pages_other zero j fr x room apart = refl
  free_pages_other (suc n) j fr x room apart =
      let page = get_page_location (entry w pt j) in
      free_pages_other n (j + 1) (page_round j fr) x (omega arith) (λ k h back same.
        apart k h back
          (same ∙ index_of-Frees (page_round-Frees j fr) (get_page_location (entry w pt k))))
      ∙ elim (Bool-cases (goes_back ro (entry w pt j))) [
        | inl back ↦ rw back (kfree_frame_other page fr x (apart j (omega arith) back))
        | inr stays ↦ rw stays refl
      ]

module _ (pd : ℕ) (ro : Bool) (w : Words) where
  abbrev table_freed : ℕ → FrameMap → FrameMap
  table_freed i fr =
      kfree_frame (get_pagetable (entry w pd i))
        (free_pages 1024 0 (get_pagetable (entry w pd i)) ro w fr)

  abbrev table_round : ℕ → FrameMap → FrameMap
  table_round i fr = if present (entry w pd i) then table_freed i fr else fr

  table_freed-Frees : (i : ℕ) (fr : FrameMap) → Frees fr (table_freed i fr)
  table_freed-Frees i fr =
      Frees-trans (free_pages-Frees (get_pagetable (entry w pd i)) ro w 1024 0 fr) (
        kfree_frame-Frees (get_pagetable (entry w pd i))
          (free_pages 1024 0 (get_pagetable (entry w pd i)) ro w fr))

  table_round-Frees : (i : ℕ) (fr : FrameMap) → Frees fr (table_round i fr)
  table_round-Frees i fr =
      Frees-if (present (entry w pd i)) fr (table_freed i fr) (table_freed-Frees i fr)

  free_tables-Frees : (n i : ℕ) (fr : FrameMap) → Frees fr (free_tables n i pd ro w fr)
  unfolding free_tables
  free_tables-Frees zero i fr = Frees-refl fr
  free_tables-Frees (suc n) i fr =
      Frees-trans (table_round-Frees i fr) (free_tables-Frees n (i + 1) (table_round i fr))

  -- What is free behind the round of the table `k` is free behind the loop.
  free_tables-IsFree :
      (frame k : ℕ)
      → present (entry w pd k) ≡ true
      → ((fr : FrameMap) → InMap fr frame → IsFree (table_freed k fr) frame)
      → (n i : ℕ) (fr : FrameMap) → i ≤ k
      → k < i + n
      → InMap fr frame
      → IsFree (free_tables n i pd ro w fr) frame
  unfolding free_tables
  free_tables-IsFree frame k live frees zero i fr lo hi inside = absurd (omega arith)
  free_tables-IsFree frame k live frees (suc n) i fr lo hi inside = elim (Bool-cases (i == k)) [
    | inl same ↦ IsFree-Frees (free_tables-Frees n (i + 1) (table_round i fr)) frame (
        subst (λ x. IsFree (table_round x fr) frame) (sym (==→eq i k same))
          (rw live (frees fr inside)))
    | inr later ↦
        free_tables-IsFree frame k live frees n (i + 1) (table_round i fr) (ground arith)
          (omega arith) (InMap-Frees (table_round-Frees i fr) frame inside)
  ]

  table_freed-table :
      (k : ℕ) (fr : FrameMap)
      → InMap fr (get_pagetable (entry w pd k))
      → IsFree (table_freed k fr) (get_pagetable (entry w pd k))
  table_freed-table k fr inside =
      let table = get_pagetable (entry w pd k) in
      kfree_frame-IsFree table (free_pages 1024 0 table ro w fr)
        (InMap-Frees (free_pages-Frees table ro w 1024 0 fr) table inside)

  table_freed-page :
      (k j : ℕ)
      → j < 1024
      → goes_back ro (entry w (get_pagetable (entry w pd k)) j) ≡ true
      → (fr : FrameMap) → InMap fr (get_page_location (entry w (get_pagetable (entry w pd k)) j))
      → IsFree (table_freed k fr) (get_page_location (entry w (get_pagetable (entry w pd k)) j))
  table_freed-page k j h back fr inside =
      let table = get_pagetable (entry w pd k) in
      let page = get_page_location (entry w table j) in
      IsFree-Frees (kfree_frame-Frees table (free_pages 1024 0 table ro w fr)) page
        (free_pages-IsFree table ro w 1024 0 fr j (omega arith) h back inside)

-- The frames of a process: the directory, each present page table of the lower 3 GB, and each present
-- page in these that may be written, or any such page where `ro` is true.
pub data Owned (w : Words) (pd : ℕ) (ro : Bool) (fr : FrameMap) (x : ℕ) : Type 0 where
  of_directory : x ≡ index_of fr pd → Owned w pd ro fr x
  of_table :
      (i : ℕ)
      → i < 768
      → entry w pd i % 2 ≡ 1
      → x ≡ index_of fr (get_pagetable (entry w pd i))
      → Owned w pd ro fr x
  of_page :
      (i j : ℕ)
      → i < 768
      → j < 1024
      → entry w pd i % 2 ≡ 1
      → entry w (get_pagetable (entry w pd i)) j % 2 ≡ 1
      → (entry w (get_pagetable (entry w pd i)) j / 2 % 2 ≡ 1) ⊎ (ro ≡ true)
      → x ≡ index_of fr (get_page_location (entry w (get_pagetable (entry w pd i)) j))
      → Owned w pd ro fr x

goes_back_if :
    (ro : Bool) (e : ℕ) → e % 2 ≡ 1 → (e / 2 % 2 ≡ 1) ⊎ (ro ≡ true) → goes_back ro e ≡ true
goes_back_if ro e live (inl writable) = ground arith
goes_back_if true e live (inr any) = ground arith
goes_back_if false e live (inr any) = cc

goes_back_only :
    (ro : Bool) (e : ℕ) → goes_back ro e ≡ true → (e % 2 ≡ 1) × ((e / 2 % 2 ≡ 1) ⊎ (ro ≡ true))
goes_back_only ro e back =
    let live : e % 2 ≡ 1 = ground arith in
    elim (Bool-cases (read_write e)) [
      | inl writable ↦ (live, inl (ground arith))
      | inr read_only ↦ (live, inr (ground arith))
    ]

-- What freeProcessPagedirectory leaves: each frame of the process that the map has is free, and every
-- other frame is as before.
pub record Released (w : Words) (pd : ℕ) (ro : Bool) (before after : FrameMap) : Type 0 where
  pub freed :
      (x : ℕ) → Owned w pd ro before x → x < before.frame_map_size → after.frame_map x ≡ false
  pub others : (x : ℕ) → (Owned w pd ro before x → ⊥) → after.frame_map x ≡ before.frame_map x

Owned-Frees :
    (pd : ℕ) (ro : Bool) (w : Words) (x : ℕ) {a b : FrameMap}
    → Frees a b
    → Owned w pd ro b x
    → Owned w pd ro a x
Owned-Frees pd ro w x p (of_directory same) = of_directory (same ∙ index_of-Frees p pd)
Owned-Frees pd ro w x p (of_table i h live same) =
    of_table i h live (same ∙ index_of-Frees p (get_pagetable (entry w pd i)))
Owned-Frees pd ro w x p (of_page i j h h' live live' back same) =
    of_page i j h h' live live' back
      (same ∙ index_of-Frees p (get_page_location (entry w (get_pagetable (entry w pd i)) j)))

table_freed_other :
    (pd : ℕ) (ro : Bool) (w : Words) (i : ℕ) (fr : FrameMap) (x : ℕ)
    → i < 768
    → present (entry w pd i) ≡ true
    → (Owned w pd ro fr x → ⊥)
    → (table_freed pd ro w i fr).frame_map x ≡ fr.frame_map x
table_freed_other pd ro w i fr x h live apart =
    let table = get_pagetable (entry w pd i) in
    let there : entry w pd i % 2 ≡ 1 = ground arith in
    kfree_frame_other table (free_pages 1024 0 table ro w fr) x (λ same.
      apart
        (of_table i h there (same ∙ index_of-Frees (free_pages-Frees table ro w 1024 0 fr) table)))
    ∙ free_pages_other table ro w 1024 0 fr x (omega arith) (λ k hk back same.
      let (live', which) = goes_back_only ro (entry w table k) back in
      apart (of_page i k h hk there live' which same))

free_tables_other :
    (pd : ℕ) (ro : Bool) (w : Words) (n i : ℕ) (fr : FrameMap) (x : ℕ)
    → i + n ≤ 768
    → (Owned w pd ro fr x → ⊥)
    → (free_tables n i pd ro w fr).frame_map x ≡ fr.frame_map x
unfolding free_tables
free_tables_other pd ro w zero i fr x room apart = refl
free_tables_other pd ro w (suc n) i fr x room apart =
    free_tables_other pd ro w n (i + 1) (table_round pd ro w i fr) x (omega arith)
      (λ own. apart (Owned-Frees pd ro w x (table_round-Frees pd ro w i fr) own))
    ∙ elim (Bool-cases (present (entry w pd i))) [
      | inl live ↦ rw live (table_freed_other pd ro w i fr x (omega arith) live apart)
      | inr gone ↦ rw gone refl
    ]

-- A frame that is free by its address is free by its index in the map before.
free_at :
    {a b c : FrameMap} {x : ℕ}
    → Frees a b
    → Frees b c
    → (frame : ℕ) → x ≡ index_of a frame
    → IsFree c frame
    → c.frame_map x ≡ false
free_at {a} {b} {c} {x} p q frame same free =
    subst (λ k. c.frame_map k ≡ false) (index_of-Frees q frame ∙ index_of-Frees p frame ∙ sym same)
      free.free

released :
    (pd : ℕ) (ro : Bool) (s : FrameMap) (x : ℕ)
    → x < s.frame_map_size
    → Owned s.words pd ro s x
    → (free_process_pagedirectory pd ro s).frame_map x ≡ false
unfolding free_process_pagedirectory
released pd ro s x inside (of_directory same) =
    let looped = free_tables 768 0 pd ro s.words s in
    let so_far = free_tables-Frees pd ro s.words 768 0 s in
    free_at so_far (kfree_frame-Frees pd looped) pd same (
      kfree_frame-IsFree pd looped
        (InMap-Frees so_far pd (subst (λ k. k < s.frame_map_size) same inside)))
released pd ro s x inside (of_table i h live same) =
    let w = s.words in
    let table = get_pagetable (entry w pd i) in
    let last = kfree_frame-Frees pd (free_tables 768 0 pd ro w s) in
    let so_far = free_tables-Frees pd ro w 768 0 s in
    free_at so_far last table same (
      IsFree-Frees last table (
        free_tables-IsFree pd ro w table i (ground arith) (table_freed-table pd ro w i) 768 0 s
          (omega arith) h (subst (λ k. k < s.frame_map_size) same inside)))
released pd ro s x inside (of_page i j h h' live live' back same) =
    let w = s.words in
    let page = get_page_location (entry w (get_pagetable (entry w pd i)) j) in
    let last = kfree_frame-Frees pd (free_tables 768 0 pd ro w s) in
    let so_far = free_tables-Frees pd ro w 768 0 s in
    let goes = goes_back_if ro (entry w (get_pagetable (entry w pd i)) j) live' back in
    free_at so_far last page same (
      IsFree-Frees last page (
        free_tables-IsFree pd ro w page i (ground arith) (table_freed-page pd ro w i j h' goes) 768
          0 s (omega arith) h (subst (λ k. k < s.frame_map_size) same inside)))

-- freeProcessPagedirectory leaves nothing behind and takes nothing else: the frame of the directory,
-- of each present page table of the lower 3 GB, and of each present page in these that is writable, or
-- that is read-only where such pages are to be freed, is free afterwards, if the map of frames has it;
-- every other frame is used or free as before.
pub free_process_pagedirectory-Released :
    (pd : ℕ) (free_read_only : Bool) (s : FrameMap)
    → Released s.words pd free_read_only s (free_process_pagedirectory pd free_read_only s)
unfolding free_process_pagedirectory
free_process_pagedirectory-Released pd ro s =
    let so_far = free_tables-Frees pd ro s.words 768 0 s in
    let looped = free_tables 768 0 pd ro s.words s in
    record {
      freed = λ x own inside. released pd ro s x inside own;
      others = λ x apart.
          kfree_frame_other pd looped x
            (λ same. apart (of_directory (same ∙ index_of-Frees so_far pd)))
          ∙ free_tables_other pd ro s.words 768 0 s x (omega arith) apart;
    }
