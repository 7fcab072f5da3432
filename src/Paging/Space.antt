-- ===== src/Paging/Space.antt =====
-- map_page_pd, map_page_wflags_pd, map_page_wtable_pd and unmap_page against the map from addresses
-- to entries that the page directory stands for.
use blueberry_os.Base.{
  ℕ, ◌+◌, ◌*◌, ◌/◌, ◌^◌, ◌≡◌, ◌<◌, refl, arith, Bool, true, false, if◌then◌else◌, inl, inr,
  Bool-cases, sym, none, some, subst,
}
use blueberry_os.Memory.{FrameMap, kalloc_frame}
use blueberry_os.Memory.Mapped.{MapsNone, kalloc_frame-words}
use blueberry_os.Paging.{
  Words, entry, present, pti, get_page, page_flags, enter_page, table_or_cleared, map_page_pd,
  map_page_wflags_pd, map_page_wtable_pd, unmap_page, clear_frame,
}
use blueberry_os.Paging.Directory.{
  table_at, IsDirectory, IsUnused, get_pagetable-IsFrame, clear_frame_inside, clear_frame_other,
  pti_below, page_address_lem,
}
use blueberry_os.Paging.Map.{Entered, map_at, enter_page_keep, enter_page_link}
use blueberry_os.Paging.View.{Prepared, entered-get_page, entered-IsDirectory}

-- Where the directory has no table for the address, kalloc_frame maps no frame, and gives one for the
-- table that the directory does not use.
abbrev pub GivesUnused : FrameMap → ℕ → ℕ → Type 0
GivesUnused s pd v =
    present (entry s.words pd (pti v)) ≡ false
    → (f : ℕ) × (rest : FrameMap) × (kalloc_frame s ≡ some (f, rest))
      × MapsNone s
      × IsUnused s.words pd f

-- The machine in which the page of `v` is mapped to `e`, and every other page as before.
pub record Maps (s : FrameMap) (pd v e : ℕ) (s' : FrameMap) : Type 0 where
  pub directory : IsDirectory s'.words pd
  pub pages : (u : ℕ) → u < 2 ^ 32 → get_page s'.words pd u ≡ map_at (get_page s.words pd) v e u

kept_table :
    (w : Words) (pd v : ℕ)
    → IsDirectory w pd
    → v < 2 ^ 32
    → present (entry w pd (pti v)) ≡ true
    → Prepared w pd v (table_at w pd (pti v)) w
kept_table w pd v good low live = record {
  frame = get_pagetable-IsFrame (entry w pd (pti v));
  other = good.apart (pti v) (pti_below v low) live;
  no_table = λ j h d live'. good.distinct j (pti v) h (pti_below v low) (λ q. d (sym q)) live' live;
  same_frames = λ g j hg d h. refl;
  old = λ h. refl;
  old_pages = λ j h h'. refl;
  new_pages = λ j h gone. absurd (ground (arith, live, gone));
}

cleared_table :
    (w : Words) (pd v f : ℕ)
    → present (entry w pd (pti v)) ≡ false
    → IsUnused w pd f
    → Prepared w pd v f (clear_frame w f)
cleared_table w pd v f gone unused = record {
  frame = unused.frame;
  other = unused.other;
  no_table = λ j h d live. unused.no_table j h live;
  same_frames = λ g j hg d h. clear_frame_other w f g j unused.frame hg d h;
  old = λ live. absurd (ground (arith, live, gone));
  old_pages = λ j h live. absurd (ground (arith, live, gone));
  new_pages = λ j h gone'. clear_frame_inside w f j h;
}

pub page_flags-present : (writable kernel : Bool) → present (page_flags writable kernel) ≡ true
page_flags-present true true = refl
page_flags-present true false = refl
page_flags-present false true = refl
page_flags-present false false = refl

pub page_flags_small : (writable kernel : Bool) → page_flags writable kernel < 4096
page_flags_small true true = omega arith
page_flags_small true false = omega arith
page_flags_small false true = omega arith
page_flags_small false false = omega arith

module _ (s : FrameMap) (pd v : ℕ) (good : IsDirectory s.words pd) (low : v < 2 ^ 32)
    (gives : GivesUnused s pd v) where
  prepare :
      (table : ℕ) × (s' : FrameMap) × (table_or_cleared kalloc_frame pd (pti v) s
        ≡ some (table, s'))
      × Prepared s.words pd v table s'.words
  unfolding table_or_cleared
  prepare = elim (Bool-cases (present (entry s.words pd (pti v)))) [
    | inl live ↦
        (table_at s.words pd (pti v), s, rw live refl, kept_table s.words pd v good low live)
    | inr gone ↦
        let (f, rest, e, none_mapped, unused) = gives gone in
        (
          f,
          record rest { words = clear_frame rest.words f },
          rw (gone, e) refl,
          rw (kalloc_frame-words s f rest none_mapped e) (cleared_table s.words pd v f gone unused),
        )
  ]

  Entered-page :
      (table p flags : ℕ) (s' : FrameMap)
      → Prepared s.words pd v table s'.words
      → present flags ≡ true
      → flags < 4096
      → (tflags : ℕ) → present tflags ≡ true
      → tflags < 4096
      → Entered s'.words pd table v
          (p / 4096 * 4096 + flags)
          (enter_page pd table p v flags (some tflags) s'.words)
  Entered-page table p flags s' ready live small tflags live' small' =
      subst
        (λ a.
          Entered s'.words pd table v (a + flags)
            (enter_page pd table p v flags (some tflags) s'.words))
        (page_address_lem p)
        (enter_page_link s'.words pd table p v flags good.frame ready.frame ready.other low tflags
          live' small')

  Entered-if_new :
      (table p flags : ℕ) (s' : FrameMap)
      → Prepared s.words pd v table s'.words
      → present flags ≡ true
      → flags < 4096
      → Entered s'.words pd table v (p / 4096 * 4096 + flags) (
          enter_page pd table p v flags
            (if present (entry s.words pd (pti v)) then none else some flags)
            s'.words)
  Entered-if_new table p flags s' ready live small =
      elim (Bool-cases (present (entry s.words pd (pti v)))) [
        | inl old ↦
            let same = ready.same_frames pd (pti v) good.frame ready.other (pti_below v low) in
            rw old (
              subst
                (λ a.
                  Entered s'.words pd table v (a + flags)
                    (enter_page pd table p v flags none s'.words))
                (page_address_lem p)
                (enter_page_keep s'.words pd table p v flags good.frame ready.frame ready.other low
                  (rw same old) (rw same (ready.old old))))
        | inr gone ↦ rw gone (Entered-page table p flags s' ready live small flags live small)
      ]

  maps :
      (table e : ℕ) (s' after : FrameMap)
      → Prepared s.words pd v table s'.words
      → Entered s'.words pd table v e after.words
      → Maps s pd v e after
  maps table e s' after ready done = record {
    directory = entered-IsDirectory s.words s'.words after.words pd v table e good ready done low;
    pages = entered-get_page s.words s'.words after.words pd v table e good ready done low;
  }

  -- map_page_wflags_pd of a page below 2 ^ 32 and of flags below 4096 with the bit for present, on a
  -- directory whose tables are frames of their own; where it has no table for the page, kalloc_frame
  -- maps no frame on the way and gives one that it does not use. It returns, the directory is such a one again, the page is
  -- mapped to the physical page with the flags, and every other page is mapped as before.
  pub map_page_wflags_pd-Maps :
      (p flags : ℕ)
      → present flags ≡ true
      → flags < 4096
      → (s' : FrameMap) × (map_page_wflags_pd pd p v flags s ≡ some s')
        × Maps s pd v (p / 4096 * 4096 + flags) s'
  unfolding map_page_wflags_pd
  map_page_wflags_pd-Maps p flags live small =
      let (table, s', e, ready) = prepare in
      let words =
        enter_page pd table p v flags
          (if present (entry s.words pd (pti v)) then none else some flags) s'.words in
      let after : FrameMap = record s' { words = words } in
      (
        after,
        rw (e, map_page_wflags_pd) refl,
        maps table (p / 4096 * 4096 + flags) s' after ready
            (Entered-if_new table p flags s' ready live small),
      )

  -- map_page_pd of a page below 2 ^ 32, on a directory whose tables are frames of their own. Where it
  -- has no table for the page, a frame is in the cache of kalloc_frame, or each frame of the map is
  -- mapped in `page_directory`, and kalloc_frame gives a frame that the directory does not use. Then
  -- map_page_pd returns, the
  -- directory is such a one again, the page is mapped to the physical page with the flags for present,
  -- writable and user, and every other page is mapped as before.
  pub map_page_pd-Maps :
      (p : ℕ) (writable kernel : Bool)
      → (s' : FrameMap) × (map_page_pd kalloc_frame pd p v writable kernel s ≡ some s')
        × Maps s pd v (p / 4096 * 4096 + page_flags writable kernel) s'
  unfolding map_page_pd
  map_page_pd-Maps p writable kernel =
      let flags = page_flags writable kernel in
      let (table, s', e, ready) = prepare in
      let words =
        enter_page pd table p v flags
          (if present (entry s.words pd (pti v)) then none else some flags) s'.words in
      let after : FrameMap = record s' { words = words } in
      (
        after,
        rw (e, map_page_pd) refl,
        maps table (p / 4096 * 4096 + flags) s' after ready (
            Entered-if_new table p flags s' ready (page_flags-present writable kernel)
              (page_flags_small writable kernel)),
      )

  -- map_page_wtable_pd in the same way; it gives the page table flags of its own in any case.
  pub map_page_wtable_pd-Maps :
      (p : ℕ) (pwritable pkernel twritable tkernel : Bool)
      → (s' : FrameMap) × (map_page_wtable_pd pd p v pwritable pkernel twritable tkernel s
          ≡ some s')
        × Maps s pd v (p / 4096 * 4096 + page_flags pwritable pkernel) s'
  unfolding map_page_wtable_pd
  map_page_wtable_pd-Maps p pwritable pkernel twritable tkernel =
      let flags = page_flags pwritable pkernel in
      let tflags = page_flags twritable tkernel in
      let (table, s', e, ready) = prepare in
      let after : FrameMap = record s' {
        words = enter_page pd table p v flags (some tflags) s'.words;
      } in
      (
        after,
        rw (e, map_page_wtable_pd) refl,
        maps table (p / 4096 * 4096 + flags) s' after ready (
            Entered-page table p flags s' ready (page_flags-present pwritable pkernel)
              (page_flags_small pwritable pkernel) tflags (page_flags-present twritable tkernel)
              (page_flags_small twritable tkernel)),
      )

-- unmap_page of an address whose page table is present: the page's entry is 0, and every other page
-- is mapped as before.
pub unmap_page-Maps :
    (s : FrameMap) (v : ℕ)
    → IsDirectory s.words s.page_directory
    → v < 2 ^ 32
    → present (entry s.words s.page_directory (pti v)) ≡ true
    → Maps s s.page_directory v 0 (unmap_page v s)
unfolding unmap_page enter_page
unmap_page-Maps s v good low live =
    let pd = s.page_directory in
    let ready = kept_table s.words pd v good low live in
    let table = table_at s.words pd (pti v) in
    let done : Entered s.words pd table v 0 (unmap_page v s).words =
      enter_page_keep s.words pd table 0 v 0 good.frame ready.frame ready.other low live refl in
    maps s pd v good low (λ gone. absurd (ground (arith, live, gone))) table 0 s (unmap_page v s)
      ready done
