-- ===== src/Memory/Mapped.antt =====
-- What the allocator of page frames does to the page tables where the frames of the map are mapped.
use blueberry_os.Base.{
  ℕ, zero, suc, ◌+◌, ◌-◌, ◌==◌, ◌≡◌, ◌≤◌, ◌<◌, ◌⊎◌, refl, sym, arith, ap, ◌∙◌, true, false, leb,
  if◌then◌else◌, Bool-cases, Option-cases, inl, inr, Option, none, some,
}
use blueberry_os.PageTable.{Words, Alloc, present, get_page, map_absent}
use blueberry_os.Memory.{
  Bits, FrameMap, set_bit, set_bits, frame_at, skip_used, cache_loop, kalloc_cache, kalloc_within,
  kalloc_frame, take_cached, mark_run,
}

-- Every frame of the map has a page that is present in `page_directory`.
abbrev pub IsMapped : FrameMap → Type 0
IsMapped s =
    (i : ℕ)
    → i < s.frame_map_size
    → present (get_page s.words s.page_directory (frame_at s i)) ≡ true

map_absent-present :
    (alloc : Alloc) (pf : ℕ) (s : FrameMap)
    → present (get_page s.words s.page_directory pf) ≡ true
    → map_absent alloc pf s ≡ some s
unfolding map_absent
map_absent-present alloc pf s e = rw e refl

pub mark_run_mapped :
    (n i : ℕ) (s : FrameMap)
    → IsMapped s
    → i + n ≤ s.frame_map_size
    → mark_run n i s ≡ some (record s { frame_map = set_bits n i true s.frame_map })
unfolding mark_run set_bits frame_at
mark_run_mapped zero i s good inside = refl
mark_run_mapped (suc n) i s good inside =
    let s' : FrameMap = record s { frame_map = set_bit s.frame_map i true } in
    rw (map_absent-present kalloc_frame (frame_at s i) s' (good i (omega arith)), mark_run)
      (mark_run_mapped n (i + 1) s' good (omega arith))

pub skip_used-lt :
    (n : ℕ) (bits : Bits) (index i : ℕ)
    → skip_used n bits index ≡ some i
    → (i < index + n) × (0 < n)
unfolding skip_used
skip_used-lt zero bits index i e = absurd (ground (arith, e))
skip_used-lt (suc n) bits index i e = elim (Bool-cases (bits index)) [
  | inl used ↦
      let behind = skip_used-lt n bits (index + 1) i (sym (rw (used, skip_used) refl) ∙ e) in
      omega arith
  | inr free ↦
      let here : some index ≡ some i = sym (rw (free, skip_used) refl) ∙ e in ground (arith, here)
]

-- What map_page and getPage go by.
abbrev tables : FrameMap → Words × ℕ
tables s = (s.words, s.page_directory)

tables_or : Words × ℕ → Option FrameMap → Words × ℕ
tables_or w none = w
tables_or w (some s) = tables s

some-tables : (s s' : FrameMap) → some s ≡ some s' → tables s' ≡ tables s
unfolding tables_or
some-tables s s' e = sym (ap (tables_or (tables s)) e)

second : Option (ℕ × FrameMap) → Option FrameMap
second none = none
second (some p) = some p.1

some-tables_second : (p q : ℕ × FrameMap) → some p ≡ some q → tables q.1 ≡ tables p.1
unfolding second
some-tables_second p q e = some-tables p.1 q.1 (ap second e)

-- The cache is filled without a change of the page tables.
cache_loop-tables :
    (alloc : Alloc) (left c index : ℕ) (s s' : FrameMap)
    → IsMapped s
    → cache_loop alloc left c index s ≡ some s'
    → tables s' ≡ tables s
unfolding cache_loop frame_at
cache_loop-tables alloc zero c index s s' good e = some-tables s s' e
cache_loop-tables alloc (suc left) c index s s' good e =
    elim (Option-cases (skip_used (s.frame_map_size - index) s.frame_map index)) [
      | inl full ↦ elim (Bool-cases (c == 0)) [
        | inl first ↦ absurd (ground (arith, rw (full, cache_loop, first) at e))
        | inr later ↦
            let same : some s ≡ some s' = sym (rw (full, cache_loop, later) refl) ∙ e in
            some-tables s s' same
      ]
      | inr (i, found) ↦
          let lt = skip_used-lt (s.frame_map_size - index) s.frame_map index i found in
          let t : FrameMap = record s {
            frame_map = set_bit s.frame_map i true;
            cached_frame_map = λ k. if k == c then frame_at s i else s.cached_frame_map k;
          } in
          let t' : FrameMap = record t { frame_cache_size = t.frame_cache_size + 1 } in
          cache_loop-tables alloc left (c + 1) i t' s' good (
            sym (
              rw
                (
                  found,
                  map_absent-present alloc (frame_at s i) t (good i (omega arith)),
                  cache_loop,
                )
                refl)
            ∙ e)
    ]

-- Either a frame is in the cache, or the frames that may refill it are mapped: kalloc_frame maps no
-- frame.
abbrev pub MapsNone : FrameMap → Type 0
MapsNone s = (s.cached_index < s.frame_cache_size) ⊎ IsMapped s

kalloc_frame-tables :
    (s : FrameMap) (f : ℕ) (rest : FrameMap)
    → MapsNone s
    → kalloc_frame s ≡ some (f, rest)
    → tables rest ≡ tables s
unfolding kalloc_frame kalloc_within kalloc_cache take_cached frame_at
kalloc_frame-tables s f rest (inl cached) e =
    let more : leb s.frame_cache_size s.cached_index ≡ false = ground arith in
    some-tables_second (take_cached s) (f, rest)
      (sym (rw (more, kalloc_frame, kalloc_within) refl) ∙ e)
kalloc_frame-tables s f rest (inr good) e =
    elim (Bool-cases (leb s.frame_cache_size s.cached_index)) [
      | inr more ↦
          some-tables_second (take_cached s) (f, rest)
            (sym (rw (more, kalloc_frame, kalloc_within) refl) ∙ e)
      | inl spent ↦
          let empty : FrameMap = record s { cached_index = 0; frame_cache_size = 0 } in
          let alloc = kalloc_within s.frame_map_size in
          elim (Option-cases (cache_loop alloc s.frame_cache_count 0 0 empty)) [
            | inl full ↦
                absurd
                  (ground (arith, rw (spent, kalloc_frame, kalloc_within, kalloc_cache, full) at e))
            | inr (s', filled) ↦
                some-tables_second (take_cached s') (f, rest)
                  (sym (rw (spent, filled, kalloc_frame, kalloc_within, kalloc_cache) refl) ∙ e)
                ∙ cache_loop-tables alloc s.frame_cache_count 0 0 empty s' good filled
          ]
    ]

module _ (s : FrameMap) (f : ℕ) (rest : FrameMap) (none_mapped : MapsNone s)
    (given : kalloc_frame s ≡ some (f, rest)) where
  pub kalloc_frame-words : rest.words ≡ s.words
  kalloc_frame-words = ap (λ (t : Words × ℕ). t.0) (kalloc_frame-tables s f rest none_mapped given)

  pub kalloc_frame-page_directory : rest.page_directory ≡ s.page_directory
  kalloc_frame-page_directory =
      ap (λ (t : Words × ℕ). t.1) (kalloc_frame-tables s f rest none_mapped given)
