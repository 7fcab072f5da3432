-- ===== src/Memory.antt =====
-- kernel/src/memory.c: the allocator of page frames of 4 KB.
-- A bit of the byte array `frame_map` is a Boolean by its index. `none` means that the kernel aborts.
-- A frame whose page is absent is mapped by mapPageframe, and that may call kalloc_frame for a page
-- table. Such a call has a frame of the map marked first, so calls are nested no deeper than the map
-- has frames: that is the fuel of kalloc_frame.
pub mod Search
pub mod Mapped
pub mod Grows
pub mod Marks
pub mod Nested
pub mod Frames
mod Tests
use blueberry_os.Base.{
  ℕ, zero, suc, ◌+◌, ◌-◌, ◌*◌, ◌/◌, ◌%◌, ◌^◌, ◌==◌, Bool, true, false, not, ◌&&◌, ◌||◌, leb, ltb,
  if◌then◌else◌, Option, none, some, u32, add32, sub32,
}
use blueberry_os.PageTable.{map_absent, Alloc}
pub use blueberry_os.PageTable.{Bits, FrameMap}

abbrev pub frame_size : ℕ
frame_size = 4096

-- `frame_map[index >> 3] |= (1 << (index & 0x7))`, and the same with `&= ~`.
abbrev pub set_bit : Bits → ℕ → Bool → Bits
set_bit bits index v i = if i == index then v else bits i

-- The loops that set or clear the bits of `n` frames from `i` on.
unfoldable pub set_bits : ℕ → ℕ → Bool → Bits → Bits
set_bits zero i v bits = bits
set_bits (suc n) i v bits = set_bits n (i + 1) v (set_bit bits i v)

-- `(pageframe_t) (index*FRAME_SIZE + framestart)`
unfoldable pub frame_at : FrameMap → ℕ → ℕ
frame_at s index = u32 (index * frame_size + s.framestart)

-- The `while` of kalloc_cache, from `index` on, with `n` frames left.
unfoldable pub skip_used : ℕ → Bits → ℕ → Option ℕ
skip_used zero bits index = none
skip_used (suc n) bits index =
    let rest = skip_used n bits (index + 1) in if bits index then rest else some index

-- The `for` of kalloc_cache: `c` frames are in the cache, and the search goes on from `index`.
unfoldable pub cache_loop : Alloc → ℕ → ℕ → ℕ → FrameMap → Option FrameMap
cache_loop alloc zero c index s = some s
cache_loop alloc (suc left) c index s =
    elim (skip_used (s.frame_map_size - index) s.frame_map index) [
      | none ↦ if c == 0 then none else some s
      | some i ↦
          elim (map_absent alloc (frame_at s i) (record s {
            frame_map = set_bit s.frame_map i true;
            cached_frame_map = λ k. if k == c then frame_at s i else s.cached_frame_map k;
          })) [
            | none ↦ none
            | some s' ↦
                cache_loop alloc left (c + 1) i
                  (record s' { frame_cache_size = s'.frame_cache_size + 1 })
          ]
    ]

unfoldable pub kalloc_cache : Alloc → ℕ → FrameMap → Option FrameMap
kalloc_cache alloc cache_size s =
    cache_loop alloc cache_size 0 0 (record s { frame_cache_size = 0 })

-- The frame that the cache hands out.
unfoldable pub take_cached : FrameMap → ℕ × FrameMap
take_cached s = (
  s.cached_frame_map s.cached_index,
  record s { cached_index = add32 s.cached_index 1; frames_used = add32 s.frames_used 1 },
)

-- kalloc_frame with `n` calls of itself nested at most.
unfoldable pub kalloc_within : ℕ → FrameMap → Option (ℕ × FrameMap)
kalloc_within zero s = none
kalloc_within (suc n) s =
    if leb s.frame_cache_size s.cached_index
    then elim (kalloc_cache (kalloc_within n) s.frame_cache_count (record s { cached_index = 0 })) [
      | none ↦ none
      | some s' ↦ some (take_cached s')
    ]
    else some (take_cached s)

unfoldable pub kalloc_frame : FrameMap → Option (ℕ × FrameMap)
kalloc_frame s = kalloc_within (suc s.frame_map_size) s

-- The `while` of kalloc_frames: the variables are `index`, `cons` and `startindex`. The index is
-- tested behind the round, also when the run has just become long enough.
unfoldable pub find_run : ℕ → Bits → ℕ → ℕ → ℕ → ℕ → ℕ → Option ℕ
find_run zero bits size count index cons start = none
find_run (suc n) bits size count index cons start =
    let cons' = if bits index then 0 else cons + 1 in
    let start' = if bits index then start else if cons == 0 then index else start in
    let rest = find_run n bits size count (index + 1) cons' start' in
    if cons == count then some start else if leb size (index + 1) then none else rest

-- The `for` of kalloc_frames, where `n` frames are left.
unfoldable pub mark_run : ℕ → ℕ → FrameMap → Option FrameMap
mark_run zero i s = some s
mark_run (suc n) i s =
    elim (map_absent kalloc_frame (frame_at s i)
      (record s { frame_map = set_bit s.frame_map i true })) [
        | none ↦ none
        | some s' ↦ mark_run n (i + 1) s'
      ]

-- What kalloc_frames does with the run that it found.
unfoldable pub take_run : FrameMap → ℕ → ℕ → Option (ℕ × FrameMap)
take_run s count start = elim (mark_run count start s) [
  | none ↦ none
  | some s' ↦ some (frame_at s' start, record s' { frames_used = add32 s'.frames_used count })
]

-- One frame comes from the cache, and none never returns: that is `none` as well.
unfoldable pub kalloc_frames : ℕ → FrameMap → Option (ℕ × FrameMap)
kalloc_frames count s =
    if count == 0
    then none
    else if count == 1
    then kalloc_frame s
    else elim (find_run (suc s.frame_map_size) s.frame_map s.frame_map_size count 0 0 0) [
      | none ↦ none
      | some start ↦ take_run s count start
    ]

-- `(frame - framestart) / FRAME_SIZE`
unfoldable pub index_of : FrameMap → ℕ → ℕ
index_of s frame = sub32 frame s.framestart / frame_size

-- A frame that is free already is only reported.
unfoldable pub kfree_frame : ℕ → FrameMap → FrameMap
kfree_frame frame s =
    let index = index_of s frame in
    if leb s.frame_map_size index then s else record s {
      frame_map = set_bit s.frame_map index false;
      frames_used = sub32 s.frames_used 1;
    }

unfoldable pub kfree_frames : ℕ → ℕ → FrameMap → FrameMap
kfree_frames frame count s =
    let index = index_of s frame in
    if count == 0 then s else if leb s.frame_map_size (add32 index count) then s else record s {
      frame_map = set_bits count index false s.frame_map;
      frames_used = sub32 s.frames_used count;
    }

unfoldable pub get_used_memory : FrameMap → ℕ
get_used_memory s = u32 (s.frames_used * frame_size)

-- `frame_start` is the first page behind the kernel. The bytes of the map are cleared by whole eights
-- of frames.
unfoldable pub memory_initialize : ℕ → ℕ → ℕ → FrameMap → Option FrameMap
memory_initialize frame_start total_mem frames s =
    let size = total_mem / frame_size in
    let offset = if size % 8 == 0 then size / 8 else size / 8 + 1 in
    let behind = add32 frame_start offset in
    kalloc_cache kalloc_frame frames (record s {
      frame_map_size = size;
      frame_cache_count = frames;
      framestart = add32 (frame_size - behind % frame_size) behind;
      frame_map = set_bits (size / 8 * 8) 0 false s.frame_map;
      frames_used = 0;
      cached_index = 0;
      frame_cache_size = 0;
    })

unfoldable pub memory_mark_allocated : ℕ → ℕ → FrameMap → Option FrameMap
memory_mark_allocated first last s =
    let startindex = sub32 first s.framestart / frame_size in
    let endindex = sub32 last s.framestart / frame_size in
    if not (first % 1024 == 0) || not (last % 1024 == 0)
    then none
    else if leb s.frame_map_size endindex
    then none
    else some (record s {
      frame_map = set_bits (endindex + 1 - startindex) startindex true s.frame_map;
      frames_used = add32 s.frames_used (endindex + 1 - startindex);
    })
