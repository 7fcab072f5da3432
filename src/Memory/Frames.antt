-- ===== src/Memory/Frames.antt =====
-- kalloc_frames and kfree_frames.
use blueberry_os.Base.{
  ℕ, zero, suc, ◌+◌, ◌*◌, ◌^◌, ◌==◌, ◌≡◌, ◌≤◌, ◌<◌, refl, sym, arith, Bool, true, false, ◌&&◌, leb,
  ltb, if◌then◌else◌, Bool-cases, inl, inr, some, add32,
}
use blueberry_os.Memory.{
  Bits, FrameMap, frame_size, set_bits, set_bit, frame_at, take_run, kalloc_frames, index_of,
  kfree_frames,
}
use blueberry_os.Memory.Mapped.{IsMapped, mark_run_mapped}
use blueberry_os.Memory.Search.{FreeRun, find_run-start}

set_bits_lem :
    (n i : ℕ) (v : Bool) (bits : Bits) (j : ℕ)
    → set_bits n i v bits j ≡ (if leb i j && ltb j (i + n) then v else bits j)
unfolding set_bits
set_bits_lem zero i v bits j = ground arith
set_bits_lem (suc n) i v bits j = ground (arith, set_bits_lem n (i + 1) v (set_bit bits i v) j)

-- The frames of the map have addresses that fit into a word.
abbrev pub Fits : FrameMap → Type 0
Fits s = s.framestart + s.frame_map_size * frame_size < 2 ^ 32

-- What is returned, and the map that is left, where no frame of the run has to be mapped.
abbrev marked : FrameMap → ℕ → ℕ → ℕ × FrameMap
marked s count start = (
  frame_at s start,
  record s {
    frame_map = set_bits count start true s.frame_map;
    frames_used = add32 s.frames_used count;
  },
)

take_run-marked :
    (count : ℕ) (s : FrameMap) (start : ℕ)
    → IsMapped s
    → start + count ≤ s.frame_map_size
    → take_run s count start ≡ some (marked s count start)
unfolding take_run frame_at
take_run-marked count s start good inside =
    rw (mark_run_mapped count start s good inside, take_run) refl

kalloc_frames-marked :
    (count : ℕ) (s : FrameMap) (st : ℕ)
    → 2 ≤ count
    → IsMapped s
    → FreeRun s.frame_map s.frame_map_size count st
    → (start : ℕ) × (kalloc_frames count s ≡ some (marked s count start))
      × FreeRun s.frame_map s.frame_map_size count start
unfolding kalloc_frames
kalloc_frames-marked count s st many mapped run =
    let (start, e, good) = find_run-start s.frame_map s.frame_map_size count st many run in
    let not_zero : (count == 0) ≡ false = ground arith in
    let not_one : (count == 1) ≡ false = ground arith in
    let last = good.within in
    (
      start,
      rw (not_zero, not_one, e, kalloc_frames) (take_run-marked count s start mapped (omega arith)),
      good,
    )

-- kalloc_frames of two frames or more, where the map has a free run of so many that does not reach
-- its end and each frame of the map has a page that is present in `page_directory`: it returns the first frame of such a run, whose frames alone are marked afterwards.
pub kalloc_frames-FreeRun :
    (count : ℕ) (s : FrameMap) (st : ℕ)
    → 2 ≤ count
    → IsMapped s
    → FreeRun s.frame_map s.frame_map_size count st
    → (start : ℕ) × (s' : FrameMap) × (kalloc_frames count s ≡ some (frame_at s start, s'))
      × FreeRun s.frame_map s.frame_map_size count start
      × ((i : ℕ)
          → s'.frame_map i ≡ (if leb start i && ltb i (start + count) then true else s.frame_map i))
kalloc_frames-FreeRun count s st many mapped run =
    let (start, e, good) = kalloc_frames-marked count s st many mapped run in
    (start, (marked s count start).1, e, good, λ i. set_bits_lem count start true s.frame_map i)

index_of-frame_at :
    (s s' : FrameMap) (i : ℕ)
    → Fits s
    → s'.framestart ≡ s.framestart
    → i < s.frame_map_size
    → index_of s' (frame_at s i) ≡ i
unfolding index_of frame_at
index_of-frame_at s s' i fits same inside = rw same (omega arith)

freed :
    (bits : Bits) (size count start : ℕ)
    → FreeRun bits size count start
    → (i : ℕ) → set_bits count start false (set_bits count start true bits) i ≡ bits i
freed bits size count start run i = elim (Bool-cases (leb start i && ltb i (start + count))) [
  | inl inside ↦
      rw (set_bits_lem count start false (set_bits count start true bits) i, inside)
        (sym (run.free i (ground arith) (ground arith)))
  | inr outside ↦
      rw
        (
          set_bits_lem count start false (set_bits count start true bits) i,
          outside,
          set_bits_lem count start true bits i,
          outside,
        )
        refl
]

-- kfree_frames of what kalloc_frames returned, for two frames or more, where the addresses of the
-- frames and the count of used frames fit into a word, a run that does not reach the end of the map is
-- free, and each frame of the map has a page that is present in `page_directory`: the map and the count of used frames are as before.
pub kfree_frames-kalloc_frames :
    (count : ℕ) (s : FrameMap) (st : ℕ)
    → 2 ≤ count
    → IsMapped s
    → Fits s
    → s.frames_used + count < 2 ^ 32
    → FreeRun s.frame_map s.frame_map_size count st
    → (frame : ℕ) × (s' : FrameMap) × (kalloc_frames count s ≡ some (frame, s'))
      × ((i : ℕ) → (kfree_frames frame count s').frame_map i ≡ s.frame_map i)
      × ((kfree_frames frame count s').frames_used ≡ s.frames_used)
unfolding kfree_frames
kfree_frames-kalloc_frames count s st many mapped fits used run =
    let (start, e, good) = kalloc_frames-marked count s st many mapped run in
    let within = good.within in
    let s' = (marked s count start).1 in
    let index : index_of s' (frame_at s start) ≡ start =
      index_of-frame_at s s' start fits refl (omega arith) in
    let not_zero : (count == 0) ≡ false = ground arith in
    let inside : leb s.frame_map_size (add32 start count) ≡ false = ground arith in
    (
      frame_at s start,
      s',
      e,
      λ i. rw (not_zero, index, inside) (freed s.frame_map s.frame_map_size count start good i),
      rw (not_zero, index, inside) (omega arith),
    )
