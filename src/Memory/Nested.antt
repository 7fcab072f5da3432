-- ===== src/Memory/Nested.antt =====
-- The calls of kalloc_frame inside of kalloc_frame come to an end: each has a frame marked before it.
use blueberry_os.Base.{ℕ, zero, suc, ◌+◌, if◌then◌else◌}
use blueberry_os.Memory.{Bits, FrameMap}
use blueberry_os.Memory.Grows.{Grows}

-- How many of the first `n` frames are free.
unused : ℕ → Bits → ℕ
unused zero bits = 0
unused (suc n) bits = (if bits n then 0 else 1) + unused n bits

abbrev free_frames : FrameMap → ℕ
free_frames s = unused s.frame_map_size s.frame_map
