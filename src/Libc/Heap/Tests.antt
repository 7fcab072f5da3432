-- ===== src/Libc/Heap/Tests.antt =====
-- The theorems on the heap, applied to an empty heap above sixteen frames, and to a heap of three
-- pieces in use.
use blueberry_os.Base.{
  ℕ, ◌+◌, ◌==◌, ◌≡◌, ◌<◌, refl, arith, none, some, if◌then◌else◌, u32, sub32, [],
}
use blueberry_os.Base.Int.{pos}
use blueberry_os.Memory.{FrameMap, frame_at}
use blueberry_os.PageTable.{get_page}
use blueberry_os.Memory.Mapped.{IsMapped}
use blueberry_os.Memory.Search.{FreeRun}
use blueberry_os.Memory.Frames.{kalloc_frames-FreeRun}
use blueberry_os.Libc.Heap.{
  Tag, Heap, memory_tag_magic, get_index, count_shifts, first_fit, find_tag, pages_for, kmalloc,
  kcalloc,
}
use blueberry_os.Libc.Heap.Free.{kfree}
use blueberry_os.Libc.Heap.Sizes.{Allocated, CanAllocate, kmalloc-Allocated, kcalloc-zero}
use blueberry_os.Libc.Heap.Release.{Alone, IsBetween, kfree-Alone}

abbrev frames : FrameMap
frames = record {
  frame_map = λ i. i == 0;
  frame_map_size = 16;
  cached_frame_map = λ i. 0;
  frame_cache_size = 0;
  frame_cache_count = 4;
  cached_index = 0;
  framestart = 1048576;
  frames_used = 1;
  words = λ a. 3;
  page_directory = 0;
  processes = [];
}

frames-IsMapped : IsMapped frames
unfolding get_page
frames-IsMapped i h = refl

four_free : FreeRun frames.frame_map 16 4 2
four_free = record { within = omega arith; free = λ i lo hi. ground arith }

abbrev no_tag : Tag
no_tag = record {
  magic = 0;
  size = 0;
  realsize = 0;
  index = none;
  prev = 0;
  next = 0;
  splitprev = 0;
  splitnext = 0;
}

abbrev empty : Heap
empty = record {
  bins = λ i. 0;
  complete = λ i. pos 0;
  tags = λ a. no_tag;
  mem = λ a. 7;
  frames = frames;
}

can : CanAllocate 1 100 empty
unfolding find_tag first_fit get_index count_shifts pages_for
can = record {
  found = 0;
  ends = refl;
  more = λ e.
      let (start, after, taken, run, marked) =
        kalloc_frames-FreeRun 4 frames 2 (omega arith) frames-IsMapped four_free in
      (frame_at frames start, after, taken);
}

kmalloc_example :
    (tag : ℕ) × (h' : Heap) × (kmalloc 1 100 empty ≡ some (u32 (tag + 32), h'))
    × Allocated empty 100 tag h'
kmalloc_example = kmalloc-Allocated 1 empty 100 (omega arith) (omega arith) can

kcalloc_example :
    (tag : ℕ) × (h' : Heap) × (kcalloc 1 25 4 empty ≡ some (u32 (tag + 32), h'))
    × ((k : ℕ) → k < 100 → h'.mem (u32 (tag + 32) + k) ≡ 0)
kcalloc_example = kcalloc-zero 1 empty 25 4 (omega arith) (omega arith) can

-- Pieces of 1024 bytes at 4096, 5120 and 6144.
abbrev pieces : Heap
pieces = record empty {
  tags = λ a. record no_tag {
    magic = memory_tag_magic;
    realsize = 1024;
    splitprev = if a == 4096 then 0 else 4096;
    splitnext = if a == 6144 then 0 else 6144;
  };
}

between : IsBetween pieces (sub32 5152 32)
between = record { magic = refl; in_use = refl; behind = refl; left = refl; right = refl }

kfree_example :
    (h' : Heap) × (kfree 1 5152 pieces ≡ some h')
    × Alone h' (sub32 5152 32) (get_index (sub32 1024 32))
kfree_example = kfree-Alone 0 5152 pieces refl between
