-- ===== src/Memory/Tests.antt =====
-- The theorems on page frames, applied to a map of eight frames of which the first is used.
use blueberry_os.Base.{
  ℕ, ◌+◌, ◌==◌, ◌≡◌, refl, arith, true, ◌&&◌, leb, ltb, if◌then◌else◌, Option, none, some, [],
}
use blueberry_os.Memory.{
  FrameMap, frame_at, kalloc_frames, kfree_frames, find_run, take_run, mark_run,
}
use blueberry_os.PageTable.{
  get_page, map_absent, map_pageframe, map_everywhere, map_in_all, map_page_pd, table_or_cleared,
  enter_page, get_pagetable,
}
use blueberry_os.Memory.Marks.{HandedOut, kalloc_frames-HandedOut}
use blueberry_os.Memory.Mapped.{IsMapped}
use blueberry_os.Memory.Search.{FreeRun}
use blueberry_os.Memory.Frames.{kalloc_frames-FreeRun, kfree_frames-kalloc_frames}

abbrev frames : FrameMap
frames = record {
  frame_map = λ i. i == 0;
  frame_map_size = 8;
  cached_frame_map = λ i. 0;
  frame_cache_size = 0;
  frame_cache_count = 4;
  cached_index = 0;
  framestart = 1048576;
  frames_used = 1;
  words = λ a. 3;
  page_directory = 0;
  processes = [];
}

frames-IsMapped : IsMapped frames
unfolding get_page
frames-IsMapped i h = refl

three_free : FreeRun frames.frame_map 8 3 2
three_free = record { within = omega arith; free = λ i lo hi. ground arith }

kalloc_frames_example :
    (start : ℕ) × (s' : FrameMap) × (kalloc_frames 3 frames ≡ some (frame_at frames start, s'))
    × FreeRun frames.frame_map 8 3 start
    × ((i : ℕ)
        → s'.frame_map i ≡ (if leb start i && ltb i (start + 3) then true else frames.frame_map i))
kalloc_frames_example = kalloc_frames-FreeRun 3 frames 2 (omega arith) frames-IsMapped three_free

kfree_frames_example :
    (frame : ℕ) × (s' : FrameMap) × (kalloc_frames 3 frames ≡ some (frame, s'))
    × ((i : ℕ) → (kfree_frames frame 3 s').frame_map i ≡ frames.frame_map i)
    × ((kfree_frames frame 3 s').frames_used ≡ frames.frames_used)
kfree_frames_example =
    kfree_frames-kalloc_frames 3 frames 2 (omega arith) frames-IsMapped (omega arith) (omega arith)
      three_free

-- The same frames, none of which is mapped; the page directory has page tables.
abbrev unmapped : FrameMap
unmapped = record frames {
  words = λ a. if leb 4194304 a && ltb a 4198400 then 8388611 else 0;
  page_directory = 4194304;
}

abbrev state_of : Option (ℕ × FrameMap) → FrameMap
state_of none = unmapped
state_of (some p) = p.1

abbrev after : FrameMap
after = state_of (kalloc_frames 3 unmapped)

three_taken : kalloc_frames 3 unmapped ≡ some (1052672, after)
unfolding kalloc_frames find_run take_run mark_run map_absent map_pageframe map_everywhere
    map_in_all map_page_pd table_or_cleared enter_page get_page get_pagetable frame_at
three_taken = refl

kalloc_frames_mapping_example :
    (start : ℕ) × FreeRun frames.frame_map 8 3 start × HandedOut unmapped 3 start 1052672 after
kalloc_frames_mapping_example =
    kalloc_frames-HandedOut 3 unmapped 2 1052672 after (omega arith) three_free three_taken

-- The frames without any page table, so that the first refill of the cache asks for more.
abbrev bare : FrameMap
bare = record unmapped { words = λ a. 0 }
