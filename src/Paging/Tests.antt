-- ===== src/Paging/Tests.antt =====
-- The theorems on pages, applied to an empty page directory and four free frames.
use blueberry_os.Base.{
  ℕ, ◌+◌, ◌*◌, ◌/◌, ◌^◌, ◌==◌, ◌≡◌, ◌<◌, ◌↔◌, refl, arith, true, false, if◌then◌else◌, some, u32,
  [], inl, ltb, ◌≤◌,
}
use blueberry_os.Memory.{FrameMap, kalloc_frame, kfree_frame, index_of}
use blueberry_os.Memory.Mapped.{MapsNone}
use blueberry_os.Paging.{
  get_pagetable, get_page_location, get_page, page_flags, pti, pi, map_page_pd, map_pagetable_pd,
  copy_system_pagedirectory,
}
use blueberry_os.Paging.Directory.{IsDirectory, IsUnused}
use blueberry_os.Paging.Space.{Maps, GivesUnused, map_page_pd-Maps}
use blueberry_os.Paging.Whole.{map_pagetable_pd-get_page}
use blueberry_os.Paging.Copy.{copy_system_pagedirectory-get_page}
use blueberry_os.Paging.Resolve.{
  accessible, Usable, resolve_process_address, resolve_process_address-Usable,
  resolve_process_address_first_page,
}
use blueberry_os.Paging.Release.{
  Released, of_page, free_tables, free_pages, free_process_pagedirectory,
  free_process_pagedirectory-Released,
}

-- The page directory stands at 3222274048, and none of its entries is present.
abbrev machine : FrameMap
machine = record {
  frame_map = λ i. i == 0;
  frame_map_size = 8;
  cached_frame_map = λ i. 3224371200;
  frame_cache_size = 4;
  frame_cache_count = 4;
  cached_index = 0;
  framestart = 3224371200;
  frames_used = 1;
  words = λ a. 0;
  page_directory = 3222274048;
  processes = [];
}

abbrev rest : FrameMap
rest = record machine { cached_index = 1; frames_used = 2 }

abbrev pd : ℕ
pd = 3222274048

-- A process whose page directory, page table and page are the first three frames of the map.
abbrev process : FrameMap
process = record machine {
  frame_map = λ i. ltb i 4;
  words = λ a. if a == 3224371200 then 3149831 else if a == 3224375296 then 3153927 else 0;
}

empty : IsDirectory machine.words pd
empty = record {
  frame = record { aligned = refl; below = omega arith };
  apart = λ i h live. absurd (ground (arith, live));
  distinct = λ i j h h' d live live'. absurd (ground (arith, live));
}

given : kalloc_frame machine ≡ some (3224371200, rest)
unfolding kalloc_frame blueberry_os.Memory.kalloc_within blueberry_os.Memory.take_cached
given = refl

unused : IsUnused machine.words pd 3224371200
unused = record {
  frame = record { aligned = refl; below = omega arith };
  other = omega arith;
  no_table = λ i h live. absurd (ground (arith, live));
}

cached : MapsNone machine
cached = inl (omega arith)

gives : GivesUnused machine pd 8192
gives gone = (3224371200, rest, given, cached, unused)

map_page_pd_example :
    (s' : FrameMap) × (map_page_pd kalloc_frame pd 12288 8192 true false machine ≡ some s')
    × Maps machine pd 8192 (12288 / 4096 * 4096 + page_flags true false) s'
map_page_pd_example = map_page_pd-Maps machine pd 8192 empty (omega arith) gives 12288 true false

map_pagetable_pd_example :
    (s' : FrameMap) × (map_pagetable_pd pd 3 (pti 8192) true true machine ≡ some s')
    × ((u : ℕ)
        → u < 2 ^ 32
        → get_page s'.words pd u ≡ (
            if pti u == pti 8192
            then u32 (3 * 4194304 + pi u * 4096) + page_flags true true
            else get_page machine.words pd u))
map_pagetable_pd_example =
    map_pagetable_pd-get_page machine pd 8192 empty (omega arith) gives 3 true true

copy_system_pagedirectory_example :
    (s' : FrameMap) × (copy_system_pagedirectory machine ≡ some (3224371200, s'))
    × ((u : ℕ)
        → u < 2 ^ 32
        → get_page s'.words 3224371200 u ≡ get_page machine.words machine.page_directory u)
copy_system_pagedirectory_example =
    copy_system_pagedirectory-get_page machine 3224371200 rest empty given cached unused

resolve_process_address_example :
    (resolve_process_address process.words 3224371200 0 4096 true ≡ true) ↔ (
      (a : ℕ)
      → 0 / 4096 * 4096 ≤ a
      → a < 0 / 4096 * 4096 + 4096
      → Usable true (get_page process.words 3224371200 a))
resolve_process_address_example =
    resolve_process_address-Usable process.words 3224371200 0 true (omega arith) 4096 (omega arith)

resolve_process_address_first_page_example :
    resolve_process_address machine.words pd 12280 100 false
    ≡ accessible false (get_page machine.words pd 12280)
resolve_process_address_first_page_example =
    resolve_process_address_first_page machine.words pd 12280 false (omega arith) 100 (omega arith)
      (omega arith)

free_process_pagedirectory_example :
    Released process.words 3224371200 true process
      (free_process_pagedirectory 3224371200 true process)
free_process_pagedirectory_example = free_process_pagedirectory-Released 3224371200 true process

-- The page of the process is free afterwards.
freed_page : (free_process_pagedirectory 3224371200 true process).frame_map 2 ≡ false
unfolding get_pagetable get_page_location index_of
freed_page =
    free_process_pagedirectory_example.freed 2
      (of_page 0 0 (omega arith) (omega arith) refl refl (inl refl) refl) (omega arith)

-- A frame that is not of the process stays in use.
kept_frame : (free_process_pagedirectory 3224371200 true process).frame_map 3 ≡ true
unfolding free_process_pagedirectory free_tables free_pages kfree_frame get_pagetable
    get_page_location index_of
kept_frame = refl
