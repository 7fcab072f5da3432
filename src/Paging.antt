-- ===== src/Paging.antt =====
-- kernel/src/paging.c, and the pages of a process in kernel/src/usermode.c. Memory is a word by the address of its first byte; a page directory and a page
-- table are addresses in it, and their 1024 entries are words. `none` means that the kernel aborts.
-- flushPaging and loadPageDirectory, which are assembly, change no word. `e & 0xFFFFF000` is written
-- `e / 4096 * 4096`, `e & 1` as `e % 2`, and `|` of a multiple of 4096 and of flags below 4096 as `+`.
pub mod Directory
pub mod Map
pub mod View
pub mod Space
pub mod Copy
pub mod Whole
pub mod Resolve
pub mod Release
mod Tests
use blueberry_os.Base.{
  ℕ, zero, suc, ◌+◌, ◌-◌, ◌*◌, ◌/◌, ◌%◌, ◌==◌, Bool, true, false, not, ◌&&◌, ◌||◌, leb, ltb,
  if◌then◌else◌, Option, none, some, List, [], ◌∷◌, u32, add32, sub32,
}
use blueberry_os.Memory.{FrameMap, kalloc_frame, kfree_frame}
pub use blueberry_os.PageTable.{
  Words, kernel_base, p_to_v, v_to_p, entry, set_entry, present, page_flags, pti, pi, page_address,
}
unfoldable pub use blueberry_os.PageTable.{
  get_pagetable, get_page, clear_frame, table_or_cleared, enter_page, map_page_pd,
}

abbrev pub read_write : ℕ → Bool
read_write e = e / 2 % 2 == 1

abbrev pub user : ℕ → Bool
user e = e / 4 % 2 == 1

unfoldable pub get_page_location : ℕ → ℕ
get_page_location e = p_to_v (e / 4096 * 4096)

-- `for (i = ...; i < 1024; i++) table[i] = value(i);` with `n` rounds left.
unfoldable pub fill_entries : ℕ → ℕ → ℕ → (ℕ → ℕ) → Words → Words
fill_entries zero i table value w = w
fill_entries (suc n) i table value w =
    fill_entries n (i + 1) table value (set_entry w table i (value i))

unfoldable pub new_pagedirectory : Bool → Bool → FrameMap → Option (ℕ × FrameMap)
new_pagedirectory writable kernel s = elim (kalloc_frame s) [
  | none ↦ none
  | some (pd, s') ↦ some (
    pd,
    record s' {
      words =
          fill_entries 1024 0 pd (λ i. (if kernel then 0 else 4) + (if writable then 2 else 0))
            s'.words;
    },
  )
]

-- The rounds of copy_system_pagedirectory, where `n` are left.
unfoldable pub copy_entries : ℕ → ℕ → ℕ → ℕ → Words → Words
copy_entries zero i pd source w = w
copy_entries (suc n) i pd source w =
    copy_entries n (i + 1) pd source (set_entry w pd i (entry w source i))

unfoldable pub copy_system_pagedirectory : FrameMap → Option (ℕ × FrameMap)
copy_system_pagedirectory s = elim (kalloc_frame s) [
  | none ↦ none
  | some (pd, s') ↦
      some (pd, record s' { words = copy_entries 1024 0 pd s'.page_directory s'.words })
]

-- The page table that the directory has at the index, or else a new frame, as it is.
unfoldable pub table_or_frame : ℕ → ℕ → FrameMap → Option (ℕ × FrameMap)
table_or_frame pd index s =
    if present (entry s.words pd index)
    then some (get_pagetable (entry s.words pd index), s)
    else kalloc_frame s

unfoldable pub map_pagetable_pd : ℕ → ℕ → ℕ → Bool → Bool → FrameMap → Option FrameMap
map_pagetable_pd pd physical_index virtual_index writable kernel s =
    let flags = page_flags writable kernel in
    elim (table_or_frame pd virtual_index s) [
      | none ↦ none
      | some (table, s') ↦ some (record s' {
        words =
            set_entry
              (fill_entries 1024 0 table (λ i. u32 (physical_index * 4194304 + i * 4096) + flags)
                s'.words)
              pd virtual_index (v_to_p table + flags);
      })
    ]

unfoldable pub set_pagetable_flags_pd : ℕ → ℕ → Bool → Bool → FrameMap → Option FrameMap
set_pagetable_flags_pd pd virtual_index writable kernel s =
    elim (table_or_frame pd virtual_index s) [
      | none ↦ none
      | some (table, s') ↦ some (record s' {
        words = set_entry s'.words pd virtual_index (v_to_p table + page_flags writable kernel);
      })
    ]

unfoldable pub map_page_wflags_pd : ℕ → ℕ → ℕ → ℕ → FrameMap → Option FrameMap
map_page_wflags_pd pd p v flags s = elim (table_or_cleared kalloc_frame pd (pti v) s) [
  | none ↦ none
  | some (table, s') ↦ some (record s' {
    words =
        enter_page pd table p v flags
          (if present (entry s.words pd (pti v)) then none else some flags) s'.words;
  })
]

unfoldable pub map_page_wtable_pd :
    ℕ → ℕ → ℕ → Bool → Bool → Bool → Bool → FrameMap → Option FrameMap
map_page_wtable_pd pd p v pwritable pkernel twritable tkernel s =
    elim (table_or_cleared kalloc_frame pd (pti v) s) [
      | none ↦ none
      | some (table, s') ↦ some (record s' {
        words =
            enter_page pd table p v (page_flags pwritable pkernel)
              (some (page_flags twritable tkernel)) s'.words;
      })
    ]

-- map_pagetable and map_page are these on `page_directory`.
unfoldable pub unmap_page : ℕ → FrameMap → FrameMap
unmap_page v s = record s {
  words = set_entry s.words (get_pagetable (entry s.words s.page_directory (pti v))) (pi v) 0;
}

unfoldable pub unmap_pagetable : ℕ → FrameMap → FrameMap
unmap_pagetable index s =
    let e = entry s.words s.page_directory index in
    let freed = if present e then kfree_frame (get_pagetable e) s else s in
    record freed { words = set_entry freed.words freed.page_directory index 0 }
