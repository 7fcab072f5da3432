-- ===== src/PageTable.antt =====
-- Page tables as the allocator of page frames needs them: getPage and map_page_pd of
-- kernel/src/paging.c, and mapPageframe of kernel/src/memory.c.
-- Memory is a word by the address of its first byte; a page directory and a page table are addresses
-- in it, and their 1024 entries are words. A new page table comes from kalloc_frame, which calls
-- mapPageframe in turn: here it is the argument `alloc`. `none` means that the kernel aborts.
-- flushPaging, which is assembly, changes no word. `e & 0xFFFFF000` is written `e / 4096 * 4096`,
-- `e & 1` as `e % 2`, and `|` of a multiple of 4096 and of flags below 4096 as `+`.
use blueberry_os.Base.{
  ℕ, ◌+◌, ◌*◌, ◌/◌, ◌%◌, ◌==◌, Bool, true, false, not, ◌&&◌, leb, ltb, if◌then◌else◌, Option, none,
  some, List, [], ◌∷◌, add32, sub32,
}

abbrev pub Words : Type 0
Words = ℕ → ℕ

abbrev pub Bits : Type 0
Bits = ℕ → Bool

-- The variables of memory.c, the memory in which the page tables stand, the address of
-- `page_directory`, and of each process its page directory, `none` where it is not initialized.
pub record FrameMap : Type 0 where
  pub frame_map : Bits
  pub frame_map_size : ℕ
  pub cached_frame_map : ℕ → ℕ
  pub frame_cache_size : ℕ
  pub frame_cache_count : ℕ
  pub cached_index : ℕ
  pub framestart : ℕ
  pub frames_used : ℕ
  pub words : Words
  pub page_directory : ℕ
  pub processes : List (Option ℕ)

-- kalloc_frame.
abbrev pub Alloc : Type 0
Alloc = FrameMap → Option (ℕ × FrameMap)

-- 0xC0000000, where the kernel's half begins.
abbrev pub kernel_base : ℕ
kernel_base = 3221225472

abbrev pub p_to_v : ℕ → ℕ
p_to_v n = add32 n kernel_base

abbrev pub v_to_p : ℕ → ℕ
v_to_p n = sub32 n kernel_base

-- `table[i]`, and `table[i] = value`.
abbrev pub entry : Words → ℕ → ℕ → ℕ
entry w table i = w (table + 4 * i)

abbrev pub set_entry : Words → ℕ → ℕ → ℕ → Words
set_entry w table i value a = if a == table + 4 * i then value else w a

-- `entry & 1`, `entry & PAGE_READWRITE` and `entry & PAGE_USER`.
abbrev pub present : ℕ → Bool
present e = e % 2 == 1

-- `(!kernel << 2) | (writable << 1) | 1`
abbrev pub page_flags : Bool → Bool → ℕ
page_flags writable kernel = (if kernel then 0 else 4) + (if writable then 2 else 0) + 1

-- The indices of an address in the page directory and in the page table.
abbrev pub pti : ℕ → ℕ
pti v = v / 4194304

abbrev pub pi : ℕ → ℕ
pi v = v / 4096 % 1024

-- `physicalPI * FRAME_4KB + physicalPTI * FRAME_4MB`
abbrev pub page_address : ℕ → ℕ
page_address p = pi p * 4096 + pti p * 4194304

unfoldable pub get_pagetable : ℕ → ℕ
get_pagetable e = p_to_v (e / 4096 * 4096)

unfoldable pub get_page : Words → ℕ → ℕ → ℕ
get_page w page_directory v =
    if not (present (entry w page_directory (pti v)))
    then 0
    else entry w (get_pagetable (entry w page_directory (pti v))) (pi v)

-- `memset(pagetable, 0, FRAME_4KB)`
unfoldable pub clear_frame : Words → ℕ → Words
clear_frame w frame a = if leb frame a && ltb a (frame + 4096) then 0 else w a

-- The page table that the directory has at the index, or else a new frame, cleared.
unfoldable pub table_or_cleared : Alloc → ℕ → ℕ → FrameMap → Option (ℕ × FrameMap)
table_or_cleared alloc pd index s =
    if present (entry s.words pd index)
    then some (get_pagetable (entry s.words pd index), s)
    else elim (alloc s) [
      | none ↦ none
      | some (frame, s') ↦ some (frame, record s' { words = clear_frame s'.words frame })
    ]

-- What the three functions that map one page write: the page's entry, and the table's where there
-- are flags for it.
unfoldable pub enter_page : ℕ → ℕ → ℕ → ℕ → ℕ → Option ℕ → Words → Words
enter_page pd table p v flags table_flags w =
    let entered = set_entry w table (pi v) (page_address p + flags) in
    elim table_flags [
      | none ↦ entered
      | some tflags ↦ set_entry entered pd (pti v) (v_to_p table + tflags)
    ]

unfoldable pub map_page_pd : Alloc → ℕ → ℕ → ℕ → Bool → Bool → FrameMap → Option FrameMap
map_page_pd alloc pd p v writable kernel s =
    let flags = page_flags writable kernel in
    elim (table_or_cleared alloc pd (pti v) s) [
      | none ↦ none
      | some (table, s') ↦ some (record s' {
        words =
            enter_page pd table p v flags
              (if present (entry s.words pd (pti v)) then none else some flags) s'.words;
      })
    ]

-- The loop of mapPageframe over the page directories of the processes, up to the first process that
-- is not initialized: whether it came to the end, and the machine.
unfoldable pub map_in_all : Alloc → List (Option ℕ) → ℕ → FrameMap → Option (Bool × FrameMap)
map_in_all alloc [] pf s = some (true, s)
map_in_all alloc (none ∷ processes) pf s = some (false, s)
map_in_all alloc (some pd ∷ processes) pf s =
    elim (map_page_pd alloc pd (v_to_p pf) pf true true s) [
      | none ↦ none
      | some s' ↦ map_in_all alloc processes pf s'
    ]

unfoldable pub map_everywhere : Alloc → ℕ → FrameMap → Option (Bool × FrameMap)
map_everywhere alloc pf s = elim (map_page_pd alloc s.page_directory (v_to_p pf) pf true true s) [
  | none ↦ none
  | some s' ↦ map_in_all alloc s'.processes pf s'
]

-- The frame behind it is mapped only where all the processes are initialized.
unfoldable pub map_pageframe : Alloc → ℕ → FrameMap → Option FrameMap
map_pageframe alloc pf s = elim (map_everywhere alloc pf s) [
  | none ↦ none
  | some (false, s') ↦ some s'
  | some (true, s') ↦ elim (map_everywhere alloc (add32 pf 4096) s') [
    | none ↦ none
    | some (b, s'') ↦ some s''
  ]
]

-- `if (!(getPage(pf) & 1)) mapPageframe(pf);`
unfoldable pub map_absent : Alloc → ℕ → FrameMap → Option FrameMap
map_absent alloc pf s =
    if present (get_page s.words s.page_directory pf) then some s else map_pageframe alloc pf s
