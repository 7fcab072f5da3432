-- ===== src/Libc/Heap.antt =====
-- libc/stdlib: malloc.c and calloc.c, as the kernel is built with them; free.c and realloc.c are in
-- the module Free.
-- A tag stands 32 bytes in front of what kmalloc returns. The tags are a function of their address,
-- beside the memory for the bytes that they hold; address 0 is NULL, and `none` is the index -1 of a
-- tag in use. `bins none` is the word in front of the array `freePages`, which free reads for such a
-- tag. `none` as a result means that the kernel aborts, or that a list has no end. Sizes are below
-- 2 ^ 31, as the code's `int`s assume. The first kmalloc, which clears the two arrays, has been.
pub mod Free
pub mod Alloc
pub mod Sizes
pub mod Release
mod Tests
use blueberry_os.Base.{
  ℕ, zero, suc, ◌+◌, ◌-◌, ◌*◌, ◌/◌, ◌%◌, ◌==◌, Bool, true, false, not, ◌&&◌, ◌||◌, leb, ltb,
  if◌then◌else◌, Option, none, some, u32, add32, sub32,
}
use blueberry_os.Base.Int.{ℤ, pos, negsuc}
use blueberry_os.Libc.Mem.{Mem, memcpy, memset}
use blueberry_os.Memory.{FrameMap, kalloc_frames, kfree_frames}

pub record Tag : Type 0 where
  pub magic : ℕ
  pub size : ℕ
  pub realsize : ℕ
  pub index : Option ℕ
  pub prev : ℕ
  pub next : ℕ
  pub splitprev : ℕ
  pub splitnext : ℕ

-- `freePages`, `completePages`, the tags, the memory and the page frames.
pub record Heap : Type 0 where
  pub bins : Option ℕ → ℕ
  pub complete : ℕ → ℤ
  pub tags : ℕ → Tag
  pub mem : Mem
  pub frames : FrameMap

abbrev pub tag_size : ℕ
tag_size = 32

abbrev pub memory_tag_magic : ℕ
memory_tag_magic = 4272622781

abbrev pub memory_max_complete : ℕ
memory_max_complete = 5

abbrev pub memory_tot_exp : ℕ
memory_tot_exp = 24

abbrev pub memory_min_frames : ℕ
memory_min_frames = 4

abbrev pub page_size : ℕ
page_size = 4096

-- The rounds of `while (num >>= 1) exp++;`.
unfoldable pub count_shifts : ℕ → ℕ → ℕ
count_shifts zero num = 0
count_shifts (suc n) num =
    let rest = count_shifts n (num / 2) in if num / 2 == 0 then 0 else suc rest

unfoldable pub get_index : ℕ → ℕ
get_index num = if leb num 256 then 0 else count_shifts 32 num - 8

abbrev pub same_bin : Option ℕ → Option ℕ → Bool
same_bin none none = true
same_bin none (some j) = false
same_bin (some i) none = false
same_bin (some i) (some j) = i == j

abbrev pub set_bin : Heap → Option ℕ → ℕ → Heap
set_bin h i tag = record h { bins = λ j. if same_bin j i then tag else h.bins j }

abbrev pub set_tag : Heap → ℕ → Tag → Heap
set_tag h a tag = record h { tags = λ b. if b == a then tag else h.tags b }

-- `if (next != NULL) next->prev = p;` and the like.
unfoldable pub set_prev : Heap → ℕ → ℕ → Heap
set_prev h a p = if a == 0 then h else set_tag h a (record (h.tags a) { prev = p })

unfoldable pub set_next : Heap → ℕ → ℕ → Heap
set_next h a p = if a == 0 then h else set_tag h a (record (h.tags a) { next = p })

unfoldable pub set_splitprev : Heap → ℕ → ℕ → Heap
set_splitprev h a p = if a == 0 then h else set_tag h a (record (h.tags a) { splitprev = p })

-- The three statements that take a tag out of the list of its index.
unfoldable pub unlink : Heap → ℕ → Heap
unlink h tag =
    let t = h.tags tag in
    let h1 = if h.bins t.index == tag then set_bin h t.index t.next else h in
    let h2 = set_next h1 (h1.tags tag).prev (h1.tags tag).next in
    set_prev h2 (h2.tags tag).next (h2.tags tag).prev

-- The `while` along a list: the first tag that is large enough, or 0.
unfoldable pub first_fit : ℕ → (ℕ → Tag) → ℕ → ℕ → Option ℕ
first_fit zero tags size tag = none
first_fit (suc n) tags size tag =
    let rest = first_fit n tags size (tags tag).next in
    if tag == 0
    then some 0
    else if ltb (tags tag).realsize (add32 size tag_size)
    then rest
    else some tag

-- The `for` over the lists, where `n` are left; `fuel` is for each list. A tag whose magic number is
-- overwritten is passed over with the rest of its list.
unfoldable pub find_tag : ℕ → ℕ → Heap → ℕ → ℕ → Option ℕ
find_tag fuel zero h size i = some 0
find_tag fuel (suc n) h size i =
    let rest = find_tag fuel n h size (i + 1) in
    elim (first_fit fuel h.tags size (h.bins (some i))) [
      | none ↦ none
      | some tag ↦
          if tag == 0
          then rest
          else if (h.tags tag).magic == memory_tag_magic
          then some tag
          else rest
    ]

unfoldable pub pages_for : ℕ → ℕ
pages_for realsize =
    let pages =
      if realsize % page_size == 0 then realsize / page_size else realsize / page_size + 1 in
    if ltb pages memory_min_frames then memory_min_frames else pages

abbrev pub dec : ℤ → ℤ
dec (pos zero) = negsuc 0
dec (pos (suc n)) = pos n
dec (negsuc n) = negsuc (suc n)

abbrev pub add_complete : Heap → ℕ → ℤ → Heap
add_complete h i v = record h { complete = λ j. if j == i then v else h.complete j }

-- A tag that has been found is taken out of its list; the count is the one of the index asked for.
unfoldable pub take_tag : Heap → ℕ → ℕ → Heap
take_tag h index tag =
    let h1 = unlink h tag in
    let t = h1.tags tag in
    if t.splitprev == 0 && t.splitnext == 0
    then add_complete h1 index (dec (h1.complete index))
    else h1

unfoldable pub new_tag : Heap → ℕ → Option (ℕ × Heap)
new_tag h size =
    let pages = pages_for (add32 size tag_size) in
    elim (kalloc_frames pages h.frames) [
      | none ↦ none
      | some (tag, frames) ↦ some (
        tag,
        set_tag (record h { frames = frames }) tag
            (record (h.tags tag) {
              magic = memory_tag_magic;
              realsize = u32 (pages * page_size);
              splitprev = 0;
              splitnext = 0;
            }),
      )
    ]

-- `tag->prev = NULL; tag->next = NULL; tag->size = size; tag->index = -1;`
unfoldable pub mark_used : Heap → ℕ → ℕ → Heap
mark_used h tag size =
    set_tag h tag (record (h.tags tag) { prev = 0; next = 0; size = size; index = none })

-- `split->next = freePages[i]; freePages[i]->prev = split;` where the list is not empty, and
-- `freePages[i] = split;`
unfoldable pub push_front : Heap → ℕ → ℕ → Heap
push_front h tag i =
    let first = h.bins (some i) in
    let h1 =
      if first == 0
      then h
      else set_prev (set_tag h tag (record (h.tags tag) { next = first })) first tag in
    set_bin h1 (some i) tag

-- The rest of the space becomes a free tag of its own.
unfoldable pub split_tag : Heap → ℕ → ℕ → ℕ → Heap
split_tag h tag size remainder =
    let t = h.tags tag in
    let split = u32 (tag + tag_size + size) in
    let i = get_index (remainder - tag_size) in
    let h1 = set_tag h split (record (h.tags split) {
      magic = memory_tag_magic;
      index = some i;
      realsize = remainder;
      next = 0;
      prev = 0;
      splitprev = tag;
      splitnext = t.splitnext;
    }) in
    let h2 = set_tag h1 tag (record (h1.tags tag) { realsize = t.realsize - remainder }) in
    let h3 = set_splitprev h2 t.splitnext split in
    let h4 = set_tag h3 tag (record (h3.tags tag) { splitnext = split }) in push_front h4 split i

-- A remainder below 0 is 0 here, and not split either.
unfoldable pub finish : Heap → ℕ → ℕ → Heap
finish h tag size =
    let h1 = mark_used h tag size in
    let remainder = (h1.tags tag).realsize - (size + tag_size) in
    if ltb 256 (remainder - tag_size) then split_tag h1 tag size remainder else h1

-- The tag with its place for the bytes, before it is marked and split.
unfoldable pub obtain : ℕ → Heap → ℕ → Option (ℕ × Heap)
obtain fuel h size =
    elim (find_tag fuel (memory_tot_exp - get_index size) h size (get_index size)) [
      | none ↦ none
      | some tag ↦ if tag == 0 then new_tag h size else some (tag, take_tag h (get_index size) tag)
    ]

unfoldable pub kmalloc : ℕ → ℕ → Heap → Option (ℕ × Heap)
kmalloc fuel size h = if size == 0 then some (0, h) else elim (obtain fuel h size) [
  | none ↦ none
  | some (tag, h1) ↦ some (u32 (tag + tag_size), finish h1 tag size)
]

unfoldable pub kcalloc : ℕ → ℕ → ℕ → Heap → Option (ℕ × Heap)
kcalloc fuel items size h = elim (kmalloc fuel (u32 (items * size)) h) [
  | none ↦ none
  | some (ptr, h1) ↦ some (ptr, record h1 { mem = (memset h1.mem ptr 0 (u32 (items * size))).1 })
]
