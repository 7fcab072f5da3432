-- ===== src/Libc/Heap/Free.antt =====
-- libc/stdlib: free.c and realloc.c, as the kernel is built with them.
use blueberry_os.Base.{
  ℕ, zero, suc, ◌==◌, Bool, true, false, not, ◌&&◌, ◌||◌, leb, ltb, if◌then◌else◌, Option, none,
  some, add32, sub32,
}
use blueberry_os.Base.Int.{ℤ, pos, negsuc}
use blueberry_os.Libc.Mem.{memcpy}
use blueberry_os.Memory.{kfree_frames}
use blueberry_os.Libc.Heap.{
  Heap, tag_size, memory_tag_magic, memory_max_complete, get_index, same_bin, set_tag,
  set_splitprev, unlink, pages_for, add_complete, push_front, kmalloc,
}

abbrev pub inc : ℤ → ℤ
inc (pos n) = pos (suc n)
inc (negsuc zero) = pos 0
inc (negsuc (suc n)) = negsuc n

abbrev pub is_free : Option ℕ → Bool
is_free none = false
is_free (some i) = true

-- `prev`, `next` and `index` of a tag that is no longer one.
abbrev pub cut : Heap → ℕ → Heap
cut h tag = set_tag h tag (record (h.tags tag) { prev = 0; next = 0; index = none })

-- What merging comes to: the tag, or an overwritten magic number, with which free ends.
pub data Merged : Type 0 where
  merged : ℕ → Heap → Merged
  corrupt : Heap → Merged
  endless : Merged

-- `left` absorbs `tag`, whose links are `t`: `left->realsize += ...; left->splitnext = ...;`
unfoldable pub absorb : Heap → ℕ → ℕ → Heap
absorb h left tag =
    let t = h.tags tag in
    set_tag h left (record (h.tags left) {
      realsize = add32 (h.tags left).realsize t.realsize;
      splitnext = t.splitnext;
    })

-- A tag behind the two whose magic number is overwritten.
abbrev pub bad_splitnext : Heap → ℕ → Bool
bad_splitnext h tag =
    let n = (h.tags tag).splitnext in not (n == 0) && not ((h.tags n).magic == memory_tag_magic)

unfoldable pub merge_left : ℕ → Heap → ℕ → Merged
merge_left zero h tag = endless
merge_left (suc n) h tag =
    let left = (h.tags tag).splitprev in
    let h1 = absorb h left tag in
    let h2 = cut (unlink (set_splitprev h1 (h1.tags left).splitnext left) tag) tag in
    let rest = merge_left n h2 left in
    if left == 0 || not (is_free (h.tags left).index)
    then merged tag h
    else if not ((h.tags left).magic == memory_tag_magic)
    then corrupt h
    else if bad_splitnext h1 left
    then corrupt h1
    else rest

unfoldable pub merge_right : ℕ → Heap → ℕ → Merged
merge_right zero h tag = endless
merge_right (suc n) h tag =
    let right = (h.tags tag).splitnext in
    let h1 = absorb h tag right in
    let h2 = cut (unlink (set_splitprev h1 (h1.tags tag).splitnext tag) right) right in
    let rest = merge_right n h2 tag in
    if right == 0 || not (is_free (h.tags right).index)
    then merged tag h
    else if not ((h.tags right).magic == memory_tag_magic)
    then corrupt h
    else if bad_splitnext h1 tag
    then corrupt h1
    else rest

abbrev pub at_most : ℕ → ℤ → Bool
at_most n (pos m) = leb n m
at_most n (negsuc m) = false

-- The links that the tag was given in its list are cleared at the end.
unfoldable pub relist : Heap → ℕ → ℕ → Heap
relist h tag i =
    let h1 =
      if same_bin (h.tags tag).index (some i)
      then h
      else (let h2 = push_front (unlink h tag) tag i in
          set_tag h2 tag (record (h2.tags tag) { index = some i })) in
    set_tag h1 tag (record (h1.tags tag) { prev = 0; next = 0 })

-- free behind the merging.
unfoldable pub give_back : Heap → ℕ → Heap
give_back h tag =
    let t = h.tags tag in
    let i = get_index (sub32 t.realsize tag_size) in
    let whole = t.splitprev == 0 && t.splitnext == 0 in
    let h1 = cut (unlink h tag) tag in
    if whole && at_most memory_max_complete (h.complete i)
    then record h1 { frames = kfree_frames tag (pages_for t.realsize) h1.frames }
    else if whole
    then relist (add_complete h i (inc (h.complete i))) tag i
    else relist h tag i

unfoldable pub kfree : ℕ → ℕ → Heap → Option Heap
kfree fuel ptr h =
    let tag = sub32 ptr tag_size in
    if ptr == 0
    then some h
    else if not ((h.tags tag).magic == memory_tag_magic)
    then some h
    else elim (merge_left fuel h tag) [
      | endless ↦ none
      | corrupt h1 ↦ some h1
      | merged left h1 ↦ elim (merge_right fuel h1 left) [
        | endless ↦ none
        | corrupt h2 ↦ some h2
        | merged left' h2 ↦ some (give_back h2 left')
      ]
    ]

-- What krealloc does when the bytes do not fit. The size of the tag is the one of the heap behind
-- kmalloc.
unfoldable pub move_to : ℕ → ℕ → ℕ → ℕ → Heap → Option (ℕ × Heap)
move_to fuel ptr size new h =
    let tag = sub32 ptr tag_size in
    let h1 =
      if ltb size (h.tags tag).size
      then set_tag h tag (record (h.tags tag) { size = size })
      else h in
    elim (kfree fuel ptr (record h1 { mem = (memcpy h1.mem new ptr (h1.tags tag).size).1 })) [
      | none ↦ none
      | some h2 ↦ some (new, h2)
    ]

unfoldable pub krealloc : ℕ → ℕ → ℕ → Heap → Option (ℕ × Heap)
krealloc fuel ptr size h =
    let tag = sub32 ptr tag_size in
    if ptr == 0
    then kmalloc fuel size h
    else if not ((h.tags tag).magic == memory_tag_magic)
    then some (ptr, h)
    else if leb size (sub32 (h.tags tag).realsize tag_size)
    then some (ptr, set_tag h tag (record (h.tags tag) { size = size }))
    else elim (kmalloc fuel size h) [ none ↦ none | some (new, h1) ↦ move_to fuel ptr size new h1 ]
