-- ===== src/Libc/Heap/Release.antt =====
-- kfree of memory between two pieces that are in use.
use blueberry_os.Base.{
  ℕ, suc, ◌==◌, ◌≡◌, refl, arith, Bool, true, false, not, ◌||◌, none, some, sub32,
}
use blueberry_os.Libc.Heap.{Heap, tag_size, memory_tag_magic, get_index, push_front, unlink}
use blueberry_os.Libc.Heap.Free.{is_free, merged, merge_left, merge_right, relist, give_back, kfree}

-- There is nothing at the address that could be merged.
abbrev pub stays_apart : Heap → ℕ → Bool
stays_apart h a = a == 0 || not (is_free (h.tags a).index)

-- A piece of memory in use, behind another one.
pub record IsBetween (h : Heap) (tag : ℕ) : Type 0 where
  pub magic : ((h.tags tag).magic == memory_tag_magic) ≡ true
  pub in_use : (h.tags tag).index ≡ none
  pub behind : ((h.tags tag).splitprev == 0) ≡ false
  pub left : stays_apart h (h.tags tag).splitprev ≡ true
  pub right : stays_apart h (h.tags tag).splitnext ≡ true

merge_left_none :
    (n : ℕ) (h : Heap) (tag : ℕ)
    → stays_apart h (h.tags tag).splitprev ≡ true
    → merge_left (suc n) h tag ≡ merged tag h
unfolding merge_left
merge_left_none n h tag e = rw e refl

merge_right_none :
    (n : ℕ) (h : Heap) (tag : ℕ)
    → stays_apart h (h.tags tag).splitnext ≡ true
    → merge_right (suc n) h tag ≡ merged tag h
unfolding merge_right
merge_right_none n h tag e = rw e refl

push_front-bins : (h : Heap) (tag i : ℕ) → (push_front h tag i).bins (some i) ≡ tag
unfolding push_front
push_front-bins h tag i = let here : (i == i) ≡ true = ground arith in rw here refl

-- The tag is the first one of its list, and the last one.
pub record Alone (h : Heap) (tag i : ℕ) : Type 0 where
  pub first : h.bins (some i) ≡ tag
  pub last : (h.tags tag).next ≡ 0
  pub listed : (h.tags tag).index ≡ some i

relist-Alone : (h : Heap) (tag i : ℕ) → (h.tags tag).index ≡ none → Alone (relist h tag i) tag i
unfolding relist
relist-Alone h tag i in_use =
    let here : (tag == tag) ≡ true = ground arith in
    rw in_use (record {
      first = push_front-bins (unlink h tag) tag i;
      last = rw here refl;
      listed = rw here refl;
    })

-- kfree of memory in use, behind a piece in use and in front of a piece in use or none: its tag is
-- afterwards the first tag of the list for its size and has no next one, whatever was in that list.
pub kfree-Alone :
    (n ptr : ℕ) (h : Heap)
    → (ptr == 0) ≡ false
    → IsBetween h (sub32 ptr 32)
    → (h' : Heap) × (kfree (suc n) ptr h ≡ some h')
      × Alone h' (sub32 ptr 32) (get_index (sub32 (h.tags (sub32 ptr 32)).realsize 32))
unfolding kfree give_back
kfree-Alone n ptr h some_ptr good =
    let tag = sub32 ptr tag_size in
    let i = get_index (sub32 (h.tags tag).realsize tag_size) in
    (
      relist h tag i,
      rw
          (
            some_ptr,
            good.magic,
            merge_left_none n h tag good.left,
            merge_right_none n h tag good.right,
            good.behind,
            kfree,
          )
          refl,
      relist-Alone h tag i good.in_use,
    )
