-- ===== src/Libc/Heap/Sizes.antt =====
-- The sizes of the tags behind kmalloc, and the bytes behind kcalloc.
use blueberry_os.Base.{
  ℕ, ◌+◌, ◌-◌, ◌*◌, ◌^◌, ◌==◌, ◌≡◌, ◌≢◌, ◌≤◌, ◌<◌, refl, arith, true, false, ltb, none, some, u32,
  add32, inl, inr, Bool-cases, ◌∙◌, ==→eq,
}
use blueberry_os.Libc.Mem.{memset}
use blueberry_os.Libc.Mem.Copy.{memset_lem}
use blueberry_os.Memory.{FrameMap, kalloc_frames}
use blueberry_os.Libc.Heap.{
  Tag, Heap, tag_size, memory_tag_magic, get_index, set_tag, set_splitprev, find_tag, pages_for,
  take_tag, new_tag, mark_used, push_front, split_tag, finish, obtain, kmalloc, kcalloc,
  memory_tot_exp,
}
use blueberry_os.Libc.Heap.Alloc.{
  SameSizes, SameSizes-trans, set_tag-SameSizes, set_splitprev-SameSizes, push_front-SameSizes,
  take_tag-SameSizes, find_tag_room,
}

-- A tag that is large enough, and the sizes and indices of the other tags as before.
record Obtained (h : Heap) (size tag : ℕ) (h1 : Heap) : Type 0 where
  room : size + 32 ≤ (h1.tags tag).realsize
  realsize : (a : ℕ) → a ≢ tag → (h1.tags a).realsize ≡ (h.tags a).realsize
  same_size : (a : ℕ) → a ≢ tag → (h1.tags a).size ≡ (h.tags a).size
  index : (a : ℕ) → a ≢ tag → (h1.tags a).index ≡ (h.tags a).index

pages_for_room :
    (size : ℕ) → size + 32 < 2 ^ 31 → size + 32 ≤ u32 (pages_for (add32 size tag_size) * 4096)
unfolding pages_for
pages_for_room size small = ground arith

new_tag-Obtained :
    (h : Heap) (size tag : ℕ) (frames : FrameMap)
    → size + 32 < 2 ^ 31
    → kalloc_frames (pages_for (add32 size tag_size)) h.frames ≡ some (tag, frames)
    → (h1 : Heap) × (new_tag h size ≡ some (tag, h1)) × Obtained h size tag h1
unfolding new_tag
new_tag-Obtained h size tag frames small e =
    let pages = pages_for (add32 size tag_size) in
    let filled : Tag = record (h.tags tag) {
      magic = memory_tag_magic;
      realsize = u32 (pages * 4096);
      splitprev = 0;
      splitnext = 0;
    } in
    let h1 = set_tag (record h { frames = frames }) tag filled in
    let here : (tag == tag) ≡ true = ground arith in
    let other : (a : ℕ) → a ≢ tag → (a == tag) ≡ false = λ a ne. ground (arith, ne) in
    (
      h1,
      rw (e, new_tag) refl,
      record {
        room = rw here (pages_for_room size small);
        realsize = λ a ne. rw (other a ne) refl;
        same_size = λ a ne. rw (other a ne) refl;
        index = λ a ne. rw (other a ne) refl;
      },
    )

-- What kmalloc needs: the lists end within the fuel, and where none has a tag that is large enough,
-- there are frames.
pub record CanAllocate (fuel size : ℕ) (h : Heap) : Type 0 where
  pub found : ℕ
  pub ends : find_tag fuel (memory_tot_exp - get_index size) h size (get_index size) ≡ some found
  pub more :
      found ≡ 0
      → (tag : ℕ) × (frames : FrameMap) × (kalloc_frames (pages_for (add32 size tag_size)) h.frames
          ≡ some (tag, frames))

obtain-Obtained :
    (fuel : ℕ) (h : Heap) (size : ℕ)
    → size + 32 < 2 ^ 31
    → CanAllocate fuel size h
    → (tag : ℕ) × (h1 : Heap) × (obtain fuel h size ≡ some (tag, h1)) × Obtained h size tag h1
unfolding obtain
obtain-Obtained fuel h size small can = elim (Bool-cases (can.found == 0)) [
  | inl none_found ↦
      let (tag, frames, e) = can.more (==→eq can.found 0 none_found) in
      let (h1, e1, good) = new_tag-Obtained h size tag frames small e in
      (tag, h1, rw (can.ends, none_found, e1, obtain) refl, good)
  | inr found ↦
      let h1 = take_tag h (get_index size) can.found in
      let same = take_tag-SameSizes h (get_index size) can.found in
      let room =
        find_tag_room fuel (memory_tot_exp - get_index size) h size (get_index size) can.found
          (omega arith) can.ends (λ z. ground (arith, found, z)) in
      (
        can.found,
        h1,
        rw (can.ends, found, obtain) refl,
        record {
          room = rw (same.realsize can.found) room;
          realsize = λ a ne. same.realsize a;
          same_size = λ a ne. same.size a;
          index = λ a ne. same.index a;
        },
      )
]

-- The address of the tag that the rest of the space becomes.
abbrev pub rest_of : ℕ → ℕ → ℕ
rest_of tag size = u32 (tag + tag_size + size)

-- What kmalloc leaves: the tag has room for the bytes and for itself, it is in use, and no tag but it
-- and the one behind its bytes has another size or index.
pub record Allocated (h : Heap) (size tag : ℕ) (h' : Heap) : Type 0 where
  pub room : size + 32 ≤ (h'.tags tag).realsize
  pub has_size : (h'.tags tag).size ≡ size
  pub in_use : (h'.tags tag).index ≡ none
  pub realsize :
      (a : ℕ) → a ≢ tag → a ≢ rest_of tag size → (h'.tags a).realsize ≡ (h.tags a).realsize
  pub same_size : (a : ℕ) → a ≢ tag → a ≢ rest_of tag size → (h'.tags a).size ≡ (h.tags a).size
  pub index : (a : ℕ) → a ≢ tag → a ≢ rest_of tag size → (h'.tags a).index ≡ (h.tags a).index

mark_used-Allocated :
    (h h1 : Heap) (size tag : ℕ)
    → Obtained h size tag h1
    → Allocated h size tag (mark_used h1 tag size)
unfolding mark_used
mark_used-Allocated h h1 size tag got =
    let here : (tag == tag) ≡ true = ground arith in
    let other : (a : ℕ) → a ≢ tag → (a == tag) ≡ false = λ a ne. ground (arith, ne) in
    record {
      room = rw here got.room;
      has_size = rw here refl;
      in_use = rw here refl;
      realsize = λ a ne ne'. rw (other a ne) (got.realsize a ne);
      same_size = λ a ne ne'. rw (other a ne) (got.same_size a ne);
      index = λ a ne ne'. rw (other a ne) (got.index a ne);
    }

rest_of_other : (tag size : ℕ) → size + 32 < 2 ^ 31 → rest_of tag size ≢ tag
rest_of_other tag size small e = omega arith

-- The rest is cut off: the tag keeps what the bytes and the tag itself need.
split_tag-Allocated :
    (h m : Heap) (size tag : ℕ)
    → size + 32 < 2 ^ 31
    → Allocated h size tag m
    → Allocated h size tag (split_tag m tag size ((m.tags tag).realsize - (size + tag_size)))
unfolding split_tag
split_tag-Allocated h m size tag small good =
    let t = m.tags tag in
    let remainder = t.realsize - (size + tag_size) in
    let split = rest_of tag size in
    let i = get_index (remainder - tag_size) in
    let h1 = set_tag m split (record (m.tags split) {
      magic = memory_tag_magic;
      index = some i;
      realsize = remainder;
      next = 0;
      prev = 0;
      splitprev = tag;
      splitnext = t.splitnext;
    }) in
    let h2 = set_tag h1 tag (record (h1.tags tag) { realsize = t.realsize - remainder }) in
    let h3 = set_splitprev h2 t.splitnext split in
    let h4 = set_tag h3 tag (record (h3.tags tag) { splitnext = split }) in
    let same : SameSizes h2 (push_front h4 split i) =
      SameSizes-trans (set_splitprev-SameSizes h2 t.splitnext split) (
        SameSizes-trans
          (set_tag-SameSizes h3 tag (record (h3.tags tag) { splitnext = split }) refl refl refl)
          (push_front-SameSizes h4 split i)) in
    let here : (tag == tag) ≡ true = ground arith in
    let apart : (tag == split) ≡ false = ground (arith, rest_of_other tag size small) in
    let not_tag : (a : ℕ) → a ≢ tag → (a == tag) ≡ false = λ a ne. ground (arith, ne) in
    let not_split : (a : ℕ) → a ≢ split → (a == split) ≡ false = λ a ne. ground (arith, ne) in
    record {
      room = rw (same.realsize tag, here) (let r = good.room in omega arith);
      has_size = same.size tag ∙ rw (here, apart) good.has_size;
      in_use = same.index tag ∙ rw (here, apart) good.in_use;
      realsize =
          λ a ne ne'. same.realsize a ∙ rw (not_tag a ne, not_split a ne') (good.realsize a ne ne');
      same_size =
          λ a ne ne'. same.size a ∙ rw (not_tag a ne, not_split a ne') (good.same_size a ne ne');
      index = λ a ne ne'. same.index a ∙ rw (not_tag a ne, not_split a ne') (good.index a ne ne');
    }

-- kmalloc of at least one byte and less than 2 ^ 31 with its tag, where the lists of free tags end
-- within the fuel and page frames are there if no free tag is large enough: it returns the address
-- behind a tag that has room for the bytes and for itself and is in use, and the sizes and indices of
-- all tags but this one and the one behind its bytes stay.
pub kmalloc-Allocated :
    (fuel : ℕ) (h : Heap) (size : ℕ)
    → 0 < size
    → size + 32 < 2 ^ 31
    → CanAllocate fuel size h
    → (tag : ℕ) × (h' : Heap) × (kmalloc fuel size h ≡ some (u32 (tag + 32), h'))
      × Allocated h size tag h'
unfolding kmalloc finish
kmalloc-Allocated fuel h size more small can =
    let (tag, h1, e, got) = obtain-Obtained fuel h size small can in
    let some_bytes : (size == 0) ≡ false = ground arith in
    let m = mark_used h1 tag size in
    let marked = mark_used-Allocated h h1 size tag got in
    let remainder = (m.tags tag).realsize - (size + tag_size) in
    (
      tag,
      finish h1 tag size,
      rw (some_bytes, e, kmalloc) refl,
      elim (Bool-cases (ltb 256 (remainder - tag_size))) [
        | inl large ↦ rw large (split_tag-Allocated h m size tag small marked)
        | inr little ↦ rw little marked
      ],
    )

-- kcalloc where the product of its arguments, taken modulo 2 ^ 32, is at least 1 and less than 2 ^ 31
-- with a tag, the lists of free tags end within the fuel, and page frames are there if no free tag is
-- large enough: it returns the address behind a tag, and as many bytes there as the product are 0.
pub kcalloc-zero :
    (fuel : ℕ) (h : Heap) (items size : ℕ)
    → 0 < u32 (items * size)
    → u32 (items * size) + 32 < 2 ^ 31
    → CanAllocate fuel (u32 (items * size)) h
    → (tag : ℕ) × (h' : Heap) × (kcalloc fuel items size h ≡ some (u32 (tag + 32), h'))
      × ((k : ℕ) → k < u32 (items * size) → h'.mem (u32 (tag + 32) + k) ≡ 0)
unfolding kcalloc
kcalloc-zero fuel h items size more small can =
    let n = u32 (items * size) in
    let (tag, h1, e, done) = kmalloc-Allocated fuel h n more small can in
    let ptr = u32 (tag + 32) in
    (
      tag,
      record h1 { mem = (memset h1.mem ptr 0 n).1 },
      rw (e, kcalloc) refl,
      (memset_lem h1.mem ptr 0 n).1,
    )
