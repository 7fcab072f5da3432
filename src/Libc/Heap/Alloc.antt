-- ===== src/Libc/Heap/Alloc.antt =====
-- kmalloc and kcalloc: what the tag of the new memory holds, and what stays of the other tags.
use blueberry_os.Base.{
  ℕ, zero, suc, ◌+◌, ◌^◌, ◌==◌, ◌≡◌, ◌≢◌, ◌≤◌, ◌<◌, refl, arith, Bool, true, false, ◌&&◌, ltb,
  if◌then◌else◌, Option, some, add32, inl, inr, Bool-cases, Option-cases, sym, ◌∙◌, ap, subst,
  ==→eq,
}
use blueberry_os.Libc.Heap.{
  Tag, Heap, tag_size, memory_tag_magic, set_bin, set_tag, set_prev, set_next, set_splitprev,
  unlink, first_fit, find_tag, dec, add_complete, take_tag, push_front,
}

-- The two heaps have the same tags but for the links and the magic numbers of the tags.
pub record SameSizes (h h' : Heap) : Type 0 where
  pub realsize : (a : ℕ) → (h'.tags a).realsize ≡ (h.tags a).realsize
  pub size : (a : ℕ) → (h'.tags a).size ≡ (h.tags a).size
  pub index : (a : ℕ) → (h'.tags a).index ≡ (h.tags a).index

SameSizes-refl : (h : Heap) → SameSizes h h
SameSizes-refl h = record { realsize = λ a. refl; size = λ a. refl; index = λ a. refl }

pub SameSizes-trans : {a b c : Heap} → SameSizes a b → SameSizes b c → SameSizes a c
SameSizes-trans p q = record {
  realsize = λ a. q.realsize a ∙ p.realsize a;
  size = λ a. q.size a ∙ p.size a;
  index = λ a. q.index a ∙ p.index a;
}

-- A tag that keeps its sizes and its index is written.
pub set_tag-SameSizes :
    (h : Heap) (a : ℕ) (t : Tag)
    → t.realsize ≡ (h.tags a).realsize
    → t.size ≡ (h.tags a).size
    → t.index ≡ (h.tags a).index
    → SameSizes h (set_tag h a t)
set_tag-SameSizes h a t r s i = record {
  realsize = λ b. elim (Bool-cases (b == a)) [
    | inl e ↦ rw e (r ∙ ap (λ x. (h.tags x).realsize) (sym (==→eq b a e)))
    | inr e ↦ rw e refl
  ];
  size = λ b. elim (Bool-cases (b == a)) [
    | inl e ↦ rw e (s ∙ ap (λ x. (h.tags x).size) (sym (==→eq b a e)))
    | inr e ↦ rw e refl
  ];
  index = λ b. elim (Bool-cases (b == a)) [
    | inl e ↦ rw e (i ∙ ap (λ x. (h.tags x).index) (sym (==→eq b a e)))
    | inr e ↦ rw e refl
  ];
}

set_prev-SameSizes : (h : Heap) (a p : ℕ) → SameSizes h (set_prev h a p)
unfolding set_prev
set_prev-SameSizes h a p = elim (Bool-cases (a == 0)) [
  | inl e ↦ rw e (SameSizes-refl h)
  | inr e ↦ rw e (set_tag-SameSizes h a (record (h.tags a) { prev = p }) refl refl refl)
]

set_next-SameSizes : (h : Heap) (a p : ℕ) → SameSizes h (set_next h a p)
unfolding set_next
set_next-SameSizes h a p = elim (Bool-cases (a == 0)) [
  | inl e ↦ rw e (SameSizes-refl h)
  | inr e ↦ rw e (set_tag-SameSizes h a (record (h.tags a) { next = p }) refl refl refl)
]

pub set_splitprev-SameSizes : (h : Heap) (a p : ℕ) → SameSizes h (set_splitprev h a p)
unfolding set_splitprev
set_splitprev-SameSizes h a p = elim (Bool-cases (a == 0)) [
  | inl e ↦ rw e (SameSizes-refl h)
  | inr e ↦ rw e (set_tag-SameSizes h a (record (h.tags a) { splitprev = p }) refl refl refl)
]

SameSizes-if :
    (b : Bool) (h x y : Heap) → SameSizes h x → SameSizes h y → SameSizes h (if b then x else y)
SameSizes-if true h x y p q = p
SameSizes-if false h x y p q = q

set_bin-SameSizes : (h : Heap) (i : Option ℕ) (a : ℕ) → SameSizes h (set_bin h i a)
set_bin-SameSizes h i a = record { realsize = λ b. refl; size = λ b. refl; index = λ b. refl }

unlink-SameSizes : (h : Heap) (tag : ℕ) → SameSizes h (unlink h tag)
unfolding unlink
unlink-SameSizes h tag =
    let t = h.tags tag in
    let h1 = if h.bins t.index == tag then set_bin h t.index t.next else h in
    let h2 = set_next h1 (h1.tags tag).prev (h1.tags tag).next in
    SameSizes-trans
      (SameSizes-if (h.bins t.index == tag) h (set_bin h t.index t.next) h
        (set_bin-SameSizes h t.index t.next) (SameSizes-refl h))
      (SameSizes-trans (set_next-SameSizes h1 (h1.tags tag).prev (h1.tags tag).next)
        (set_prev-SameSizes h2 (h2.tags tag).next (h2.tags tag).prev))

pub push_front-SameSizes : (h : Heap) (tag i : ℕ) → SameSizes h (push_front h tag i)
unfolding push_front
push_front-SameSizes h tag i =
    let first = h.bins (some i) in
    let linked = set_tag h tag (record (h.tags tag) { next = first }) in
    let pushed = if first == 0 then h else set_prev linked first tag in
    SameSizes-trans
      (SameSizes-if (first == 0) h h (set_prev linked first tag) (SameSizes-refl h) (
        SameSizes-trans
          (set_tag-SameSizes h tag (record (h.tags tag) { next = first }) refl refl refl)
          (set_prev-SameSizes linked first tag)))
      (set_bin-SameSizes pushed (some i) tag)

pub take_tag-SameSizes : (h : Heap) (index tag : ℕ) → SameSizes h (take_tag h index tag)
unfolding take_tag
take_tag-SameSizes h index tag =
    let h1 = unlink h tag in
    let t = h1.tags tag in
    SameSizes-trans (unlink-SameSizes h tag) (
      SameSizes-if (t.splitprev == 0 && t.splitnext == 0) h1
        (add_complete h1 index (dec (h1.complete index))) h1
        (record { realsize = λ b. refl; size = λ b. refl; index = λ b. refl }) (SameSizes-refl h1))

-- The tag has room for the bytes and for itself.
first_fit_room :
    (n : ℕ) (tags : ℕ → Tag) (size tag found : ℕ)
    → size + 32 < 2 ^ 32
    → first_fit n tags size tag ≡ some found
    → found ≢ 0
    → size + 32 ≤ (tags found).realsize
unfolding first_fit
first_fit_room zero tags size tag found small e ne = absurd (ground (arith, e))
first_fit_room (suc n) tags size tag found small e ne = elim (Bool-cases (tag == 0)) [
  | inl last ↦ absurd (ground (arith, rw last at e, ne))
  | inr more ↦ elim (Bool-cases (ltb (tags tag).realsize (add32 size tag_size))) [
    | inl no_room ↦
        first_fit_room n tags size (tags tag).next found small (sym (rw (more, no_room) refl) ∙ e)
          ne
    | inr room ↦
        let here : some tag ≡ some found = sym (rw (more, room) refl) ∙ e in
        let same : tag ≡ found = ground (arith, here) in
        subst (λ x. size + 32 ≤ (tags x).realsize) same (ground arith)
  ]
]

pub find_tag_room :
    (fuel n : ℕ) (h : Heap) (size i found : ℕ)
    → size + 32 < 2 ^ 32
    → find_tag fuel n h size i ≡ some found
    → found ≢ 0
    → size + 32 ≤ (h.tags found).realsize
unfolding find_tag
find_tag_room fuel zero h size i found small e ne = absurd (ground (arith, e, ne))
find_tag_room fuel (suc n) h size i found small e ne =
    elim (Option-cases (first_fit fuel h.tags size (h.bins (some i)))) [
      | inl endless ↦ absurd (ground (arith, rw (endless, find_tag) at e))
      | inr (tag, fit) ↦ elim (Bool-cases (tag == 0)) [
        | inl nothing ↦
            find_tag_room fuel n h size (i + 1) found small
              (sym (rw (fit, nothing, find_tag) refl) ∙ e) ne
        | inr some_tag ↦ elim (Bool-cases ((h.tags tag).magic == memory_tag_magic)) [
          | inr overwritten ↦
              find_tag_room fuel n h size (i + 1) found small
                (sym (rw (fit, some_tag, overwritten, find_tag) refl) ∙ e) ne
          | inl intact ↦
              let here : some tag ≡ some found =
                sym (rw (fit, some_tag, intact, find_tag) refl) ∙ e in
              let same : tag ≡ found = ground (arith, here) in
              subst (λ x. size + 32 ≤ (h.tags x).realsize) same
                (first_fit_room fuel h.tags size (h.bins (some i)) tag small fit
                  (λ zero_tag. ground (arith, some_tag, zero_tag)))
        ]
      ]
    ]
