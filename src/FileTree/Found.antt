-- ===== src/FileTree/Found.antt =====
-- What is created is found by its name, and nothing else is found in another way.
use blueberry_os.Base.{
  ℕ, ◌+◌, ◌==◌, ◌≡◌, ◌≢◌, ◌≤◌, ◌<◌, refl, arith, Bool, true, false, leb, ltb, if◌then◌else◌, List,
  [], ◌∷◌, ◌++◌, length, inl, inr, Bool-cases, Option-cases, sym, ◌∙◌, ap, Option, none, some,
  str_eq,
}
use blueberry_os.FileTree.{Text, Directory, Tree, strip_slash, find_dir, get_directory_from_parent}
use blueberry_os.FileTree.Create.{
  created, attach_dir, set_dir, ends_slash, fields, name_too_long, path_too_long,
  create_symbolic_directory, add_dots, create_directory, dot, dot_dot,
}
use blueberry_os.FileTree.Shape.{all_below, and_both, IsTree}

pub strip_slash_plain : (name : Text) → ends_slash name ≡ false → strip_slash name ≡ name
unfolding strip_slash ends_slash
strip_slash_plain [] h = refl
strip_slash_plain (c ∷ []) h = rw h refl
strip_slash_plain (c ∷ d ∷ name) h = ap (λ x. c ∷ x) (strip_slash_plain (d ∷ name) h)

unfoldable pub or_else : Option ℕ → Option ℕ → Option ℕ
or_else none o = o
or_else (some k) o = some k

-- The search in a list with one more entry behind.
find_dir-append :
    (dirs : ℕ → Directory) (name : Text) (ds : List ℕ) (d : ℕ)
    → find_dir dirs name (ds ++ d ∷ [])
      ≡ or_else (find_dir dirs name ds) (if str_eq (dirs d).name name then some d else none)
unfolding find_dir or_else
find_dir-append dirs name [] d = refl
find_dir-append dirs name (x ∷ ds) d = elim (Bool-cases (str_eq (dirs x).name name)) [
  | inl here ↦ rw here refl
  | inr other ↦ rw other (find_dir-append dirs name ds d)
]

find_dir_same :
    (dirs dirs' : ℕ → Directory) (n : ℕ)
    → ((k : ℕ) → k < n → (dirs' k).name ≡ (dirs k).name)
    → (name : Text) (ds : List ℕ) → all_below n ds ≡ true
    → find_dir dirs' name ds ≡ find_dir dirs name ds
unfolding find_dir all_below
find_dir_same dirs dirs' n same name [] h = refl
find_dir_same dirs dirs' n same name (x ∷ ds) h =
    let (first, others) = and_both (ltb x n) (all_below n ds) h in
    rw (same x (ground (arith, first)), find_dir_same dirs dirs' n same name ds others) refl

find_dir_below :
    (dirs : ℕ → Directory) (n : ℕ) (name : Text) (ds : List ℕ) (k : ℕ)
    → all_below n ds ≡ true
    → find_dir dirs name ds ≡ some k
    → k < n
unfolding find_dir all_below
find_dir_below dirs n name [] k h e = absurd (ground (arith, e))
find_dir_below dirs n name (x ∷ ds) k h e =
    let (first, others) = and_both (ltb x n) (all_below n ds) h in
    elim (Bool-cases (str_eq (dirs x).name name)) [
      | inl here ↦ ground (arith, e, here, first)
      | inr other ↦ find_dir_below dirs n name ds k others (sym (rw other refl) ∙ e)
    ]

-- What a creation in the directory `p` leaves of the directories that there were: their names and
-- links, and all of a directory but `p`.
record Keeps (before : Tree) (p : ℕ) (after : Tree) : Type 0 where
  pub same_name : (k : ℕ) → k < before.next_dir → (after.dirs k).name ≡ (before.dirs k).name
  pub same_symbolic :
      (k : ℕ) → k < before.next_dir → (after.dirs k).symbolic ≡ (before.dirs k).symbolic
  pub same_link : (k : ℕ) → k < before.next_dir → (after.dirs k).link ≡ (before.dirs k).link
  pub same_dirs : (k : ℕ) → k < before.next_dir → k ≢ p → after.dirs k ≡ before.dirs k
  pub more : before.next_dir ≤ after.next_dir

Keeps-refl : (t : Tree) (p : ℕ) → Keeps t p t
Keeps-refl t p = record {
  same_name = λ k h. refl;
  same_symbolic = λ k h. refl;
  same_link = λ k h. refl;
  same_dirs = λ k h ne. refl;
  more = omega arith;
}

attach_dir-Keeps : (t : Tree) (p : ℕ) → Keeps t p (attach_dir t p)
unfolding attach_dir
attach_dir-Keeps t p = record {
  same_name = λ k h.
      let old : (k == t.next_dir) ≡ false = ground arith in
      elim (Bool-cases (k == p)) [ inl e ↦ rw (old, e) refl | inr e ↦ rw (old, e) refl ];
  same_symbolic = λ k h.
      let old : (k == t.next_dir) ≡ false = ground arith in
      elim (Bool-cases (k == p)) [ inl e ↦ rw (old, e) refl | inr e ↦ rw (old, e) refl ];
  same_link = λ k h.
      let old : (k == t.next_dir) ≡ false = ground arith in
      elim (Bool-cases (k == p)) [ inl e ↦ rw (old, e) refl | inr e ↦ rw (old, e) refl ];
  same_dirs = λ k h ne.
      let old : (k == t.next_dir) ≡ false = ground arith in
      let other : (k == p) ≡ false = ground (arith, ne) in rw (old, other) refl;
  more = omega arith;
}

Keeps-trans : {t t' t'' : Tree} (p : ℕ) → Keeps t p t' → Keeps t' p t'' → Keeps t p t''
Keeps-trans {t} {t'} {t''} p a b =
    let m = a.more in
    record {
      same_name = λ k h. b.same_name k (omega arith) ∙ a.same_name k h;
      same_symbolic = λ k h. b.same_symbolic k (omega arith) ∙ a.same_symbolic k h;
      same_link = λ k h. b.same_link k (omega arith) ∙ a.same_link k h;
      same_dirs = λ k h ne. b.same_dirs k (omega arith) ne ∙ a.same_dirs k h ne;
      more = let m' = b.more in omega arith;
    }

-- What happens in a directory that was not there yet.
Keeps-behind :
    {t t' t'' : Tree} (p d : ℕ) → t.next_dir ≤ d → Keeps t p t' → Keeps t' d t'' → Keeps t p t''
Keeps-behind {t} {t'} {t''} p d new a b =
    let m = a.more in
    record {
      same_name = λ k h. b.same_name k (omega arith) ∙ a.same_name k h;
      same_symbolic = λ k h. b.same_symbolic k (omega arith) ∙ a.same_symbolic k h;
      same_link = λ k h. b.same_link k (omega arith) ∙ a.same_link k h;
      same_dirs =
          λ k h ne. b.same_dirs k (omega arith) (λ q. omega (arith, q)) ∙ a.same_dirs k h ne;
      more = let m' = b.more in omega arith;
    }

-- The new structure is filled in.
filled-Keeps :
    (t : Tree) (p : ℕ) (v : Directory) → Keeps t p (set_dir (attach_dir t p) t.next_dir v)
filled-Keeps t p v =
    let attached = attach_dir-Keeps t p in
    let m = attached.more in
    let other : (k : ℕ) → k < t.next_dir → (k == t.next_dir) ≡ false = λ k h. ground arith in
    record {
      same_name = λ k h. rw (other k h) (attached.same_name k h);
      same_symbolic = λ k h. rw (other k h) (attached.same_symbolic k h);
      same_link = λ k h. rw (other k h) (attached.same_link k h);
      same_dirs = λ k h ne. rw (other k h) (attached.same_dirs k h ne);
      more = omega arith;
    }

create_symbolic_directory-Keeps :
    (t : Tree) (p link : ℕ) (name : Text) (mode owner group : ℕ)
    → Keeps t p (create_symbolic_directory t p link name mode owner group).0
unfolding create_symbolic_directory
create_symbolic_directory-Keeps t p link name mode owner group =
    let t1 = attach_dir t p in
    elim (Bool-cases (leb 32 (length (t.dirs p).directories))) [
      | inl full ↦ rw full (Keeps-refl t p)
      | inr free ↦ elim (Bool-cases (name_too_long name)) [
        | inl long ↦ rw (free, long) (attach_dir-Keeps t p)
        | inr short ↦ elim (Bool-cases (path_too_long (t1.dirs p).fullpath name)) [
          | inl long ↦ rw (free, short, long) (attach_dir-Keeps t p)
          | inr short_path ↦
              rw (free, short, short_path)
                (filled-Keeps t p (fields t1 p name mode owner group true link))
        ]
      ]
    ]

add_dots-Keeps : (t : Tree) (d parent : ℕ) → Keeps t d (add_dots t d parent)
unfolding add_dots
add_dots-Keeps t d parent =
    let one = t.dirs d in
    let t1 = (create_symbolic_directory t d d dot one.mode one.owner one.group).0 in
    let up = t1.dirs parent in
    Keeps-trans d (create_symbolic_directory-Keeps t d d dot one.mode one.owner one.group)
      (create_symbolic_directory-Keeps t1 d parent dot_dot up.mode up.owner up.group)

attach_dir_parent :
    (t : Tree) (p : ℕ)
    → p < t.next_dir
    → ((attach_dir t p).dirs p).directories ≡ (t.dirs p).directories ++ t.next_dir ∷ []
unfolding attach_dir
attach_dir_parent t p h =
    let old : (p == t.next_dir) ≡ false = ground arith in
    let here : (p == p) ≡ true = ground arith in rw (old, here) refl

attach_dir_fullpath :
    (t : Tree) (p : ℕ) → p < t.next_dir → ((attach_dir t p).dirs p).fullpath ≡ (t.dirs p).fullpath
unfolding attach_dir
attach_dir_fullpath t p h =
    let old : (p == t.next_dir) ≡ false = ground arith in
    let here : (p == p) ≡ true = ground arith in rw (old, here) refl

next_dir_attach : (t : Tree) (p : ℕ) → t.next_dir < (attach_dir t p).next_dir
unfolding attach_dir
next_dir_attach t p = omega arith

-- A tree that has the directory `d` with the name as the last one of `p`, and all else as before.
record Inserted (t : Tree) (p : ℕ) (name : Text) (t' : Tree) : Type 0 where
  kept : Keeps t p t'
  listed : (t'.dirs p).directories ≡ (t.dirs p).directories ++ t.next_dir ∷ []
  named : (t'.dirs t.next_dir).name ≡ name
  regular : (t'.dirs t.next_dir).symbolic ≡ false

Inserted-find_dir :
    (t : Tree) (p : ℕ) (name : Text) (t' : Tree)
    → IsTree t
    → p < t.next_dir
    → Inserted t p name t'
    → (other : Text)
    → find_dir t'.dirs other (t'.dirs p).directories
      ≡ or_else
          (find_dir t.dirs other (t.dirs p).directories)
          (if str_eq name other then some t.next_dir else none)
Inserted-find_dir t p name t' good h new other =
    rw
      (
        new.listed,
        find_dir-append t'.dirs other (t.dirs p).directories t.next_dir,
        new.named,
        find_dir_same t.dirs t'.dirs t.next_dir new.kept.same_name other (t.dirs p).directories
            (good.each_dir p h).known_directories,
      )
      refl

Inserted-get_directory_from_parent :
    (t : Tree) (p : ℕ) (name : Text) (t' : Tree)
    → IsTree t
    → p < t.next_dir
    → Inserted t p name t'
    → (other : Text) (redirect : Bool)
    → get_directory_from_parent t' p other redirect
      ≡ or_else
          (get_directory_from_parent t p other redirect)
          (if str_eq name (strip_slash other) then some t.next_dir else none)
unfolding get_directory_from_parent or_else
Inserted-get_directory_from_parent t p name t' good h new other redirect =
    let ds = (t.dirs p).directories in
    let o = strip_slash other in
    let found = Inserted-find_dir t p name t' good h new o in
    elim (Option-cases (find_dir t.dirs o ds)) [
      | inl absent ↦ elim (Bool-cases (str_eq name o)) [
        | inl same ↦ rw (found, absent, same, new.regular, get_directory_from_parent, or_else) refl
        | inr different ↦ rw (found, absent, different, get_directory_from_parent, or_else) refl
      ]
      | inr (k, e) ↦
          let below =
            find_dir_below t.dirs t.next_dir o ds k (good.each_dir p h).known_directories e in
          rw
            (
              get_directory_from_parent,
              or_else,
              found,
              e,
              new.kept.same_symbolic k below,
              new.kept.same_link k below,
            )
            refl
    ]

-- createDirectory in a directory, of a tree in order, that has less than 32 directories, with a name
-- of at most 64 bytes, a slash at its end apart, and a full path of at most 256: it returns the new
-- directory, and from then on the look-up of any name in the parent gives what it gave before, or
-- else the new directory where the name, without a slash at its end, is its name.
pub create_directory-get_directory_from_parent :
    (t : Tree) (parent : ℕ) (name : Text) (mode owner group : ℕ)
    → IsTree t
    → parent < t.next_dir
    → length (t.dirs parent).directories < 32
    → length (strip_slash name) ≤ 64
    → length (t.dirs parent).fullpath + length (strip_slash name) + 1 ≤ 256
    → ((create_directory t parent name mode owner group).1 ≡ created t.next_dir)
      × ((other : Text) (redirect : Bool)
          → get_directory_from_parent
              (create_directory t parent name mode owner group).0
              parent
              other
              redirect
            ≡ or_else
                (get_directory_from_parent t parent other redirect)
                (if str_eq name (strip_slash other) then some t.next_dir else none))
unfolding create_directory
create_directory-get_directory_from_parent t parent name mode owner group good known room short
      short_path =
    let d = t.next_dir in
    let t1 = attach_dir t parent in
    let v = fields t1 parent name mode owner group false 0 in
    let t2 = set_dir t1 d v in
    let t3 = add_dots t2 d parent in
    let e : create_directory t parent name mode owner group ≡ (t3, created d) =
      let free : leb 32 (length (t.dirs parent).directories) ≡ false = ground arith in
      let name_fits : name_too_long name ≡ false = ground arith in
      let path_fits : path_too_long (t1.dirs parent).fullpath name ≡ false =
        rw (attach_dir_fullpath t parent known) (ground arith) in
      rw (free, name_fits, path_fits) refl in
    let dots = add_dots-Keeps t2 d parent in
    let new : Inserted t parent name t3 =
      let filled = filled-Keeps t parent v in
      let more : d < t2.next_dir = next_dir_attach t parent in
      let apart : parent ≢ d = λ q. omega (arith, q, known) in
      let old : (parent == d) ≡ false = ground arith in
      let here : (d == d) ≡ true = ground arith in
      record {
        kept = Keeps-behind parent d (omega arith) filled dots;
        listed =
            ap (λ x. x.directories) (dots.same_dirs parent (omega arith) apart)
            ∙ rw old (attach_dir_parent t parent known);
        named = dots.same_name d more ∙ rw here refl;
        regular = dots.same_symbolic d more ∙ rw here refl;
      } in
    rw e (refl, Inserted-get_directory_from_parent t parent name t3 good known new)
