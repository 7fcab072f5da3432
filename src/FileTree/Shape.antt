-- ===== src/FileTree/Shape.antt =====
-- The bounds of the arrays in the directories and files, and that creation keeps them.
use blueberry_os.Base.{
  ℕ, ◌+◌, ◌==◌, ◌≡◌, ◌≤◌, ◌<◌, refl, arith, Bool, true, false, ◌&&◌, ltb, List, [], ◌∷◌, ◌++◌,
  length, length-append, inl, inr, Bool-cases, sym, subst, ==→eq,
}
use blueberry_os.FileTree.{Text, Directory, FileNode, Tree, strip_slash}
use blueberry_os.FileTree.Create.{
  attach_dir, set_dir, ends_slash, join_path, fields, name_too_long, path_too_long,
}

-- Whether the numbers of the list are below the bound.
unfoldable pub all_below : ℕ → List ℕ → Bool
all_below n [] = true
all_below n (x ∷ xs) = ltb x n && all_below n xs

-- The texts fit into their arrays, and so do the entries, which are pointers that kmalloc gave.
pub record IsDir (next_dir next_node : ℕ) (v : Directory) : Type 0 where
  pub few_directories : length v.directories ≤ 32
  pub few_files : length v.files ≤ 32
  pub short_name : length v.name ≤ 65
  pub short_path : length v.fullpath ≤ 256
  pub known_directories : all_below next_dir v.directories ≡ true
  pub known_files : all_below next_node v.files ≡ true

pub record IsNode (v : FileNode) : Type 0 where
  pub short_name : length v.name ≤ 65
  pub short_path : length v.fullpath ≤ 256

pub record IsTree (t : Tree) : Type 0 where
  pub each_dir : (d : ℕ) → d < t.next_dir → IsDir t.next_dir t.next_node (t.dirs d)
  pub each_node : (f : ℕ) → f < t.next_node → IsNode (t.nodes f)

pub and_both : (a b : Bool) → (a && b) ≡ true → (a ≡ true) × (b ≡ true)
and_both true b h = (refl, h)
and_both false b h = absurd (ground (arith, h))

pub blank_below : (n : ℕ) → all_below n [] ≡ true
unfolding all_below
blank_below n = refl

pub all_below_mono : (n m : ℕ) (xs : List ℕ) → n ≤ m → all_below n xs ≡ true → all_below m xs ≡ true
unfolding all_below
all_below_mono n m [] le h = refl
all_below_mono n m (x ∷ xs) le h = ground (arith, all_below_mono n m xs le)

pub all_below-append :
    (n : ℕ) (xs : List ℕ) (y : ℕ)
    → all_below n xs ≡ true
    → y < n
    → all_below n (xs ++ y ∷ []) ≡ true
unfolding all_below
all_below-append n [] y h lt = ground arith
all_below-append n (x ∷ xs) y h lt =
    let (first, others) = and_both (ltb x n) (all_below n xs) h in
    rw (first, all_below-append n xs y others lt) refl

pub length-strip_slash : (name : Text) → length name ≤ length (strip_slash name) + 1
unfolding strip_slash
length-strip_slash [] = omega arith
length-strip_slash (c ∷ []) = ground arith
length-strip_slash (c ∷ d ∷ name) = omega (arith, length-strip_slash (d ∷ name))

pub length-join_path :
    (parent name : Text)
    → length (join_path parent name) ≤ length parent + length (strip_slash name) + 1
unfolding join_path
length-join_path parent name = elim (Bool-cases (ends_slash parent)) [
  | inl slash ↦ rw (slash, length-append parent (strip_slash name)) (omega arith)
  | inr none ↦
      rw
        (
          none,
          length-append (parent ++ b'/' ∷ []) (strip_slash name),
          length-append parent (b'/' ∷ []),
        )
        (omega arith)
]

pub IsDir-grow : (n n' m m' : ℕ) (v : Directory) → n ≤ n' → m ≤ m' → IsDir n m v → IsDir n' m' v
IsDir-grow n n' m m' v le le' good = record {
  few_directories = good.few_directories;
  few_files = good.few_files;
  short_name = good.short_name;
  short_path = good.short_path;
  known_directories = all_below_mono n n' v.directories le good.known_directories;
  known_files = all_below_mono m m' v.files le' good.known_files;
}

-- A tree in which one more structure has been allocated, and every directory is in order.
pub attach_dir-IsTree :
    (t : Tree) (parent : ℕ)
    → IsTree t
    → parent < t.next_dir
    → length (t.dirs parent).directories < 32
    → IsTree (attach_dir t parent)
unfolding attach_dir
attach_dir-IsTree t parent good known room = record {
  each_dir = λ d h. elim (Bool-cases (d == t.next_dir)) [
    | inl new ↦ rw new (record {
      few_directories = omega arith;
      few_files = omega arith;
      short_name = omega arith;
      short_path = omega arith;
      known_directories = blank_below (t.next_dir + 1);
      known_files = blank_below t.next_node;
    })
    | inr old ↦
        let was = good.each_dir d (ground arith) in
        elim (Bool-cases (d == parent)) [
          | inl here ↦
              let e = ==→eq d parent here in
              rw (old, here)
                (record {
                  few_directories =
                      let free = subst (λ x. length (t.dirs x).directories < 32) (sym e) room in
                      omega (arith, length-append (t.dirs d).directories (t.next_dir ∷ []));
                  few_files = was.few_files;
                  short_name = was.short_name;
                  short_path = was.short_path;
                  known_directories =
                      all_below-append (t.next_dir + 1) (t.dirs d).directories t.next_dir
                        (all_below_mono t.next_dir (t.next_dir + 1) (t.dirs d).directories
                          (omega arith) was.known_directories)
                        (omega arith);
                  known_files = was.known_files;
                })
          | inr elsewhere ↦
              rw (old, elsewhere)
                (IsDir-grow t.next_dir (t.next_dir + 1) t.next_node t.next_node (t.dirs d)
                  (omega arith) (omega arith) was)
        ]
  ];
  each_node = good.each_node;
}

pub set_dir-IsTree :
    (t : Tree) (d : ℕ) (v : Directory)
    → IsTree t
    → IsDir t.next_dir t.next_node v
    → IsTree (set_dir t d v)
set_dir-IsTree t d v good fine = record {
  each_dir = λ k h. elim (Bool-cases (k == d)) [
    | inl here ↦ rw here fine
    | inr elsewhere ↦ rw elsewhere (good.each_dir k h)
  ];
  each_node = good.each_node;
}

pub fields-IsDir :
    (t : Tree) (parent : ℕ) (name : Text) (mode owner group : ℕ) (symbolic : Bool) (link : ℕ)
    → name_too_long name ≡ false
    → path_too_long (t.dirs parent).fullpath name ≡ false
    → IsDir t.next_dir t.next_node (fields t parent name mode owner group symbolic link)
fields-IsDir t parent name mode owner group symbolic link short short_path = record {
  few_directories = omega arith;
  few_files = omega arith;
  short_name = let a = length-strip_slash name in ground arith;
  short_path = let a = length-join_path (t.dirs parent).fullpath name in ground arith;
  known_directories = blank_below t.next_dir;
  known_files = blank_below t.next_node;
}
