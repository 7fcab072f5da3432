-- ===== src/FileTree/Kept.antt =====
-- Creation keeps the bounds of the arrays.
use blueberry_os.Base.{
  ℕ, ◌+◌, ◌==◌, ◌≤◌, ◌<◌, arith, true, false, leb, [], ◌∷◌, length, length-append, inl, inr,
  Bool-cases, sym, subst, ==→eq,
}
use blueberry_os.FileTree.{Text, FileNode, Tree}
use blueberry_os.FileTree.Create.{
  blank_dir, attach_dir, set_dir, fields, name_too_long, path_too_long, create_symbolic_directory,
  add_dots, create_directory, attach_file, create_file, dot, dot_dot, new_file, allocate_dir,
  allocate_file,
}
use blueberry_os.FileTree.Shape.{
  IsDir, IsNode, IsTree, blank_below, all_below_mono, all_below-append, length-strip_slash,
  length-join_path, IsDir-grow, attach_dir-IsTree, set_dir-IsTree, fields-IsDir,
}

-- A tree in order that has at least the structures of the one before.
pub record Grown (before after : Tree) : Type 0 where
  pub tree : IsTree after
  pub more : before.next_dir ≤ after.next_dir

create_symbolic_directory-Grown :
    (t : Tree) (parent link : ℕ) (name : Text) (mode owner group : ℕ)
    → IsTree t
    → parent < t.next_dir
    → Grown t (create_symbolic_directory t parent link name mode owner group).0
unfolding create_symbolic_directory attach_dir
create_symbolic_directory-Grown t parent link name mode owner group good known =
    elim (Bool-cases (leb 32 (length (t.dirs parent).directories))) [
      | inl full ↦ rw full (record { tree = good; more = omega arith })
      | inr free ↦
          let t1 = attach_dir t parent in
          let good1 = attach_dir-IsTree t parent good known (ground arith) in
          elim (Bool-cases (name_too_long name)) [
            | inl long ↦ rw (free, long) (record { tree = good1; more = omega arith })
            | inr short ↦ elim (Bool-cases (path_too_long (t1.dirs parent).fullpath name)) [
              | inl long ↦ rw (free, short, long) (record { tree = good1; more = omega arith })
              | inr short_path ↦
                  rw (free, short, short_path)
                    (record {
                      tree =
                          set_dir-IsTree t1 t.next_dir
                            (fields t1 parent name mode owner group true link) good1
                            (fields-IsDir t1 parent name mode owner group true link short
                              short_path);
                      more = omega arith;
                    })
            ]
          ]
    ]

add_dots-IsTree :
    (t : Tree) (d parent : ℕ)
    → IsTree t
    → d < t.next_dir
    → parent < t.next_dir
    → IsTree (add_dots t d parent)
unfolding add_dots
add_dots-IsTree t d parent good known known' =
    let one = t.dirs d in
    let first = create_symbolic_directory-Grown t d d dot one.mode one.owner one.group good known in
    let t1 = (create_symbolic_directory t d d dot one.mode one.owner one.group).0 in
    let up = t1.dirs parent in
    let more = first.more in
    (create_symbolic_directory-Grown t1 d parent dot_dot up.mode up.owner up.group first.tree
      (omega arith)).tree

blank-IsDir : (n m parent : ℕ) → IsDir n m (blank_dir parent)
blank-IsDir n m parent = record {
  few_directories = omega arith;
  few_files = omega arith;
  short_name = omega arith;
  short_path = omega arith;
  known_directories = blank_below n;
  known_files = blank_below m;
}

allocate_dir-IsTree : (t : Tree) → IsTree t → IsTree (allocate_dir t)
unfolding allocate_dir
allocate_dir-IsTree t good = record {
  each_dir = λ d h. elim (Bool-cases (d == t.next_dir)) [
    | inl new ↦ rw new (blank-IsDir (t.next_dir + 1) t.next_node 0)
    | inr old ↦ rw old (
        IsDir-grow t.next_dir (t.next_dir + 1) t.next_node t.next_node (t.dirs d) (omega arith)
          (omega arith) (good.each_dir d (ground arith)))
  ];
  each_node = good.each_node;
}

-- createDirectory in a directory of the tree keeps the tree in order on each of its ways, the failures
-- included: no directory has more than 32 directories or 32 files, each name has at most 65 bytes and
-- each full path at most 256, and each entry is a structure that has been allocated.
pub create_directory-IsTree :
    (t : Tree) (parent : ℕ) (name : Text) (mode owner group : ℕ)
    → IsTree t
    → parent < t.next_dir
    → IsTree (create_directory t parent name mode owner group).0
unfolding create_directory attach_dir
create_directory-IsTree t parent name mode owner group good known =
    elim (Bool-cases (leb 32 (length (t.dirs parent).directories))) [
      | inl full ↦ rw full (allocate_dir-IsTree t good)
      | inr free ↦
          let t1 = attach_dir t parent in
          let good1 = attach_dir-IsTree t parent good known (ground arith) in
          elim (Bool-cases (name_too_long name)) [
            | inl long ↦ rw (free, long) good1
            | inr short ↦ elim (Bool-cases (path_too_long (t1.dirs parent).fullpath name)) [
              | inl long ↦ rw (free, short, long) good1
              | inr short_path ↦
                  let v = fields t1 parent name mode owner group false 0 in
                  let filled =
                    set_dir-IsTree t1 t.next_dir v good1
                      (fields-IsDir t1 parent name mode owner group false 0 short short_path) in
                  rw (free, short, short_path)
                    (add_dots-IsTree (set_dir t1 t.next_dir v) t.next_dir parent filled
                      (omega arith) (omega arith))
            ]
          ]
    ]

add_file-IsTree :
    (t : Tree) (parent : ℕ) (file : FileNode)
    → IsTree t
    → length (t.dirs parent).files < 32
    → IsNode file
    → IsTree (attach_file t parent file)
unfolding attach_file
add_file-IsTree t parent file good room fine = record {
  each_dir = λ d h.
      let was = good.each_dir d h in
      elim (Bool-cases (d == parent)) [
        | inl here ↦
            let e = ==→eq d parent here in
            let free = subst (λ x. length (t.dirs x).files < 32) (sym e) room in
            rw here (record {
              few_directories = was.few_directories;
              few_files = omega (arith, length-append (t.dirs d).files (t.next_node ∷ []));
              short_name = was.short_name;
              short_path = was.short_path;
              known_directories = was.known_directories;
              known_files =
                  all_below-append (t.next_node + 1) (t.dirs d).files t.next_node
                    (all_below_mono t.next_node (t.next_node + 1) (t.dirs d).files (omega arith)
                      was.known_files)
                    (omega arith);
            })
        | inr elsewhere ↦ rw elsewhere (
            IsDir-grow t.next_dir t.next_dir t.next_node (t.next_node + 1) (t.dirs d) (omega arith)
              (omega arith) was)
      ];
  each_node = λ f h. elim (Bool-cases (f == t.next_node)) [
    | inl new ↦ rw new fine
    | inr old ↦ rw old (good.each_node f (ground arith))
  ];
}

allocate_file-IsTree : (t : Tree) → IsTree t → IsTree (allocate_file t)
unfolding allocate_file
allocate_file-IsTree t good = record {
  each_dir = λ d h.
      IsDir-grow t.next_dir t.next_dir t.next_node (t.next_node + 1) (t.dirs d) (omega arith)
        (omega arith) (good.each_dir d h);
  each_node = λ f h. elim (Bool-cases (f == t.next_node)) [
    | inl new ↦ rw new (record { short_name = omega arith; short_path = omega arith })
    | inr old ↦ rw old (good.each_node f (ground arith))
  ];
}

-- createFile keeps the tree in order on each of its ways, the failures included.
pub create_file-IsTree :
    (t : Tree) (parent : ℕ) (name : Text) (mode owner group : ℕ)
    → IsTree t
    → IsTree (create_file t parent name mode owner group).0
unfolding create_file
create_file-IsTree t parent name mode owner group good =
    elim (Bool-cases (leb 32 (length (t.dirs parent).files))) [
      | inl full ↦ rw full good
      | inr free ↦ elim (Bool-cases (name_too_long name)) [
        | inl long ↦ rw (free, long) (allocate_file-IsTree t good)
        | inr short ↦ elim (Bool-cases (path_too_long (t.dirs parent).fullpath name)) [
          | inl long ↦ rw (free, short, long) (allocate_file-IsTree t good)
          | inr short_path ↦
              rw (free, short, short_path)
                (add_file-IsTree t parent (new_file t parent name mode owner group) good
                  (ground arith)
                  (record {
                    short_name = let a = length-strip_slash name in ground arith;
                    short_path =
                        let a = length-join_path (t.dirs parent).fullpath name in ground arith;
                  }))
        ]
      ]
    ]
