-- ===== src/FileTree/Tests.antt =====
-- The theorems on the file tree, applied to a root directory that has the directory `a` with the
-- file `b`.
use blueberry_os.Base.{
  ◌≡◌, refl, arith, Bool, true, [], ◌∷◌, none, some, if◌then◌else◌, str_eq, inl, inr, Bool-cases,
  ==→eq, ◌==◌, subst, sym,
}
use blueberry_os.FileTree.{
  Text, Tree, strip_slash, get_directory_from_parent, get_file_from_parent, get_file_from,
  get_directory_from, looked,
}
use blueberry_os.FileTree.Create.{created, create_directory, create_file, blank_dir, blank_node}
use blueberry_os.FileTree.Shape.{IsTree, IsDir, all_below}
use blueberry_os.FileTree.Kept.{create_directory-IsTree}
use blueberry_os.FileTree.Found.{or_else, create_directory-get_directory_from_parent}
use blueberry_os.FileTree.Files.{create_file-get_file_from_parent}
use blueberry_os.FileTree.Paths.{IsComponent, nothing, first, path_of, descend, plain}
use blueberry_os.FileTree.Lookup.{file_behind, get_file_from-descend, get_directory_from_self}

abbrev a : Text
a = b'a' ∷ []

abbrev b : Text
b = b'b' ∷ []

abbrev tree : Tree
tree = record {
  dirs = λ d.
      if d == 0
      then record (blank_dir 0) { fullpath = b'/' ∷ []; name = b'/' ∷ []; directories = 1 ∷ [] }
      else record (blank_dir 0) { fullpath = b'/' ∷ b'a' ∷ []; name = a; files = 0 ∷ [] };
  nodes = λ f. record blank_node { name = b };
  next_dir = 2;
  next_node = 1;
}

root_fine : IsDir 2 1 (tree.dirs 0)
unfolding all_below
root_fine = record {
  few_directories = omega arith;
  few_files = omega arith;
  short_name = omega arith;
  short_path = omega arith;
  known_directories = refl;
  known_files = refl;
}

a_fine : IsDir 2 1 (tree.dirs 1)
unfolding all_below
a_fine = record {
  few_directories = omega arith;
  few_files = omega arith;
  short_name = omega arith;
  short_path = omega arith;
  known_directories = refl;
  known_files = refl;
}

fine : IsTree tree
fine = record {
  each_dir = λ d h. elim (Bool-cases (d == 0)) [
    | inl e ↦ subst (λ x. IsDir 2 1 (tree.dirs x)) (sym (==→eq d 0 e)) root_fine
    | inr e ↦
        let one : d ≡ 1 = ground arith in subst (λ x. IsDir 2 1 (tree.dirs x)) (sym one) a_fine
  ];
  each_node = λ f h. record { short_name = omega arith; short_path = omega arith };
}

a-IsComponent : IsComponent a
unfolding plain
a-IsComponent = record { some_byte = omega arith; no_slash = refl; short = omega arith }

b-IsComponent : IsComponent b
unfolding plain
b-IsComponent = record { some_byte = omega arith; no_slash = refl; short = omega arith }

create_directory-IsTree_example : IsTree (create_directory tree 0 b 493 1 1).0
create_directory-IsTree_example = create_directory-IsTree tree 0 b 493 1 1 fine (omega arith)

create_directory_example :
    ((create_directory tree 0 b 493 1 1).1 ≡ created 2)
    × ((other : Text) (redirect : Bool)
        → get_directory_from_parent (create_directory tree 0 b 493 1 1).0 0 other redirect
          ≡ or_else
              (get_directory_from_parent tree 0 other redirect)
              (if str_eq b (strip_slash other) then some 2 else none))
unfolding strip_slash
create_directory_example =
    create_directory-get_directory_from_parent tree 0 b 493 1 1 fine (omega arith) (omega arith)
      (omega arith) (omega arith)

create_file_example :
    ((create_file tree 1 a 420 1 1).1 ≡ created 1)
    × ((other : Text) (redirect : Bool)
        → get_file_from_parent (create_file tree 1 a 420 1 1).0 1 other redirect
          ≡ or_else
              (get_file_from_parent tree 1 other redirect)
              (if str_eq a other then some 1 else none))
unfolding strip_slash
create_file_example =
    create_file-get_file_from_parent tree 1 a 420 1 1 fine (omega arith) (omega arith) (omega arith)
      (omega arith)

get_file_from_example :
    get_file_from tree (some 0) (path_of (a ∷ []) b) true
    ≡ looked (file_behind tree (descend tree 0 (a ∷ [])) b true)
get_file_from_example =
    get_file_from-descend tree b b-IsComponent (a ∷ []) (first a-IsComponent nothing) 0 true

get_directory_from_self_example : get_directory_from tree (some 1) a true ≡ looked (some 1)
get_directory_from_self_example = get_directory_from_self tree 1 true a-IsComponent
