-- ===== src/FileTree/Files.antt =====
-- createFile and the look-up of files by their names.
use blueberry_os.Base.{
  ℕ, ◌+◌, ◌==◌, ◌≡◌, ◌≤◌, ◌<◌, refl, arith, Bool, true, false, leb, ltb, if◌then◌else◌, List, [],
  ◌∷◌, ◌++◌, length, inl, inr, Bool-cases, Option-cases, sym, ◌∙◌, none, some, str_eq,
}
use blueberry_os.FileTree.{Text, FileNode, Tree, strip_slash, find_node, get_file_from_parent}
use blueberry_os.FileTree.Create.{
  created, name_too_long, path_too_long, attach_file, new_file, create_file,
}
use blueberry_os.FileTree.Shape.{all_below, and_both, IsTree}
use blueberry_os.FileTree.Found.{or_else}

find_node-append :
    (nodes : ℕ → FileNode) (name : Text) (fs : List ℕ) (f : ℕ)
    → find_node nodes name (fs ++ f ∷ [])
      ≡ or_else (find_node nodes name fs) (if str_eq (nodes f).name name then some f else none)
unfolding find_node or_else
find_node-append nodes name [] f = refl
find_node-append nodes name (x ∷ fs) f = elim (Bool-cases (str_eq (nodes x).name name)) [
  | inl here ↦ rw here refl
  | inr other ↦ rw other (find_node-append nodes name fs f)
]

find_node_same :
    (nodes nodes' : ℕ → FileNode) (n : ℕ)
    → ((k : ℕ) → k < n → nodes' k ≡ nodes k)
    → (name : Text) (fs : List ℕ) → all_below n fs ≡ true
    → find_node nodes' name fs ≡ find_node nodes name fs
unfolding find_node all_below
find_node_same nodes nodes' n same name [] h = refl
find_node_same nodes nodes' n same name (x ∷ fs) h =
    let (first, others) = and_both (ltb x n) (all_below n fs) h in
    rw (same x (ground (arith, first)), find_node_same nodes nodes' n same name fs others) refl

find_node_below :
    (nodes : ℕ → FileNode) (n : ℕ) (name : Text) (fs : List ℕ) (k : ℕ)
    → all_below n fs ≡ true
    → find_node nodes name fs ≡ some k
    → k < n
unfolding find_node all_below
find_node_below nodes n name [] k h e = absurd (ground (arith, e))
find_node_below nodes n name (x ∷ fs) k h e =
    let (first, others) = and_both (ltb x n) (all_below n fs) h in
    elim (Bool-cases (str_eq (nodes x).name name)) [
      | inl here ↦ ground (arith, e, here, first)
      | inr other ↦ find_node_below nodes n name fs k others (sym (rw other refl) ∙ e)
    ]

module _ (t : Tree) (parent : ℕ) (file : FileNode) (good : IsTree t) (known : parent < t.next_dir)
    (regular : file.symbolic ≡ false) where
  attach_file-listed :
      ((attach_file t parent file).dirs parent).files ≡ (t.dirs parent).files ++ t.next_node ∷ []
  unfolding attach_file
  attach_file-listed = let here : (parent == parent) ≡ true = ground arith in rw here refl

  attach_file-new : (attach_file t parent file).nodes t.next_node ≡ file
  unfolding attach_file
  attach_file-new = let here : (t.next_node == t.next_node) ≡ true = ground arith in rw here refl

  attach_file-old : (k : ℕ) → k < t.next_node → (attach_file t parent file).nodes k ≡ t.nodes k
  unfolding attach_file
  attach_file-old k h = let old : (k == t.next_node) ≡ false = ground arith in rw old refl

  attach_file-get_file_from_parent :
      (other : Text) (redirect : Bool)
      → get_file_from_parent (attach_file t parent file) parent other redirect
        ≡ or_else
            (get_file_from_parent t parent other redirect)
            (if str_eq file.name other then some t.next_node else none)
  unfolding or_else get_file_from_parent
  attach_file-get_file_from_parent other redirect =
      let fs = (t.dirs parent).files in
      let t' = attach_file t parent file in
      let below = (good.each_dir parent known).known_files in
      let found : find_node t'.nodes other (t'.dirs parent).files
          ≡ or_else (find_node t.nodes other fs)
              (if str_eq file.name other then some t.next_node else none) =
        rw
          (
            attach_file-listed,
            find_node-append t'.nodes other fs t.next_node,
            attach_file-new,
            find_node_same t.nodes t'.nodes t.next_node attach_file-old other fs below,
          )
          refl in
      elim (Option-cases (find_node t.nodes other fs)) [
        | inl absent ↦ elim (Bool-cases (str_eq file.name other)) [
          | inl same ↦
              rw (found, absent, same, attach_file-new, regular, get_file_from_parent, or_else) refl
          | inr different ↦ rw (found, absent, different, get_file_from_parent, or_else) refl
        ]
        | inr (k, e) ↦
            let low = find_node_below t.nodes t.next_node other fs k below e in
            rw (get_file_from_parent, or_else, found, e, attach_file-old k low) refl
      ]

-- createFile in a directory, of a tree in order, that has less than 32 files, with a name of at most
-- 64 bytes, a slash at its end apart, and a full path of at most 256: it returns the new file, and from
-- then on the look-up of any name in the directory gives what it gave before, or else the new file
-- where the name is its name.
pub create_file-get_file_from_parent :
    (t : Tree) (parent : ℕ) (name : Text) (mode owner group : ℕ)
    → IsTree t
    → parent < t.next_dir
    → length (t.dirs parent).files < 32
    → length (strip_slash name) ≤ 64
    → length (t.dirs parent).fullpath + length (strip_slash name) + 1 ≤ 256
    → ((create_file t parent name mode owner group).1 ≡ created t.next_node)
      × ((other : Text) (redirect : Bool)
          → get_file_from_parent
              (create_file t parent name mode owner group).0
              parent
              other
              redirect
            ≡ or_else
                (get_file_from_parent t parent other redirect)
                (if str_eq name other then some t.next_node else none))
unfolding create_file
create_file-get_file_from_parent t parent name mode owner group good known room short short_path =
    let free : leb 32 (length (t.dirs parent).files) ≡ false = ground arith in
    let name_fits : name_too_long name ≡ false = ground arith in
    let path_fits : path_too_long (t.dirs parent).fullpath name ≡ false = ground arith in
    rw (free, name_fits, path_fits)
      (
        refl,
        attach_file-get_file_from_parent t parent (new_file t parent name mode owner group) good
            known refl,
      )
