-- ===== src/FileTree/Lookup.antt =====
-- getFileFrom, getFile, getDirectoryFrom and getDirectory of kernel/src/file.c on whole paths.
use blueberry_os.Base.{
  ℕ, suc, ◌+◌, ◌≡◌, refl, arith, Bool, true, false, List, [], ◌∷◌, inl, inr, Option-cases, Option,
  none, some, str_eq, str_eq_refl,
}
use blueberry_os.FileTree.{
  Text, Tree, get_directory_from_parent, get_file_from_parent, component_target, walk, find_parent,
  looked, from, get_directory_from, get_file_from, get_file, root_dir,
}
use blueberry_os.FileTree.Paths.{
  IsComponent, Components, nothing, path_of, descend, lands, prefix, walk-path, lands-descend,
  lands_nowhere, from-path, path_of_some,
}

-- The look-up of the last component in the directory that has been found.
unfoldable pub file_behind : Tree → Option ℕ → Text → Bool → Option ℕ
file_behind t none last redirect = none
file_behind t (some q) last redirect = get_file_from_parent t q last redirect

unfoldable pub directory_behind : Tree → Option ℕ → Text → Bool → Option ℕ
directory_behind t none last redirect = none
directory_behind t (some q) last redirect = get_directory_from_parent t q last redirect

from_suc : (c : ℕ) (rest : Text) (n : ℕ) → from (suc n) (c ∷ rest) ≡ from n rest
unfolding from
from_suc c rest n = refl

module _ (t : Tree) (last : Text) (fine : IsComponent last) (cs : List Text)
    (all : Components cs) where
  find_parent_relative : (p : ℕ) → find_parent t (some p) (path_of cs last) false ≡ lands t p cs 0
  unfolding find_parent
  find_parent_relative p = walk-path t last fine cs all p 0

  find_parent_absolute :
      (parent : Option ℕ)
      → find_parent t parent (b'/' ∷ path_of cs last) false ≡ lands t root_dir cs 1
  unfolding find_parent walk component_target
  find_parent_absolute parent =
      rw (path_of_some t last fine cs all) (walk-path t last fine cs all root_dir 1)

  -- getFileFrom of a path whose components are joined by single slashes, each of 1 to 64 bytes, from
  -- a directory: it is the look-up of the last component in the directory that the look-ups of the
  -- others, one after the other, lead to, and a null pointer where one of these fails.
  pub get_file_from-descend :
      (p : ℕ) (redirect : Bool)
      → get_file_from t (some p) (path_of cs last) redirect
        ≡ looked (file_behind t (descend t p cs) last redirect)
  unfolding get_file_from file_behind
  get_file_from-descend p redirect = elim (Option-cases (descend t p cs)) [
    | inl e ↦
        let (s, gone) = lands_nowhere t last fine cs p 0 e in
        rw (find_parent_relative p, gone, e, get_file_from, file_behind) refl
    | inr (q, e) ↦
        let same : 0 + prefix cs ≡ prefix cs = omega arith in
        rw
          (
            find_parent_relative p,
            lands-descend t last fine cs p q 0 e,
            same,
            from-path t last fine cs,
            e,
            get_file_from,
            file_behind,
          )
          refl
  ]

  -- getFile of such a path with a slash in front: the same from the root directory.
  pub get_file-descend :
      get_file t (b'/' ∷ path_of cs last) ≡ looked (file_behind t (descend t root_dir cs) last true)
  unfolding get_file get_file_from file_behind
  get_file-descend = elim (Option-cases (descend t root_dir cs)) [
    | inl e ↦
        let (s, gone) = lands_nowhere t last fine cs root_dir 1 e in
        rw (find_parent_absolute none, gone, e, get_file_from, file_behind) refl
    | inr (q, e) ↦
        let same : 1 + prefix cs ≡ suc (prefix cs) = omega arith in
        rw
          (
            find_parent_absolute none,
            lands-descend t last fine cs root_dir q 1 e,
            same,
            from_suc b'/' (path_of cs last) (prefix cs),
            from-path t last fine cs,
            e,
            get_file_from,
            file_behind,
          )
          refl
  ]

  -- getDirectoryFrom of such a path, where the directory that the components in front lead to is not
  -- itself named by the whole path: the look-up of the last component in that directory, and a null
  -- pointer where a look-up in front fails.
  pub get_directory_from-descend :
      (p : ℕ) (redirect : Bool)
      → ((q : ℕ) → descend t p cs ≡ some q → str_eq (t.dirs q).name (path_of cs last) ≡ false)
      → get_directory_from t (some p) (path_of cs last) redirect
        ≡ looked (directory_behind t (descend t p cs) last redirect)
  unfolding get_directory_from directory_behind
  get_directory_from-descend p redirect other = elim (Option-cases (descend t p cs)) [
    | inl e ↦
        let (s, gone) = lands_nowhere t last fine cs p 0 e in
        rw (find_parent_relative p, gone, e, get_directory_from, directory_behind) refl
    | inr (q, e) ↦
        let same : 0 + prefix cs ≡ prefix cs = omega arith in
        rw
          (
            find_parent_relative p,
            lands-descend t last fine cs p q 0 e,
            same,
            other q e,
            from-path t last fine cs,
            e,
            get_directory_from,
            directory_behind,
          )
          refl
  ]

-- getDirectoryFrom of the name of the directory it starts from gives that directory back, also where
-- a directory of this name is in it.
pub get_directory_from_self :
    (t : Tree) (p : ℕ) (redirect : Bool)
    → IsComponent (t.dirs p).name
    → get_directory_from t (some p) (t.dirs p).name redirect ≡ looked (some p)
unfolding get_directory_from path_of lands
get_directory_from_self t p redirect fine =
    rw
      (
        find_parent_relative t (t.dirs p).name fine [] nothing p,
        str_eq_refl (t.dirs p).name,
        get_directory_from,
      )
      refl
