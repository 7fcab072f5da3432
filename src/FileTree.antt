-- ===== src/FileTree.antt =====
-- kernel/src/file.c: directories and files by their names.
-- The structures that kmalloc returns are entries of two tables, and a pointer is an index, `none` for
-- a null pointer. The arrays `directories` and `files` with their counts are lists. A text is its
-- bytes without the NUL.
pub mod Paths
pub mod Lookup
mod Tests
pub mod Create
pub mod Shape
pub mod Kept
pub mod Initrd
pub mod Found
pub mod Files
use blueberry_os.Base.{
  ℕ, zero, suc, ◌+◌, ◌-◌, ◌==◌, Bool, true, false, ◌&&◌, ◌||◌, leb, if◌then◌else◌, str_eq, Option,
  none, some, List, [], ◌∷◌, ◌++◌, length,
}

abbrev pub Text : Type 0
Text = List ℕ

pub record Directory : Type 0 where
  pub fullpath : Text
  pub name : Text
  pub mode : ℕ
  pub parent : ℕ
  pub directories : List ℕ
  pub files : List ℕ
  pub owner : ℕ
  pub group : ℕ
  -- whether the type is SYMBOLIC_DIR
  pub symbolic : Bool
  pub link : ℕ

pub record FileNode : Type 0 where
  pub fullpath : Text
  pub name : Text
  pub mode : ℕ
  pub parent : ℕ
  pub owner : ℕ
  pub group : ℕ
  pub size : ℕ
  -- whether the type is SYMBOLIC_FILE
  pub symbolic : Bool
  pub frames : ℕ
  pub link : ℕ
  pub content : ℕ

-- The next index that kmalloc has not given out, for each table.
pub record Tree : Type 0 where
  pub dirs : ℕ → Directory
  pub nodes : ℕ → FileNode
  pub next_dir : ℕ
  pub next_node : ℕ

-- `&rootDir`
abbrev pub root_dir : ℕ
root_dir = 0

abbrev pub max_directories : ℕ
max_directories = 32

abbrev pub max_files : ℕ
max_files = 32

abbrev pub max_name_length : ℕ
max_name_length = 64

abbrev pub max_full_path_length : ℕ
max_full_path_length = 256

-- The first of the files that has the name.
unfoldable pub find_node : (ℕ → FileNode) → Text → List ℕ → Option ℕ
find_node nodes name [] = none
find_node nodes name (f ∷ files) =
    if str_eq (nodes f).name name then some f else find_node nodes name files

unfoldable pub get_file_from_parent : Tree → ℕ → Text → Bool → Option ℕ
get_file_from_parent t parent name redirect = elim (find_node t.nodes name (t.dirs parent).files) [
  | none ↦ none
  | some f ↦ some (if (t.nodes f).symbolic && redirect then (t.nodes f).link else f)
]

-- A `/` at the end is cut off. Of an empty name the code reads the byte in front of it.
unfoldable pub strip_slash : Text → Text
strip_slash [] = []
strip_slash (c ∷ []) = if c == b'/' then [] else c ∷ []
strip_slash (c ∷ d ∷ name) = c ∷ strip_slash (d ∷ name)

unfoldable pub find_dir : (ℕ → Directory) → Text → List ℕ → Option ℕ
find_dir dirs name [] = none
find_dir dirs name (d ∷ directories) =
    if str_eq (dirs d).name name then some d else find_dir dirs name directories

unfoldable pub get_directory_from_parent : Tree → ℕ → Text → Bool → Option ℕ
get_directory_from_parent t parent name redirect =
    elim (find_dir t.dirs (strip_slash name) (t.dirs parent).directories) [
      | none ↦ none
      | some d ↦ some (if (t.dirs d).symbolic && redirect then (t.dirs d).link else d)
    ]

-- What findParent does: it returns a pointer and has set `*slash`, it never returns, or the kernel
-- aborts.
pub data Walk : Type 0 where
  found : Option ℕ → ℕ → Walk
  hangs : Walk
  aborts : Walk

-- Where a component of the path leads to.
pub data Target : Type 0 where
  to : ℕ → Target
  stop : Walk → Target

abbrev pub initrd : Text
initrd = b'i' ∷ b'n' ∷ b'i' ∷ b't' ∷ b'r' ∷ b'd' ∷ []

unfoldable pub component_target : Tree → Bool → Option ℕ → Text → ℕ → Target
component_target t init parent name slash =
    if (str_eq name initrd && init) || str_eq name [] then to root_dir else elim parent [
      | none ↦ stop hangs
      | some p ↦ elim (get_directory_from_parent t p name true) [
        | some q ↦ to q
        | none ↦ stop (if init then aborts else found none slash)
      ]
    ]

abbrev pub is_end : Text → Bool
is_end [] = true
is_end (c ∷ rest) = false

-- The loop of findParent at index `i`, with the characters since the last `/` in `name`.
unfoldable pub walk : Tree → Bool → Text → Option ℕ → Text → ℕ → ℕ → Walk
walk t init [] parent name i slash = found parent slash
walk t init (c ∷ rest) parent name i slash =
    let along = walk t init rest parent (name ++ c ∷ []) (i + 1) slash in
    let into : Walk = elim (component_target t init parent name (i + 1)) [
      | stop w ↦ w
      | to q ↦ walk t init rest (some q) [] (i + 1) (i + 1)
    ] in
    if c == b'/'
    then (if is_end rest
        then (if i == 0 then found (some root_dir) slash else found parent slash)
        else into)
    else if leb max_name_length (length name)
    then (if init then aborts else found none slash)
    else along

unfoldable pub find_parent : Tree → Option ℕ → Text → Bool → Walk
find_parent t parent filename init = walk t init filename parent [] 0 0

-- What a look-up gives back.
pub data Looked : Type 0 where
  looked : Option ℕ → Looked
  lost : Walk → Looked

-- `path + slash`
unfoldable pub from : ℕ → Text → Text
from zero path = path
from (suc n) [] = []
from (suc n) (c ∷ path) = from n path

-- getDirectoryFrom; getDirectory is the same from a null pointer and with a redirection.
unfoldable pub get_directory_from : Tree → Option ℕ → Text → Bool → Looked
get_directory_from t dir path redirect = elim (find_parent t dir path false) [
  | found none slash ↦ looked none
  | found (some p) slash ↦
      if str_eq (t.dirs p).name path
      then looked (some p)
      else looked (get_directory_from_parent t p (from slash path) redirect)
  | hangs ↦ lost hangs
  | aborts ↦ lost aborts
]

unfoldable pub get_directory : Tree → Text → Looked
get_directory t path = get_directory_from t none path true

-- getFileFrom, and getFile in the same way.
unfoldable pub get_file_from : Tree → Option ℕ → Text → Bool → Looked
get_file_from t dir path redirect = elim (find_parent t dir path false) [
  | found none slash ↦ looked none
  | found (some p) slash ↦ looked (get_file_from_parent t p (from slash path) redirect)
  | hangs ↦ lost hangs
  | aborts ↦ lost aborts
]

unfoldable pub get_file : Tree → Text → Looked
get_file t path = get_file_from t none path true

-- The texts between the semicolons.
unfoldable pub segments : Text → Text → List Text
segments segment [] = segment ∷ []
segments segment (c ∷ rest) =
    let next = segments [] rest in
    let on = segments (segment ++ c ∷ []) rest in if c == b';' then segment ∷ next else on

-- The loop of getFileWEnv.
unfoldable pub first_file : Tree → Text → List Text → Looked
first_file t path [] = looked none
first_file t path (segment ∷ rest) = elim (get_directory t segment) [
  | lost w ↦ lost w
  | looked none ↦ first_file t path rest
  | looked (some d) ↦ elim (get_file_from t (some d) path true) [
    | lost w ↦ lost w
    | looked (some f) ↦ looked (some f)
    | looked none ↦ first_file t path rest
  ]
]

unfoldable pub get_file_w_env : Tree → Text → Text → Looked
get_file_w_env t varpath path = first_file t path (segments [] varpath)
