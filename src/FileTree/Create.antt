-- ===== src/FileTree/Create.antt =====
-- kernel/src/file.c: createDirectory, createSymbolicDirectory and createFile.
-- The last byte of an empty text is the byte in front of it in the code, and not a `/` here. Of a name
-- of 64 characters and a `/` the code finds the NUL in the next field.
use blueberry_os.Base.{
  ℕ, ◌+◌, ◌==◌, Bool, true, false, leb, ltb, if◌then◌else◌, [], ◌∷◌, ◌++◌, length,
}
use blueberry_os.FileTree.{
  Text, Directory, FileNode, Tree, strip_slash, max_directories, max_files, max_name_length,
  max_full_path_length,
}

-- What a creation returns: the pointer, or a null pointer and what `*errnum` is set to, 0 where it is
-- left alone.
pub data Created : Type 0 where
  created : ℕ → Created
  failed : ℕ → Created

abbrev pub enomem : ℕ
enomem = 12

abbrev pub enametoolong : ℕ
enametoolong = 36

-- What `memset(directory, 0, sizeof(directory_t))` leaves, but for the parent.
abbrev pub blank_dir : ℕ → Directory
blank_dir parent = record {
  fullpath = [];
  name = [];
  mode = 0;
  parent = parent;
  directories = [];
  files = [];
  owner = 0;
  group = 0;
  symbolic = false;
  link = 0;
}

abbrev pub blank_node : FileNode
blank_node = record {
  fullpath = [];
  name = [];
  mode = 0;
  parent = 0;
  owner = 0;
  group = 0;
  size = 0;
  symbolic = false;
  frames = 0;
  link = 0;
  content = 0;
}

-- kmalloc and memset, without an entry anywhere.
unfoldable pub allocate_dir : Tree → Tree
allocate_dir t = record t {
  dirs = λ k. if k == t.next_dir then blank_dir 0 else t.dirs k;
  next_dir = t.next_dir + 1;
}

unfoldable pub allocate_file : Tree → Tree
allocate_file t = record t {
  nodes = λ k. if k == t.next_node then blank_node else t.nodes k;
  next_node = t.next_node + 1;
}

-- `parent->directories[parent->directoryCount++] = directory; directory->parent = parent;`
unfoldable pub attach_dir : Tree → ℕ → Tree
attach_dir t parent = record t {
  dirs = λ k.
      if k == t.next_dir
      then blank_dir parent
      else if k == parent
      then record (t.dirs k) { directories = (t.dirs k).directories ++ t.next_dir ∷ [] }
      else t.dirs k;
  next_dir = t.next_dir + 1;
}

abbrev pub set_dir : Tree → ℕ → Directory → Tree
set_dir t d v = record t { dirs = λ k. if k == d then v else t.dirs k }

unfoldable pub ends_slash : Text → Bool
ends_slash [] = false
ends_slash (c ∷ []) = c == b'/'
ends_slash (c ∷ d ∷ text) = ends_slash (d ∷ text)

-- The full path of what has the name in the directory with the full path `parent`.
unfoldable pub join_path : Text → Text → Text
join_path parent name =
    (if ends_slash parent then parent else parent ++ b'/' ∷ []) ++ strip_slash name

abbrev pub fields : Tree → ℕ → Text → ℕ → ℕ → ℕ → Bool → ℕ → Directory
fields t parent name mode owner group symbolic link = record {
  fullpath = join_path (t.dirs parent).fullpath name;
  name = name;
  mode = mode;
  parent = parent;
  directories = [];
  files = [];
  owner = owner;
  group = group;
  symbolic = symbolic;
  link = link;
}

abbrev pub name_too_long : Text → Bool
name_too_long name = ltb max_name_length (length (strip_slash name))

abbrev pub path_too_long : Text → Text → Bool
path_too_long parent name = ltb max_full_path_length (length parent + length (strip_slash name) + 1)

unfoldable pub create_symbolic_directory : Tree → ℕ → ℕ → Text → ℕ → ℕ → ℕ → Tree × Created
create_symbolic_directory t parent link name mode owner group =
    let d = t.next_dir in
    let t1 = attach_dir t parent in
    if leb max_directories (length (t.dirs parent).directories)
    then (t, failed enomem)
    else if name_too_long name
    then (t1, failed enametoolong)
    else if path_too_long (t1.dirs parent).fullpath name
    then (t1, failed enametoolong)
    else (set_dir t1 d (fields t1 parent name mode owner group true link), created d)

abbrev pub dot : Text
dot = b'.' ∷ []

abbrev pub dot_dot : Text
dot_dot = b'.' ∷ b'.' ∷ []

-- The entries `.` and `..` of a directory; what creating them returns is not looked at.
unfoldable pub add_dots : Tree → ℕ → ℕ → Tree
add_dots t d parent =
    let one = t.dirs d in
    let t1 = (create_symbolic_directory t d d dot one.mode one.owner one.group).0 in
    let up = t1.dirs parent in
    (create_symbolic_directory t1 d parent dot_dot up.mode up.owner up.group).0

-- The structure is allocated before the parent's count is looked at.
unfoldable pub create_directory : Tree → ℕ → Text → ℕ → ℕ → ℕ → Tree × Created
create_directory t parent name mode owner group =
    let d = t.next_dir in
    let t1 = attach_dir t parent in
    if leb max_directories (length (t.dirs parent).directories)
    then (allocate_dir t, failed enomem)
    else if name_too_long name
    then (t1, failed enametoolong)
    else if path_too_long (t1.dirs parent).fullpath name
    then (t1, failed enametoolong)
    else (
      add_dots (set_dir t1 d (fields t1 parent name mode owner group false 0)) d parent,
      created d,
    )

-- The file is entered into the parent behind the tests of the lengths.
unfoldable pub attach_file : Tree → ℕ → FileNode → Tree
attach_file t parent file = record t {
  dirs = λ k.
      if k == parent
      then record (t.dirs k) { files = (t.dirs k).files ++ t.next_node ∷ [] }
      else t.dirs k;
  nodes = λ k. if k == t.next_node then file else t.nodes k;
  next_node = t.next_node + 1;
}

abbrev pub new_file : Tree → ℕ → Text → ℕ → ℕ → ℕ → FileNode
new_file t parent name mode owner group = record {
  fullpath = join_path (t.dirs parent).fullpath name;
  name = name;
  mode = mode;
  parent = parent;
  owner = owner;
  group = group;
  size = 0;
  symbolic = false;
  frames = 0;
  link = 0;
  content = 0;
}

unfoldable pub create_file : Tree → ℕ → Text → ℕ → ℕ → ℕ → Tree × Created
create_file t parent name mode owner group =
    if leb max_files (length (t.dirs parent).files)
    then (t, failed 0)
    else if name_too_long name
    then (allocate_file t, failed enametoolong)
    else if path_too_long (t.dirs parent).fullpath name
    then (allocate_file t, failed enametoolong)
    else (attach_file t parent (new_file t parent name mode owner group), created t.next_node)
