-- ===== src/FileTree/Initrd.antt =====
-- kernel/src/file.c: the tar archive that the tree is read from. A header is a record by its address;
-- `filename` is its text, and `size` and `mode` are the digits that are read. The kernel's user and
-- group are the indices 0.
use blueberry_os.Base.{
  ℕ, zero, suc, ◌+◌, ◌*◌, ◌/◌, ◌%◌, ◌==◌, Bool, true, not, ◌||◌, leb, ltb, if◌then◌else◌, Option,
  none, some, List, [], ◌∷◌, length, u32, add32, sub32,
}
use blueberry_os.Libc.Mem.{Mem, memcpy}
use blueberry_os.Memory.{FrameMap, kalloc_frames}
use blueberry_os.FileTree.{Text, Tree, Walk, found, hangs, aborts, find_parent, from, root_dir}
use blueberry_os.FileTree.Create.{
  attach_dir, set_dir, attach_file, blank_dir, blank_node, create_symbolic_directory, dot, dot_dot,
}

pub record TarHeader : Type 0 where
  pub filename : Text
  pub mode : List ℕ
  pub size : List ℕ
  pub typeflag : ℕ
  -- whether `magic` begins with "ustar"
  pub ustar : Bool

pub record Boot : Type 0 where
  pub tree : Tree
  pub frames : FrameMap
  pub mem : Mem

-- The state, `for (;;) {}` or an abort, or a loop that has not come to its end within the fuel.
pub data Loaded : Type 0 where
  loaded : Boot → Loaded
  halts : Loaded
  unfinished : Loaded

-- The loop of oct2bin, with the number so far.
unfoldable pub oct2bin_loop : ℕ → List ℕ → ℕ
oct2bin_loop n [] = n
oct2bin_loop n (c ∷ str) = oct2bin_loop (add32 (u32 (n * 8)) (sub32 c b'0')) str

unfoldable pub oct2bin : List ℕ → ℕ
oct2bin str = oct2bin_loop 0 str

unfoldable pub but_last : Text → Text
but_last [] = []
but_last (c ∷ []) = []
but_last (c ∷ d ∷ text) = c ∷ but_last (d ∷ text)

-- A directory with its entries `.` and `..`, whose results are not looked at.
unfoldable pub enter_directory : Tree → ℕ → Text → Text → ℕ → Tree
enter_directory t p fullpath name mode =
    let d = t.next_dir in
    let t1 =
      set_dir (attach_dir t p) d
        (record (blank_dir p) { fullpath = fullpath; name = name; mode = mode }) in
    let t2 = (create_symbolic_directory t1 d d dot mode 0 0).0 in
    (create_symbolic_directory t2 d p dot_dot (t2.dirs p).mode 0 0).0

-- parseDirectory behind findParent. For a name of 6 bytes memcpy gets the length -1, which halts here.
unfoldable pub directory_below : Boot → TarHeader → Walk → Loaded
directory_below s h hangs = halts
directory_below s h aborts = halts
directory_below s h (found none slash) = halts
directory_below s h (found (some p) slash) =
    if leb 32 (length (s.tree.dirs p).directories)
    then halts
    else if ltb 256 (sub32 (length h.filename) 6) || length h.filename == 6
    then halts
    else if ltb 64 (sub32 (length (from slash h.filename)) 1)
    then halts
    else loaded (record s {
      tree =
          enter_directory s.tree p (but_last (from 6 h.filename)) (but_last (from slash h.filename))
            (oct2bin h.mode);
    })

unfoldable pub parse_directory : Boot → TarHeader → Loaded
parse_directory s h = directory_below s h (find_parent s.tree none h.filename true)

-- The file with the frames for its content.
unfoldable pub fill_file : Boot → ℕ → TarHeader → ℕ → ℕ → Option (ℕ × FrameMap) → Loaded
fill_file s address h p slash none = halts
fill_file s address h p slash (some (content, frames)) =
    let filesize = oct2bin h.size in
    loaded (record {
      tree = attach_file s.tree p (record blank_node {
        fullpath = from 6 h.filename;
        name = from slash h.filename;
        parent = p;
        mode = oct2bin h.mode;
        size = filesize;
        frames = add32 filesize 4095 / 4096;
        content = content;
      });
      frames = frames;
      mem = (memcpy s.mem content (add32 address 512) filesize).1;
    })

-- parseFile behind findParent. An empty file asks kalloc_frames for no frames, and that never returns.
unfoldable pub file_below : Boot → ℕ → TarHeader → Walk → Loaded
file_below s address h hangs = halts
file_below s address h aborts = halts
file_below s address h (found none slash) = halts
file_below s address h (found (some p) slash) =
    let count = add32 (oct2bin h.size) 4095 / 4096 in
    if leb 32 (length (s.tree.dirs p).files)
    then halts
    else if ltb 256 (sub32 (length h.filename) 6)
    then halts
    else if ltb 64 (length (from slash h.filename))
    then halts
    else fill_file s address h p slash (kalloc_frames count s.frames)

unfoldable pub parse_file : Boot → ℕ → TarHeader → Loaded
parse_file s address h = file_below s address h (find_parent s.tree none h.filename true)

unfoldable pub parse_header : Boot → ℕ → TarHeader → Loaded
parse_header s address h =
    if h.typeflag == b'0'
    then parse_file s address h
    else if h.typeflag == b'5'
    then parse_directory s h
    else halts

-- `offset += 512 + (-size % 512) + size;`
unfoldable pub next_offset : ℕ → ℕ → ℕ
next_offset offset size = u32 (offset + (512 + sub32 0 size % 512 + size))

-- The `while` of loadInitrd, with fuel.
unfoldable pub load_loop : ℕ → (ℕ → TarHeader) → ℕ → ℕ → Boot → ℕ → Loaded
load_loop zero headers first last s offset = unfinished
load_loop (suc n) headers first last s offset =
    let address = add32 first offset in
    let h = headers address in
    let rest : Loaded = elim (parse_header s address h) [
      | loaded s' ↦ load_loop n headers first last s' (next_offset offset (oct2bin h.size))
      | halts ↦ halts
      | unfinished ↦ unfinished
    ] in
    if ltb last address then loaded s else if not h.ustar then loaded s else rest

-- The root directory, whose mode is that of the first header.
unfoldable pub root_tree : Tree → ℕ → Tree
root_tree t mode =
    let t1 =
      set_dir t root_dir
        (record (blank_dir 0) { fullpath = b'/' ∷ []; name = b'/' ∷ []; mode = mode }) in
    let t2 = (create_symbolic_directory t1 root_dir root_dir dot mode 0 0).0 in
    (create_symbolic_directory t2 root_dir root_dir dot_dot (t2.dirs root_dir).mode 0 0).0

unfoldable pub load_initrd : ℕ → (ℕ → TarHeader) → ℕ → ℕ → Boot → Loaded
load_initrd fuel headers tar_start tar_end s =
    load_loop fuel headers tar_start tar_end
      (record s { tree = root_tree s.tree (oct2bin (headers tar_start).mode) }) 512
