-- ===== src/Process/Open.antt =====
-- usermode.c: openProcessFile, over the file tree, the accounts and the descriptors.
-- `pointer` of a descriptor is an index of the tree: a directory where O_DIRECTORY is among its flags,
-- a file otherwise. A directory or a file always has an owner and a group.
pub mod Outcome
pub mod Stat
pub mod Entries
mod Tests
use blueberry_os.Base.{
  ℕ, zero, suc, ◌+◌, ◌==◌, Bool, true, false, not, ◌&&◌, ◌||◌, if◌then◌else◌, Option, none, some,
  List, [], ◌∷◌, get_elem?, set, flag,
}
use blueberry_os.Libc.Mem.{Mem, memset}
use blueberry_os.FileTree.{
  Text, Directory, FileNode, Tree, Walk, found, hangs, aborts, Looked, looked, lost, from,
  find_parent, get_directory_from, get_file_from,
}
use blueberry_os.FileTree.Create.{Created, created, failed, create_directory, create_file}
use blueberry_os.Process.Access.{Accounts, Node, file_access_allowed, directory_access_allowed}
use blueberry_os.Process.Files.{Pfd, o_rdonly, o_wronly, o_directory, frame_4kb}

-- The process that opens, and what it shares with the others.
pub record Opening : Type 0 where
  pub tree : Tree
  pub accounts : Accounts
  pub mem : Mem
  pub owner : ℕ
  pub cwdir : ℕ
  pub pfds : List Pfd

-- The descriptor, -1 with what `*errnum` is set to, 0 where it is left alone, or no return.
pub data Opened : Type 0 where
  opened : ℕ → Opened
  denied : ℕ → Opened
  never : Walk → Opened

abbrev pub o_trunc : ℕ
o_trunc = 8

abbrev pub o_creat : ℕ
o_creat = 16

abbrev pub p_read : ℕ
p_read = 4

abbrev pub p_write : ℕ
p_write = 2

abbrev pub enoent : ℕ
enoent = 2

abbrev pub no_memory : ℕ
no_memory = 12

abbrev pub eacces : ℕ
eacces = 13

abbrev pub eisdir : ℕ
eisdir = 21

abbrev pub einval : ℕ
einval = 22

-- The first descriptor that is not active, from index `i` on.
unfoldable pub first_inactive : List Pfd → ℕ → Option ℕ
first_inactive [] i = none
first_inactive (pfd ∷ pfds) i =
    let rest = first_inactive pfds (i + 1) in if not pfd.active then some i else rest

abbrev pub dir_node : Tree → ℕ → Node
dir_node t d = record { mode = (t.dirs d).mode; owner = (t.dirs d).owner; group = (t.dirs d).group }

abbrev pub file_node : Tree → ℕ → Node
file_node t f = record {
  mode = (t.nodes f).mode;
  owner = (t.nodes f).owner;
  group = (t.nodes f).group;
}

-- `process->owner->groups[0]`, or else the group of the parent.
unfoldable pub group_for : List (Option ℕ) → ℕ → ℕ
group_for [] parent_group = parent_group
group_for (none ∷ groups) parent_group = parent_group
group_for (some g ∷ groups) parent_group = g

-- Where something new may be created: the parent and the index of the name in the path.
pub data Place : Type 0 where
  place : ℕ → ℕ → Place
  refuse : ℕ → Place
  astray : Walk → Place

unfoldable pub place_for : Opening → Text → ℕ → Place
place_for s pathname flags =
    if not (flag flags o_creat)
    then refuse enoent
    else elim (find_parent s.tree (some s.cwdir) pathname false) [
      | hangs ↦ astray hangs
      | aborts ↦ astray aborts
      | found none slash ↦ refuse enoent
      | found (some p) slash ↦
          if not (directory_access_allowed s.accounts s.owner (dir_node s.tree p) p_write)
          then refuse eacces
          else place p slash
    ]

-- What the path leads to, created where it was not there.
pub data Resolved : Type 0 where
  got : ℕ → Tree → Resolved
  refused : ℕ → Tree → Resolved
  gone : Walk → Resolved

unfoldable pub made : Tree × Created → Resolved
made (t, created d) = got d t
made (t, failed e) = refused e t

abbrev pub owner_groups : Opening → List (Option ℕ)
owner_groups s = (s.accounts.users s.owner).groups

unfoldable pub resolve_directory : Opening → Text → ℕ → ℕ → Resolved
resolve_directory s pathname flags permissions =
    elim (get_directory_from s.tree (some s.cwdir) pathname true) [
      | lost w ↦ gone w
      | looked (some d) ↦ got d s.tree
      | looked none ↦ elim (place_for s pathname flags) [
        | astray w ↦ gone w
        | refuse e ↦ refused e s.tree
        | place p slash ↦ made (
            create_directory s.tree p (from slash pathname) permissions s.owner
              (group_for (owner_groups s) (s.tree.dirs p).group))
      ]
    ]

unfoldable pub resolve_file : Opening → Text → ℕ → ℕ → Resolved
resolve_file s pathname flags permissions =
    elim (get_file_from s.tree (some s.cwdir) pathname true) [
      | lost w ↦ gone w
      | looked (some f) ↦ got f s.tree
      | looked none ↦ elim (place_for s pathname flags) [
        | astray w ↦ gone w
        | refuse e ↦ refused e s.tree
        | place p slash ↦ made (
            create_file s.tree p (from slash pathname) permissions s.owner
              (group_for (owner_groups s) (s.tree.dirs p).group))
      ]
    ]

-- `pfd->position = 0; pfd->fd = index + 3; pfd->flags = flags; pfd->active = true; return pfd->fd;`
unfoldable pub activate : Opening → ℕ → ℕ → ℕ → Opened × Opening
activate s i pointer flags = (
  opened (i + 3),
  record s {
    pfds =
        set s.pfds i
          (record { position = 0; fd = i + 3; pointer = pointer; flags = flags; active = true });
  },
)

-- What happens behind the look-up of a directory.
unfoldable pub use_directory : Opening → ℕ → ℕ → Resolved → Opened × Opening
use_directory s i flags (gone w) = (never w, s)
use_directory s i flags (refused e t) = (denied e, record s { tree = t })
use_directory s i flags (got d t) =
    if not (directory_access_allowed s.accounts s.owner (dir_node t d) p_read)
    then (denied eacces, record s { tree = t })
    else activate (record s { tree = t }) i d flags

-- The pointer of a descriptor that is not active.
unfoldable pub set_pointer : List Pfd → ℕ → ℕ → List Pfd
set_pointer [] i pointer = []
set_pointer (pfd ∷ pfds) zero pointer = record pfd { pointer = pointer } ∷ pfds
set_pointer (pfd ∷ pfds) (suc i) pointer = pfd ∷ set_pointer pfds i pointer

-- `memset(file->content, 0, file->size); file->size = 0;`
unfoldable pub truncate : Opening → ℕ → Opening
truncate s f =
    let file = s.tree.nodes f in
    record s {
      mem = (memset s.mem file.content 0 file.size).1;
      tree = record s.tree {
        nodes = λ k. if k == f then record file { size = 0 } else s.tree.nodes k;
      };
    }

-- What happens behind the look-up of a file.
unfoldable pub use_file : Opening → ℕ → ℕ → Resolved → Opened × Opening
use_file s i flags (gone w) = (never w, s)
use_file s i flags (refused e t) = (denied e, record s { tree = t })
use_file s i flags (got f t) =
    let s' : Opening = record s { tree = t } in
    if not (file_access_allowed s.accounts s.owner (file_node t f) p_read)
    then (denied eacces, s')
    else if not (flag flags o_trunc)
    then activate s' i f flags
    else if not (file_access_allowed s.accounts s.owner (file_node t f) p_write)
    then (denied eacces, record s' { pfds = set_pointer s.pfds i f })
    else activate (truncate s' f) i f flags

unfoldable pub open_process_file : Opening → Text → ℕ → ℕ → Opened × Opening
open_process_file s pathname flags permissions =
    if (not (flag flags o_rdonly) && not (flag flags o_wronly))
      || (flag flags o_rdonly && flag flags o_trunc)
    then (denied einval, s)
    else if (flag flags o_wronly || flag flags o_trunc) && flag flags o_directory
    then (denied eisdir, s)
    else elim (first_inactive s.pfds 0) [
      | none ↦ (denied no_memory, s)
      | some i ↦
          if flag flags o_directory
          then use_directory s i flags (resolve_directory s pathname flags permissions)
          else use_file s i flags (resolve_file s pathname flags permissions)
    ]
