-- ===== src/Process/Open/Stat.antt =====
-- usermode.c: statPath.
use blueberry_os.Base.{ℕ, ◌+◌, Bool, not, if◌then◌else◌, none, some}
use blueberry_os.FileTree.{Text, Walk, looked, lost, get_directory_from, get_file_from}
use blueberry_os.Process.Access.{file_access_allowed, directory_access_allowed}
use blueberry_os.Process.Files.{frame_4kb}
use blueberry_os.Process.Open.{Opening, dir_node, file_node, p_read, enoent, eacces}

-- The fields of `struct stat` that are not 0.
pub record Stat : Type 0 where
  pub st_mode : ℕ
  pub st_blksize : ℕ
  pub st_size : ℕ
  pub st_uid : ℕ
  pub st_gid : ℕ

pub data Stated : Type 0 where
  stated : Stat → Stated
  no_stat : ℕ → Stated
  no_end : Walk → Stated

-- The bit of the type is added: the mode has the bits of the permissions only. `directory_size` is
-- the size of directory_t.
unfoldable pub stat_path : ℕ → Opening → Text → Bool → Stated
stat_path directory_size s path redirect =
    elim (get_file_from s.tree (some s.cwdir) path redirect) [
      | lost w ↦ no_end w
      | looked none ↦ elim (get_directory_from s.tree (some s.cwdir) path redirect) [
        | lost w ↦ no_end w
        | looked none ↦ no_stat enoent
        | looked (some d) ↦
            let dir = s.tree.dirs d in
            if not (directory_access_allowed s.accounts s.owner (dir_node s.tree d) p_read)
            then no_stat eacces
            else stated (record {
              st_mode = dir.mode + 16384;
              st_blksize = frame_4kb;
              st_size = directory_size;
              st_uid = (s.accounts.users dir.owner).uid;
              st_gid = (s.accounts.groups dir.group).gid;
            })
      ]
      | looked (some f) ↦
          let file = s.tree.nodes f in
          if not (file_access_allowed s.accounts s.owner (file_node s.tree f) p_read)
          then no_stat eacces
          else stated (record {
            st_mode = file.mode + 32768;
            st_blksize = frame_4kb;
            st_size = file.size;
            st_uid = (s.accounts.users file.owner).uid;
            st_gid = (s.accounts.groups file.group).gid;
          })
    ]
