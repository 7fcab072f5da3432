-- ===== src/Process/Open/Tests.antt =====
-- The theorems on openProcessFile and getDirectoryEntries, applied to a root directory with the file `b`.
use blueberry_os.Base.{false, none, [], ◌∷◌, List, length, take, drop, add32, arith, ◌*◌, ◌/◌, ◌≡◌}
use blueberry_os.FileTree.{Text, Tree}
use blueberry_os.FileTree.Create.{blank_dir, blank_node}
use blueberry_os.Process.Files.{Pfd}
use blueberry_os.Process.Open.{Opening, open_process_file}
use blueberry_os.Process.Open.Entries.{
  Dirent, listing, listed, list_directory, list_directory-listing,
}
use blueberry_os.Process.Open.Outcome.{Outcome, open_process_file-Outcome}

abbrev b : Text
b = b'b' ∷ []

abbrev tree : Tree
tree = record {
  dirs = λ d. record (blank_dir 0) {
    fullpath = b'/' ∷ [];
    name = b'/' ∷ [];
    mode = 493;
    files = 0 ∷ [];
    owner = 0;
    group = 0;
  };
  nodes = λ f. record blank_node { name = b; mode = 420 };
  next_dir = 1;
  next_node = 1;
}

abbrev idle : Pfd
idle = record { position = 7; fd = 0; pointer = 0; flags = 0; active = false }

abbrev root : Opening
root = record {
  tree = tree;
  accounts = record {
    users = λ u. record { name = []; groups = none ∷ []; uid = u; active = false };
    groups = λ g. record { name = []; members = none ∷ []; gid = g; active = false };
  };
  mem = λ a. 0;
  owner = 0;
  cwdir = 0;
  pfds = idle ∷ idle ∷ [];
}

open_process_file_example : Outcome root 1 (open_process_file root b 1 0)
open_process_file_example = open_process_file-Outcome root b 1 0

list_directory_example :
    (found : List Dirent) × (found
      ≡ take (1000 / 268) (drop (0 / 268) (listing tree (tree.dirs 0))))
    × (list_directory tree (tree.dirs 0) 1000 0
        ≡ listed found (length found * 268) (add32 0 (length found * 268)))
list_directory_example =
    list_directory-listing tree (tree.dirs 0) (omega arith) (omega arith) 1000 0 (omega arith)
      (omega arith)
