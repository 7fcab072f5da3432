-- ===== src/Process/Tests.antt =====
-- The theorems on processes, applied to small tables.
use blueberry_os.Base.{
  ℕ, ◌+◌, ◌%◌, ◌==◌, ◌<◌, ◌≡◌, ◌≢◌, refl, inl, inr, arith, true, false, ◌||◌, if◌then◌else◌, none,
  some, List, [], ◌∷◌, get_elem?, replicate, flag,
}
use blueberry_os.Base.Int.{pos}
use blueberry_os.Process.Env.{Text, EnvVariable, set_env_variable}
use blueberry_os.Process.Env.Lookup.{value_of}
use blueberry_os.Process.Env.Set.{any_free, Fits, Succeeds, set_env_variable-Succeeds}
use blueberry_os.Process.Env.Unset.{Unique}
use blueberry_os.Process.Files.{
  Pfd, Descriptors, to_int, get_process_pfd, read_process_fd, write_process_fd, closed,
  close_process_fd,
}
use blueberry_os.Process.Files.Transfer.{Open, read_process_fd_lem}
use blueberry_os.Process.Files.WriteRead.{read_process_fd-write_process_fd}
use blueberry_os.Process.Files.Close.{close_process_fd-leaves_open}
use blueberry_os.Process.Access.{
  Accounts, Node, common_bit, file_access_allowed, directory_access_allowed, add_user_to_group,
  user_in_group, first_null,
}
use blueberry_os.Process.Access.Modes.{digit_for, access_allowed-digit}
use blueberry_os.Process.Access.Members.{user_in_group-add_user_to_group}

abbrev path : Text
path = 80 ∷ 65 ∷ []

abbrev home : Text
home = 72 ∷ 79 ∷ []

abbrev slash : Text
slash = 47 ∷ []

-- One variable with that name, and a free one.
abbrev variables : List EnvVariable
variables =
    record { key = path; value = slash; active = true }
    ∷ record { key = []; value = []; active = false }
    ∷ []

abbrev one_variable : List EnvVariable
one_variable = record { key = path; value = slash; active = true } ∷ []

path-Fits : Fits path home
path-Fits = record { key_fits = omega arith; value_fits = omega arith }

home-Fits : Fits home slash
home-Fits = record { key_fits = omega arith; value_fits = omega arith }

has_free : any_free variables ≡ true
unfolding any_free
has_free = refl

all_used : any_free one_variable ≡ false
unfolding any_free
all_used = refl

home_unset : value_of home one_variable ≡ none
unfolding value_of
home_unset = refl

unique : Unique one_variable
unfolding value_of
unique = (λ on. refl, tt)

set_env_variable_example : Succeeds path home variables (set_env_variable variables path home true)
set_env_variable_example = set_env_variable-Succeeds variables path home path-Fits (inl has_free)

-- A file of 10 bytes at 4096, open for reading at descriptor 3 and for writing at descriptor 4.
abbrev reader : Pfd
reader = record { position = 2; fd = 3; pointer = 0; flags = 1; active = true }

abbrev writer : Pfd
writer = record { position = 2; fd = 4; pointer = 0; flags = 2; active = true }

abbrev descriptors : Descriptors
descriptors = record {
  mem = λ a. a % 256;
  files = λ p. record { content = 4096; size = 10; frames = 1 };
  pfds = reader ∷ writer ∷ [];
  errnum = 0;
}

reads : flag 1 1 ≡ true
unfolding flag
reads = refl

writes : flag 2 2 ≡ true
unfolding flag
writes = refl

reader_plain : flag 1 4 ≡ false
unfolding flag
reader_plain = refl

writer_plain : flag 2 4 ≡ false
unfolding flag
writer_plain = refl

reader_index : get_process_pfd 3 ≡ some 0
unfolding get_process_pfd
reader_index = refl

writer_index : get_process_pfd 4 ≡ some 1
unfolding get_process_pfd
writer_index = refl

reader-Open : Open descriptors 3 0 reader
reader-Open = record { index = reader_index; held = refl; on = refl; plain = reader_plain }

writer-Open : Open descriptors 4 1 writer
writer-Open = record { index = writer_index; held = refl; on = refl; plain = writer_plain }

read_process_fd_example : (read_process_fd descriptors 100 5 3).0 ≡ to_int 5
read_process_fd_example =
    (read_process_fd_lem descriptors 100 5 3 0 reader reader-Open reads
      (omega arith, omega arith, omega arith) (inl (omega arith))).0

write_read_example :
    let w = write_process_fd (λ n. 65536) descriptors 100 5 4 in
    let r = read_process_fd w.1 200 5 3 in
    (w.0 ≡ to_int 5)
    × (r.0 ≡ to_int 5)
    × ((k : ℕ) → k < 5 → r.1.mem (200 + k) ≡ descriptors.mem (100 + k))
write_read_example =
    read_process_fd-write_process_fd (λ n. 65536) descriptors 100 200 5 4 3 1 0 writer reader
      writer-Open writes reader-Open reads (λ e. omega arith) refl refl (omega arith, omega arith)
      (omega arith) (omega arith) (inr (omega arith)) (inl (omega arith))

abbrev full_array : List Pfd
full_array = replicate 64 reader

close_example :
    (pfds' : List Pfd) × (close_process_fd full_array 5 ≡ closed (pos 0) pfds')
    × (get_elem? pfds' 2 ≡ some reader)
    × ((other : Pfd) × (get_elem? full_array 5 ≡ some other)
        × (get_elem? pfds' 5 ≡ some (record other { active = false })))
    × ((j : ℕ) → j ≢ 5 → get_elem? pfds' j ≡ get_elem? full_array j)
close_example =
    close_process_fd-leaves_open full_array 5 reader refl (omega arith) (omega arith) refl refl

abbrev accounts : Accounts
accounts = record {
  users = λ u. record { name = []; groups = replicate 4 none; uid = u; active = true };
  groups = λ g. record { name = []; members = replicate 8 none; gid = g; active = true };
}

-- `rwxr-x---`, that is 0750
abbrev node : Node
node = record { mode = 488; owner = 0; group = 1 }

access_example :
    (file_access_allowed accounts 2 node 4 ≡ common_bit 3 (digit_for accounts 2 node 7 5 0) 4)
    × (directory_access_allowed accounts 2 node 4
        ≡ common_bit 3 (digit_for accounts 2 node 7 5 0) 4)
access_example =
    access_allowed-digit accounts 2 node 7 5 0 4 refl (omega arith) (omega arith) (omega arith)
      (omega arith)

member_room : first_null (replicate 8 none) 0 ≡ some 0
unfolding first_null
member_room = refl

group_room : first_null (replicate 4 none) 0 ≡ some 0
unfolding first_null
group_room = refl

member_example :
    let s' = add_user_to_group accounts 2 1 in
    user_in_group s'.users 2 (s'.groups 1) ≡ (
      if 1 == 1
      then 2 == 2 || user_in_group accounts.users 2 (accounts.groups 1)
      else user_in_group accounts.users 2 (accounts.groups 1))
member_example =
    user_in_group-add_user_to_group accounts 2 1
      (record { gindex = 0; uindex = 0; member_room = member_room; group_room = group_room }) 2 1
