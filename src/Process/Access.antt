-- ===== src/Process/Access.antt =====
-- usermode.c: users, groups and the access that a process has to a file or a directory.
-- The tables `users` and `groups` are functions of an index, a pointer into one is an index, and a
-- null pointer is `none`.
pub mod Members
pub mod Modes
use blueberry_os.Base.{
  ℕ, zero, suc, ◌+◌, ◌/◌, ◌%◌, ◌==◌, Bool, true, false, not, ◌&&◌, ◌||◌, ltb, if◌then◌else◌, str_eq,
  Option, none, some, List, [], ◌∷◌, length, set, replicate,
}

pub record User : Type 0 where
  pub name : List ℕ
  pub groups : List (Option ℕ)
  pub uid : ℕ
  pub active : Bool

pub record Group : Type 0 where
  pub name : List ℕ
  pub members : List (Option ℕ)
  pub gid : ℕ
  pub active : Bool

pub record Accounts : Type 0 where
  pub users : ℕ → User
  pub groups : ℕ → Group

abbrev pub max_users : ℕ
max_users = 4

abbrev pub max_groups : ℕ
max_groups = 4

abbrev pub max_group_members : ℕ
max_group_members = 8

abbrev pub max_group_name_length : ℕ
max_group_name_length = 64

abbrev pub put {ℓ} : {A : Type ℓ} → (ℕ → A) → ℕ → A → ℕ → A
put table index v i = if i == index then v else table i

-- The loop of userInGroup over `members`.
unfoldable pub is_member : (ℕ → User) → ℕ → List (Option ℕ) → Bool
is_member users uid [] = false
is_member users uid (none ∷ members) = is_member users uid members
is_member users uid (some u ∷ members) = (users u).uid == uid || is_member users uid members

unfoldable pub user_in_group : (ℕ → User) → ℕ → Group → Bool
user_in_group users u group = is_member users (users u).uid group.members

-- The two loops of addUserToGroup: the first null pointer.
unfoldable pub first_null : List (Option ℕ) → ℕ → Option ℕ
first_null [] i = none
first_null (none ∷ slots) i = some i
first_null (some p ∷ slots) i = first_null slots (i + 1)

-- Both failures only print a message.
unfoldable pub add_user_to_group : Accounts → ℕ → ℕ → Accounts
add_user_to_group s u g = elim (first_null (s.groups g).members 0) [
  | none ↦ s
  | some gindex ↦ elim (first_null (s.users u).groups 0) [
    | none ↦ s
    | some uindex ↦ record s {
      groups =
          put s.groups g
            (record (s.groups g) { members = set (s.groups g).members gindex (some u) });
      users =
          put s.users u (record (s.users u) { groups = set (s.users u).groups uindex (some g) });
    }
  ]
]

-- `for (i = ...; i < ...; i++) if (...) break;` with `n` rounds left.
unfoldable pub first_where : (ℕ → Bool) → ℕ → ℕ → Option ℕ
first_where test zero i = none
first_where test (suc n) i =
    let rest = first_where test n (i + 1) in if test i then some i else rest

-- The index of the new group; `none` where the kernel aborts.
unfoldable pub create_group : Accounts → List ℕ → Option (ℕ × Accounts)
create_group s name = elim (first_where (λ i. not (s.groups i).active) max_groups 0) [
  | none ↦ none
  | some index ↦
      if ltb max_group_name_length (length name)
      then none
      else some (
        index,
        record s {
          groups = put s.groups index (record {
            name = name;
            members = replicate max_group_members none;
            gid = index;
            active = true;
          });
        },
      )
]

unfoldable pub get_user_by_uid : Accounts → ℕ → Option ℕ
get_user_by_uid s uid = first_where (λ i. (s.users i).active && (s.users i).uid == uid) max_users 0

unfoldable pub get_user_by_name : Accounts → List ℕ → Option ℕ
get_user_by_name s name =
    first_where (λ i. (s.users i).active && str_eq (s.users i).name name) max_users 0

unfoldable pub get_group_by_gid : Accounts → ℕ → Option ℕ
get_group_by_gid s gid =
    first_where (λ i. (s.groups i).active && (s.groups i).gid == gid) max_groups 0

-- What file_t and directory_t have in common: the mode, the owner and the group.
pub record Node : Type 0 where
  pub mode : ℕ
  pub owner : ℕ
  pub group : ℕ

-- `(a & b) > 0`, on numbers of `n` bits.
unfoldable pub common_bit : ℕ → ℕ → ℕ → Bool
common_bit zero a b = false
common_bit (suc n) a b = (a % 2 == 1 && b % 2 == 1) || common_bit n (a / 2) (b / 2)

-- `mode >> 6` for the owner, `mode >> 3` for a member of the group.
unfoldable pub shifted_mode : Accounts → ℕ → Node → ℕ
shifted_mode s u node =
    if (s.users node.owner).uid == (s.users u).uid
    then node.mode / 64
    else if user_in_group s.users u (s.groups node.group)
    then node.mode / 8
    else node.mode

-- `u` is the owner of the process.
unfoldable pub file_access_allowed : Accounts → ℕ → Node → ℕ → Bool
file_access_allowed s u file check = common_bit 32 (shifted_mode s u file) check

unfoldable pub directory_access_allowed : Accounts → ℕ → Node → ℕ → Bool
directory_access_allowed s u dir check = common_bit 32 (shifted_mode s u dir) check
