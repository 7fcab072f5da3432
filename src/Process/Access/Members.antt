-- ===== src/Process/Access/Members.antt =====
-- The members of a group, and what addUserToGroup makes of them.
use blueberry_os.Base.{
  ℕ, zero, suc, ◌+◌, ◌==◌, ◌≡◌, ◌≤◌, ap, refl, ◌∙◌, arith, ◌||◌, if◌then◌else◌, Bool-cases, inl,
  inr, Option, none, some, List, [], ◌∷◌, set, ==→eq,
}
use blueberry_os.Process.Access.{
  User, Accounts, put, is_member, user_in_group, first_null, add_user_to_group,
}

-- Whether a pointer to a user of that number stands in the list depends on the numbers only.
is_member-uids :
    (users users' : ℕ → User) (uid : ℕ) (members : List (Option ℕ))
    → ((u : ℕ) → (users' u).uid ≡ (users u).uid)
    → is_member users' uid members ≡ is_member users uid members
unfolding is_member
is_member-uids users users' uid [] same = refl
is_member-uids users users' uid (none ∷ members) same = is_member-uids users users' uid members same
is_member-uids users users' uid (some u ∷ members) same =
    rw (same u, is_member-uids users users' uid members same) refl

first_null-ge : (slots : List (Option ℕ)) (i j : ℕ) → first_null slots i ≡ some j → i ≤ j
unfolding first_null
first_null-ge [] i j h = cc
first_null-ge (none ∷ slots) i j h = ground arith
first_null-ge (some p ∷ slots) i j h = ground (arith, first_null-ge slots (i + 1) j h)

-- A member that takes the first free place is found, and the others are found as before.
is_member-set :
    (users : ℕ → User) (uid u i k : ℕ) (members : List (Option ℕ))
    → first_null members i ≡ some (i + k)
    → is_member users uid (set members k (some u))
      ≡ ((users u).uid == uid || is_member users uid members)
unfolding is_member first_null
is_member-set users uid u i k [] h = cc
is_member-set users uid u i zero (none ∷ members) h = refl
is_member-set users uid u i (suc k) (none ∷ members) h =
    let h' : i ≡ i + suc k = ground arith in absurd (omega arith)
is_member-set users uid u i zero (some p ∷ members) h =
    let late = first_null-ge members (i + 1) (i + 0) h in absurd (omega arith)
is_member-set users uid u i (suc k) (some p ∷ members) h =
    ground (arith, is_member-set users uid u (i + 1) k members (h ∙ ap some (omega arith)))

-- There is a null pointer for a new member in the group, and one for a new group in the user.
pub record HasRoom (s : Accounts) (u g : ℕ) : Type 0 where
  pub gindex : ℕ
  pub uindex : ℕ
  pub member_room : first_null (s.groups g).members 0 ≡ some gindex
  pub group_room : first_null (s.users u).groups 0 ≡ some uindex

put_self :
    (users : ℕ → User) (u : ℕ) (user : User) (v : ℕ)
    → user.uid ≡ (users u).uid
    → (put users u user v).uid ≡ (users v).uid
put_self users u user v e = elim (Bool-cases (v == u)) [
  | inl same ↦ let at_u : v ≡ u = ==→eq v u same in rw (same, at_u) e
  | inr differ ↦ rw differ refl
]

-- addUserToGroup, where there is room for the member in the group and for the group in the user:
-- whoever has the user's number is a member of the group afterwards, and otherwise who is a member
-- of which group stays as it was.
pub user_in_group-add_user_to_group :
    (s : Accounts) (u g : ℕ)
    → HasRoom s u g
    → (v h : ℕ)
    → let s' = add_user_to_group s u g in
      user_in_group s'.users v (s'.groups h) ≡ (
        if h == g
        then (s.users u).uid == (s.users v).uid || user_in_group s.users v (s.groups g)
        else user_in_group s.users v (s.groups h))
unfolding add_user_to_group user_in_group
user_in_group-add_user_to_group s u g room v h =
    let e1 = room.member_room in
    let e2 = room.group_room in
    let user : User = record (s.users u) { groups = set (s.users u).groups room.uindex (some g) } in
    let users' = put s.users u user in
    let same_uids : (w : ℕ) → (users' w).uid ≡ (s.users w).uid =
      λ w. put_self s.users u user w refl in
    let uid = (s.users v).uid in
    elim (Bool-cases (h == g)) [
      | inl here ↦
          rw (e1, add_user_to_group, e2, here, same_uids v)
            (is_member-uids s.users users' uid (set (s.groups g).members room.gindex (some u))
                same_uids
              ∙ is_member-set s.users uid u 0 room.gindex (s.groups g).members
                  (e1 ∙ ap some (omega arith)))
      | inr away ↦
          rw (e1, add_user_to_group, e2, away, same_uids v)
            (is_member-uids s.users users' uid (s.groups h).members same_uids)
    ]
