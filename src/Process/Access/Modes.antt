-- ===== src/Process/Access/Modes.antt =====
-- The access checks, by the three octal digits of a mode.
use blueberry_os.Base.{
  ℕ, zero, suc, ◌+◌, ◌*◌, ◌/◌, ◌%◌, ◌==◌, ◌≡◌, ◌<◌, refl, arith, false, if◌then◌else◌, Bool-cases,
  inl, inr,
}
use blueberry_os.Process.Access.{
  Accounts, Node, user_in_group, common_bit, shifted_mode, file_access_allowed,
  directory_access_allowed,
}

common_bit-zero : (n a : ℕ) → common_bit n a 0 ≡ false
unfolding common_bit
common_bit-zero zero a = refl
common_bit-zero (suc n) a = ground (arith, common_bit-zero n (a / 2))

-- Only the last octal digit counts, where the other number is one digit.
common_bit-digit :
    (n a d c : ℕ) → a % 8 ≡ d → c < 8 → common_bit (suc (suc (suc n))) a c ≡ common_bit 3 d c
unfolding common_bit
common_bit-digit n a d c e hc =
    let c0 : c / 2 / 2 / 2 ≡ 0 = omega arith in
    let e1 : a % 2 ≡ d % 2 = omega arith in
    let e2 : a / 2 % 2 ≡ d / 2 % 2 = omega arith in
    let e3 : a / 2 / 2 % 2 ≡ d / 2 / 2 % 2 = omega arith in
    rw (c0, e1, e2, e3, common_bit-zero n (a / 2 / 2 / 2)) refl

-- The digit of the mode that counts for a user.
abbrev pub digit_for : Accounts → ℕ → Node → ℕ → ℕ → ℕ → ℕ
digit_for s u node o g t =
    if (s.users node.owner).uid == (s.users u).uid
    then o
    else if user_in_group s.users u (s.groups node.group)
    then g
    else t

shifted_mode-digit :
    (s : Accounts) (u : ℕ) (node : Node) (o g t c : ℕ)
    → node.mode ≡ o * 64 + g * 8 + t
    → o < 8
    → g < 8
    → t < 8
    → c < 8
    → common_bit 32 (shifted_mode s u node) c ≡ common_bit 3 (digit_for s u node o g t) c
unfolding shifted_mode
shifted_mode-digit s u node o g t c e ho hg ht hc =
    let own = common_bit-digit 29 (node.mode / 64) o c (omega arith) hc in
    let shared = common_bit-digit 29 (node.mode / 8) g c (omega arith) hc in
    let others = common_bit-digit 29 node.mode t c (omega arith) hc in
    elim (Bool-cases ((s.users node.owner).uid == (s.users u).uid)) [
      | inl mine ↦ rw mine own
      | inr foreign ↦ elim (Bool-cases (user_in_group s.users u (s.groups node.group))) [
        | inl inside ↦ rw (foreign, inside) shared
        | inr stranger ↦ rw (foreign, stranger) others
      ]
    ]

-- The access checks for a mode of three octal digits: of a file and of a directory, the owner is
-- judged by the first digit only, any other member of the group by the second one only, and all
-- others by the third; access is given if one bit of the digit is asked for.
pub access_allowed-digit :
    (s : Accounts) (u : ℕ) (node : Node) (o g t check : ℕ)
    → node.mode ≡ o * 64 + g * 8 + t
    → o < 8
    → g < 8
    → t < 8
    → check < 8
    → (file_access_allowed s u node check ≡ common_bit 3 (digit_for s u node o g t) check)
      × (directory_access_allowed s u node check ≡ common_bit 3 (digit_for s u node o g t) check)
unfolding file_access_allowed directory_access_allowed
access_allowed-digit s u node o g t check e ho hg ht hc =
    let h = shifted_mode-digit s u node o g t check e ho hg ht hc in (h, h)
