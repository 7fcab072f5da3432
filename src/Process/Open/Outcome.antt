-- ===== src/Process/Open/Outcome.antt =====
-- What openProcessFile does to the descriptors, on each of its ways.
use blueberry_os.Base.{
  ℕ, zero, suc, ◌+◌, ◌==◌, ◌≡◌, ◌≢◌, ◌<◌, refl, arith, Bool, true, false, not, ◌&&◌, ◌||◌,
  if◌then◌else◌, Option, none, some, List, [], ◌∷◌, length, get_elem?, flag, inl, inr, Bool-cases,
  Option-cases, sym, ◌∙◌, ap, subst, ==→eq, get_elem?-set_self, get_elem?-set_ne,
}
use blueberry_os.FileTree.{Text, Tree}
use blueberry_os.Process.Access.{file_access_allowed, directory_access_allowed}
use blueberry_os.Process.Files.{Pfd, o_rdonly, o_wronly, o_directory}
use blueberry_os.Process.Open.{
  Opening, Opened, opened, denied, never, o_trunc, p_read, p_write, first_inactive, dir_node,
  file_node, Resolved, got, refused, gone, resolve_directory, resolve_file, activate, set_pointer,
  truncate, use_directory, use_file, open_process_file,
}

-- What a descriptor leads to may be read by the process.
abbrev pub readable : Opening → Pfd → Bool
readable s pfd =
    if flag pfd.flags o_directory
    then directory_access_allowed s.accounts s.owner (dir_node s.tree pfd.pointer) p_read
    else file_access_allowed s.accounts s.owner (file_node s.tree pfd.pointer) p_read

-- A descriptor that was not active is active, at position 0 and with the flags; no other has changed.
pub record Opens (s : Opening) (flags fd : ℕ) (s' : Opening) : Type 0 where
  pub index : ℕ
  pub number : fd ≡ index + 3
  pub was_free : (pfd : Pfd) × (get_elem? s.pfds index ≡ some pfd) × (pfd.active ≡ false)
  pub pfd : Pfd
  pub there : get_elem? s'.pfds index ≡ some pfd
  pub active : pfd.active ≡ true
  pub position : pfd.position ≡ 0
  pub same_flags : pfd.flags ≡ flags
  pub same_fd : pfd.fd ≡ fd
  pub others : (j : ℕ) → index ≢ j → get_elem? s'.pfds j ≡ get_elem? s.pfds j
  pub may_read : readable s' pfd ≡ true

-- The active descriptors are the same.
pub record OpensNone (s s' : Opening) : Type 0 where
  pub stays :
      (j : ℕ) (pfd : Pfd)
      → get_elem? s.pfds j ≡ some pfd
      → pfd.active ≡ true
      → get_elem? s'.pfds j ≡ some pfd
  pub no_other :
      (j : ℕ) (pfd : Pfd)
      → get_elem? s'.pfds j ≡ some pfd
      → pfd.active ≡ true
      → get_elem? s.pfds j ≡ some pfd

unfoldable pub Outcome : Opening → ℕ → Opened × Opening → Type 0
Outcome s flags (opened fd, s') = Opens s flags fd s'
Outcome s flags (denied e, s') = OpensNone s s'
Outcome s flags (never w, s') = OpensNone s s'

abbrev active_of : Option Pfd → Bool
active_of none = false
active_of (some pfd) = pfd.active

first_inactive-get_elem? :
    (pfds : List Pfd) (i0 i : ℕ)
    → first_inactive pfds i0 ≡ some i
    → (k : ℕ) × (i ≡ i0 + k) × ((pfd : Pfd) × (get_elem? pfds k ≡ some pfd) × (pfd.active ≡ false))
unfolding first_inactive
first_inactive-get_elem? [] i0 i e = absurd (ground (arith, e))
first_inactive-get_elem? (pfd ∷ pfds) i0 i e = elim (Bool-cases pfd.active) [
  | inl live ↦
      let (k, at_k, found) = first_inactive-get_elem? pfds (i0 + 1) i (sym (rw live refl) ∙ e) in
      (suc k, omega (arith, at_k), found)
  | inr free ↦
      let here : some i0 ≡ some i = sym (rw free refl) ∙ e in
      (0, ground (arith, here), (pfd, refl, free))
]

first_inactive-free :
    (pfds : List Pfd) (i : ℕ)
    → first_inactive pfds 0 ≡ some i
    → (pfd : Pfd) × (get_elem? pfds i ≡ some pfd) × (pfd.active ≡ false)
first_inactive-free pfds i e =
    let (k, at_k, (pfd, found, free)) = first_inactive-get_elem? pfds 0 i e in
    let same : i ≡ k = omega (arith, at_k) in
    (pfd, subst (λ x. get_elem? pfds x ≡ some pfd) (sym same) found, free)

get_elem?_below :
    (pfds : List Pfd) (i : ℕ) (pfd : Pfd) → get_elem? pfds i ≡ some pfd → i < length pfds
get_elem?_below [] i pfd e = absurd (ground (arith, e))
get_elem?_below (x ∷ pfds) zero pfd e = omega arith
get_elem?_below (x ∷ pfds) (suc i) pfd e = omega (arith, get_elem?_below pfds i pfd e)

set_pointer_self :
    (pfds : List Pfd) (i pointer : ℕ) (pfd : Pfd)
    → get_elem? pfds i ≡ some pfd
    → (pfd' : Pfd) × (get_elem? (set_pointer pfds i pointer) i ≡ some pfd')
      × (pfd'.active ≡ pfd.active)
unfolding set_pointer
set_pointer_self [] i pointer pfd e = absurd (ground (arith, e))
set_pointer_self (x ∷ pfds) zero pointer pfd e =
    (record x { pointer = pointer }, refl, ap active_of e)
set_pointer_self (x ∷ pfds) (suc i) pointer pfd e = set_pointer_self pfds i pointer pfd e

set_pointer_ne :
    (pfds : List Pfd) (i j pointer : ℕ)
    → i ≢ j
    → get_elem? (set_pointer pfds i pointer) j ≡ get_elem? pfds j
unfolding set_pointer
set_pointer_ne [] i j pointer ne = refl
set_pointer_ne (x ∷ pfds) zero zero pointer ne = absurd (ne refl)
set_pointer_ne (x ∷ pfds) zero (suc j) pointer ne = refl
set_pointer_ne (x ∷ pfds) (suc i) zero pointer ne = refl
set_pointer_ne (x ∷ pfds) (suc i) (suc j) pointer ne =
    set_pointer_ne pfds i j pointer (λ e. ne (ap suc e))

OpensNone-refl : (s : Opening) → OpensNone s s
OpensNone-refl s = record { stays = λ j q e live. e; no_other = λ j q e live. e }

-- A free descriptor, and what may happen to it.
module _ (s : Opening) (flags i : ℕ) (pfd : Pfd) (found : get_elem? s.pfds i ≡ some pfd)
    (free : pfd.active ≡ false) where
  none_opened : (t : Tree) → OpensNone s (record s { tree = t })
  none_opened t = record { stays = λ j q e live. e; no_other = λ j q e live. e }

  activate-Opens :
      (s' : Opening) (pointer : ℕ)
      → s'.pfds ≡ s.pfds
      → readable s'
          (record { position = 0; fd = i + 3; pointer = pointer; flags = flags; active = true })
        ≡ true
      → Outcome s flags (activate s' i pointer flags)
  unfolding activate Outcome
  activate-Opens s' pointer same may =
      let new : Pfd = record {
        position = 0;
        fd = i + 3;
        pointer = pointer;
        flags = flags;
        active = true;
      } in
      let below : i < length s'.pfds = rw same (get_elem?_below s.pfds i pfd found) in
      record {
        index = i;
        number = refl;
        was_free = (pfd, found, free);
        pfd = new;
        there = get_elem?-set_self s'.pfds i new below;
        active = refl;
        position = refl;
        same_flags = refl;
        same_fd = refl;
        others = λ j ne. get_elem?-set_ne s'.pfds i j new ne ∙ ap (λ x. get_elem? x j) same;
        may_read = may;
      }

  set_pointer-OpensNone :
      (t : Tree) (pointer : ℕ)
      → OpensNone s (record s { tree = t; pfds = set_pointer s.pfds i pointer })
  set_pointer-OpensNone t pointer =
      let (pfd', there, same) = set_pointer_self s.pfds i pointer pfd found in
      record {
        stays = λ j q e live. elim (Bool-cases (i == j)) [
          | inl here ↦
              let at_i : get_elem? s.pfds i ≡ some q =
                subst (λ x. get_elem? s.pfds x ≡ some q) (sym (==→eq i j here)) e in
              let clash : pfd.active ≡ q.active = ap active_of (sym found ∙ at_i) in
              absurd (ground (arith, clash, free, live))
          | inr other ↦ set_pointer_ne s.pfds i j pointer (ground arith) ∙ e
        ];
        no_other = λ j q e live. elim (Bool-cases (i == j)) [
          | inl here ↦
              let at_i : get_elem? (set_pointer s.pfds i pointer) i ≡ some q =
                subst (λ x. get_elem? (set_pointer s.pfds i pointer) x ≡ some q)
                  (sym (==→eq i j here)) e in
              let clash : pfd'.active ≡ q.active = ap active_of (sym there ∙ at_i) in
              absurd (ground (arith, clash, same, free, live))
          | inr other ↦ sym (set_pointer_ne s.pfds i j pointer (ground arith)) ∙ e
        ];
      }

  use_directory-Outcome :
      (r : Resolved) → flag flags o_directory ≡ true → Outcome s flags (use_directory s i flags r)
  unfolding use_directory Outcome
  use_directory-Outcome (gone w) is_dir = none_opened s.tree
  use_directory-Outcome (refused e t) is_dir = none_opened t
  use_directory-Outcome (got d t) is_dir =
      elim (Bool-cases (directory_access_allowed s.accounts s.owner (dir_node t d) p_read)) [
        | inl may ↦ rw may (activate-Opens (record s { tree = t }) d refl (rw is_dir may))
        | inr may_not ↦ rw may_not (none_opened t)
      ]

  truncated_pfds : (t : Tree) (f : ℕ) → (truncate (record s { tree = t }) f).pfds ≡ s.pfds
  unfolding truncate
  truncated_pfds t f = refl

  truncated_readable :
      (t : Tree) (f : ℕ)
      → flag flags o_directory ≡ false
      → file_access_allowed s.accounts s.owner (file_node t f) p_read ≡ true
      → readable
          (truncate (record s { tree = t }) f)
          (record { position = 0; fd = i + 3; pointer = f; flags = flags; active = true })
        ≡ true
  unfolding truncate
  truncated_readable t f is_file may =
      let here : (f == f) ≡ true = ground arith in rw (is_file, here) may

  use_file-Outcome :
      (r : Resolved) → flag flags o_directory ≡ false → Outcome s flags (use_file s i flags r)
  unfolding use_file Outcome
  use_file-Outcome (gone w) is_file = none_opened s.tree
  use_file-Outcome (refused e t) is_file = none_opened t
  use_file-Outcome (got f t) is_file =
      elim (Bool-cases (file_access_allowed s.accounts s.owner (file_node t f) p_read)) [
        | inr may_not ↦ rw may_not (none_opened t)
        | inl may ↦ elim (Bool-cases (flag flags o_trunc)) [
          | inr keep ↦
              rw (may, keep) (activate-Opens (record s { tree = t }) f refl (rw is_file may))
          | inl cut ↦
              elim (Bool-cases (file_access_allowed s.accounts s.owner (file_node t f) p_write)) [
                | inr read_only ↦ rw (may, cut, read_only) (set_pointer-OpensNone t f)
                | inl write ↦
                    rw (may, cut, write)
                      (activate-Opens (truncate (record s { tree = t }) f) f (truncated_pfds t f)
                        (truncated_readable t f is_file may))
              ]
        ]
      ]

-- openProcessFile, whatever it is given: a descriptor that it returns is the number of one that was
-- not active, which is now active at position 0 with the flags and leads to a directory or file that
-- the process may read, and no other descriptor has changed; where it returns -1 or does not return,
-- the active descriptors are the same.
pub open_process_file-Outcome :
    (s : Opening) (pathname : Text) (flags permissions : ℕ)
    → Outcome s flags (open_process_file s pathname flags permissions)
unfolding open_process_file Outcome
open_process_file-Outcome s pathname flags permissions =
    let wrong_access =
      (not (flag flags o_rdonly) && not (flag flags o_wronly))
      || (flag flags o_rdonly && flag flags o_trunc) in
    let wrong_kind = (flag flags o_wronly || flag flags o_trunc) && flag flags o_directory in
    elim (Bool-cases wrong_access) [
      | inl wrong ↦ rw wrong (OpensNone-refl s)
      | inr fine ↦ elim (Bool-cases wrong_kind) [
        | inl wrong ↦ rw (fine, wrong) (OpensNone-refl s)
        | inr fine' ↦ elim (Option-cases (first_inactive s.pfds 0)) [
          | inl full ↦ rw (fine, fine', full) (OpensNone-refl s)
          | inr (i, e) ↦
              let (pfd, found, free) = first_inactive-free s.pfds i e in
              elim (Bool-cases (flag flags o_directory)) [
                | inl is_dir ↦
                    rw (fine, fine', e, is_dir)
                      (use_directory-Outcome s flags i pfd found free
                        (resolve_directory s pathname flags permissions) is_dir)
                | inr is_file ↦
                    rw (fine, fine', e, is_file)
                      (use_file-Outcome s flags i pfd found free
                        (resolve_file s pathname flags permissions) is_file)
              ]
        ]
      ]
    ]
