-- ===== src/FileTree/Paths.antt =====
-- The look-up of a path, component by component.
use blueberry_os.Base.{
  ℕ, suc, ◌+◌, ◌==◌, ◌≡◌, ◌≤◌, ◌<◌, refl, arith, Bool, true, false, not, ◌&&◌, ◌||◌, leb, List, [],
  ◌∷◌, ◌++◌, length, length-append, inl, inr, Bool-cases, Option-cases, sym, ◌∙◌, subst, ap, Option,
  none, some, str_eq, append_assoc, append-nil,
}
use blueberry_os.FileTree.{
  Text, Tree, Walk, found, get_directory_from_parent, component_target, is_end, walk, from, initrd,
}
use blueberry_os.FileTree.Shape.{and_both}

-- No byte of the text is a `/`.
unfoldable pub plain : Text → Bool
plain [] = true
plain (c ∷ text) = not (c == b'/') && plain text

-- A component of a path: it is not empty, it has no `/`, and it fits into the buffer for a name.
pub record IsComponent (c : Text) : Type 0 where
  pub some_byte : 0 < length c
  pub no_slash : plain c ≡ true
  pub short : length c ≤ 64

pub data Components : List Text → Type 0 where
  nothing : Components []
  first : {c : Text} {cs : List Text} → IsComponent c → Components cs → Components (c ∷ cs)

-- The components with a `/` behind each, and the last one.
unfoldable pub path_of : List Text → Text → Text
path_of [] last = last
path_of (c ∷ cs) last = c ++ b'/' ∷ path_of cs last

-- One look-up after the other.
unfoldable pub descend : Tree → ℕ → List Text → Option ℕ
descend t p [] = some p
descend t p (c ∷ cs) = elim (get_directory_from_parent t p c true) [
  | none ↦ none
  | some q ↦ descend t q cs
]

-- The index of the last one.
unfoldable pub prefix : List Text → ℕ
prefix [] = 0
prefix (c ∷ cs) = length c + 1 + prefix cs

-- Where findParent is behind the components, and at which index the last one begins.
unfoldable pub lands : Tree → ℕ → List Text → ℕ → Walk
lands t p [] i = found (some p) i
lands t p (c ∷ cs) i = elim (get_directory_from_parent t p c true) [
  | none ↦ found none (i + length c + 1)
  | some q ↦ lands t q cs (i + length c + 1)
]

not_end : (c : Text) → IsComponent c → is_end c ≡ false
not_end [] fine = absurd (let h = fine.some_byte in omega arith)
not_end (x ∷ c) fine = refl

not_end_append : (c rest : Text) → IsComponent c → is_end (c ++ rest) ≡ false
not_end_append [] rest fine = absurd (let h = fine.some_byte in omega arith)
not_end_append (x ∷ c) rest fine = refl

no_root : (c : Text) → IsComponent c → ((str_eq c initrd && false) || str_eq c []) ≡ false
no_root [] fine = absurd (let h = fine.some_byte in omega arith)
no_root (x ∷ c) fine = elim (Bool-cases (str_eq (x ∷ c) initrd)) [
  | inl e ↦ rw e refl
  | inr e ↦ rw e refl
]

pub walk_end :
    (t : Tree) (parent : Option ℕ) (name : Text) (i slash : ℕ)
    → walk t false [] parent name i slash ≡ found parent slash
unfolding walk
walk_end t parent name i slash = refl

module _ (t : Tree) (p : ℕ) (c : Text) (cs : List Text) where
  descend_stop : get_directory_from_parent t p c true ≡ none → descend t p (c ∷ cs) ≡ none
  unfolding descend
  descend_stop e = rw (e, descend) refl

  descend_next :
      (q : ℕ)
      → get_directory_from_parent t p c true ≡ some q
      → descend t p (c ∷ cs) ≡ descend t q cs
  unfolding descend
  descend_next q e = rw (e, descend) refl

  lands_stop :
      (i : ℕ)
      → get_directory_from_parent t p c true ≡ none
      → lands t p (c ∷ cs) i ≡ found none (i + length c + 1)
  unfolding lands
  lands_stop i e = rw (e, lands) refl

  lands_next :
      (q i : ℕ)
      → get_directory_from_parent t p c true ≡ some q
      → lands t p (c ∷ cs) i ≡ lands t q cs (i + length c + 1)
  unfolding lands
  lands_next q i e = rw (e, lands) refl

none_some : {a : ℕ} → none ≡ some a → ⊥
none_some e = ground (arith, e)

from-append : (xs rest : Text) (n : ℕ) → from (length xs + n) (xs ++ rest) ≡ from n rest
unfolding from
from-append [] rest n = let same : 0 + n ≡ n = omega arith in rw same refl
from-append (x ∷ xs) rest n =
    let same : suc (length xs) + n ≡ suc (length xs + n) = omega arith in
    rw same (from-append xs rest n)

module _ (t : Tree) (last : Text) (fine : IsComponent last) where
  -- Characters that are no `/` are collected.
  pub walk-plain :
      (c rest : Text) (parent : Option ℕ) (name : Text) (i slash : ℕ)
      → plain c ≡ true
      → length name + length c ≤ 64
      → walk t false (c ++ rest) parent name i slash
        ≡ walk t false rest parent (name ++ c) (i + length c) slash
  unfolding walk plain
  walk-plain [] rest parent name i slash h short =
      let same : i + 0 ≡ i = omega arith in rw (append-nil name, same) refl
  walk-plain (x ∷ c) rest parent name i slash h short =
      let (no_slash, others) = and_both (not (x == b'/')) (plain c) h in
      let other : (x == b'/') ≡ false = ground (arith, no_slash) in
      let room : leb 64 (length name) ≡ false = ground (arith, short) in
      let longer : length (name ++ x ∷ []) + length c ≤ 64 =
        omega (arith, length-append name (x ∷ [])) in
      let behind : (i + 1) + length c ≡ i + suc (length c) = omega arith in
      rw (other, room)
        (walk-plain c rest parent (name ++ x ∷ []) (i + 1) slash others longer
          ∙ rw (append_assoc name (x ∷ []) c, behind) refl)

  pub path_of_some : (cs : List Text) → Components cs → is_end (path_of cs last) ≡ false
  unfolding path_of
  path_of_some [] all = not_end last fine
  path_of_some (c ∷ cs) (first fine_c others) = not_end_append c (b'/' ∷ path_of cs last) fine_c

  -- At the `/` behind a component.
  walk-slash :
      (rest c : Text) (p i slash : ℕ)
      → is_end rest ≡ false
      → IsComponent c
      → walk t false (b'/' ∷ rest) (some p) c i slash
        ≡ elim (get_directory_from_parent t p c true) [
          | none ↦ found none (i + 1)
          | some q ↦ walk t false rest (some q) [] (i + 1) (i + 1)
        ]
  unfolding walk component_target
  walk-slash rest c p i slash more fine_c =
      let test : ((str_eq c initrd && false) || str_eq c []) ≡ false = no_root c fine_c in
      elim (Option-cases (get_directory_from_parent t p c true)) [
        | inl e ↦ rw (more, test, e) refl
        | inr (q, e) ↦ rw (more, test, e) refl
      ]

  pub walk-path :
      (cs : List Text)
      → Components cs
      → (p i : ℕ) → walk t false (path_of cs last) (some p) [] i i ≡ lands t p cs i
  unfolding path_of lands
  walk-path [] all p i =
      subst (λ x. walk t false x (some p) [] i i ≡ found (some p) i) (append-nil last)
        (walk-plain last [] (some p) [] i i fine.no_slash (let room = fine.short in omega arith)
          ∙ walk_end t (some p) last (i + length last) i)
  walk-path (c ∷ cs) (first fine_c others) p i =
      walk-plain c (b'/' ∷ path_of cs last) (some p) [] i i fine_c.no_slash
        (let room = fine_c.short in omega arith)
      ∙ walk-slash (path_of cs last) c p (i + length c) i (path_of_some cs others) fine_c
      ∙ elim (Option-cases (get_directory_from_parent t p c true)) [
        | inl e ↦ rw (lands_stop t p c cs i e, e) refl
        | inr (q, e) ↦ rw (lands_next t p c cs q i e, e) (walk-path cs others q (i + length c + 1))
      ]

  pub lands-descend :
      (cs : List Text) (p q i : ℕ)
      → descend t p cs ≡ some q
      → lands t p cs i ≡ found (some q) (i + prefix cs)
  unfolding descend lands prefix
  lands-descend [] p q i e = let same : i + 0 ≡ i = omega arith in rw same (ap (λ o. found o i) e)
  lands-descend (c ∷ cs) p q i e = elim (Option-cases (get_directory_from_parent t p c true)) [
    | inl e0 ↦ absurd (none_some (sym (descend_stop t p c cs e0) ∙ e))
    | inr (q0, e0) ↦
        let along : i + length c + 1 + prefix cs ≡ i + (length c + 1 + prefix cs) = omega arith in
        lands_next t p c cs q0 i e0
        ∙ lands-descend cs q0 q (i + length c + 1) (sym (descend_next t p c cs q0 e0) ∙ e)
        ∙ rw along refl
  ]

  pub lands_nowhere :
      (cs : List Text) (p i : ℕ) → descend t p cs ≡ none → (s : ℕ) × (lands t p cs i ≡ found none s)
  unfolding descend lands
  lands_nowhere [] p i e = absurd (none_some (sym e))
  lands_nowhere (c ∷ cs) p i e = elim (Option-cases (get_directory_from_parent t p c true)) [
    | inl e0 ↦ (i + length c + 1, lands_stop t p c cs i e0)
    | inr (q0, e0) ↦
        let (s, gone) =
          lands_nowhere cs q0 (i + length c + 1) (sym (descend_next t p c cs q0 e0) ∙ e) in
        (s, lands_next t p c cs q0 i e0 ∙ gone)
  ]

  pub from-path : (cs : List Text) → from (prefix cs) (path_of cs last) ≡ last
  unfolding from prefix path_of
  from-path [] = refl
  from-path (c ∷ cs) =
      let along : length c + 1 + prefix cs ≡ length c + suc (prefix cs) = omega arith in
      rw along (from-append c (b'/' ∷ path_of cs last) (suc (prefix cs)) ∙ from-path cs)
