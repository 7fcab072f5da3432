-- ===== src/Process/Env/Lookup.antt =====
-- The value that a name has, and how a change at one index changes it.
use blueberry_os.Base.{
  ℕ, zero, suc, ◌≡◌, refl, arith, true, false, ◌&&◌, if◌then◌else◌, str_eq, str_eq→eq, Bool-cases,
  inl, inr, Option, none, some, List, [], ◌∷◌, get_elem?, set,
}
use blueberry_os.Process.Env.{Text, EnvVariable, fresh_variable}

-- The value of a name among some variables.
unfoldable pub value_of : Text → List EnvVariable → Option Text
value_of key [] = none
value_of key (var ∷ vars) =
    if var.active && str_eq var.key key then some var.value else value_of key vars

-- `vars'` gives `key` the value, and every other name the value that it had.
abbrev pub Updates : Text → Text → List EnvVariable → List EnvVariable → Type 0
Updates key value vars vars' =
    (k : Text) → value_of k vars' ≡ (if str_eq key k then some value else value_of k vars)

pub str_eq_trans : (a b c : Text) → str_eq a b ≡ true → str_eq b c ≡ str_eq a c
str_eq_trans a b c h = let e : a ≡ b = str_eq→eq a b h in rw e refl

-- The first variable of that name takes the value.
pub Updates-here :
    (key value : Text) (var : EnvVariable) (vars : List EnvVariable)
    → var.active ≡ true
    → str_eq var.key key ≡ true
    → Updates key value (var ∷ vars) (record var { value = value } ∷ vars)
unfolding value_of
Updates-here key value var vars on same k = ground (arith, str_eq_trans var.key key k same)

pub Updates-there :
    (key value : Text) (var : EnvVariable) (vars vars' : List EnvVariable)
    → (var.active && str_eq var.key key) ≡ false
    → Updates key value vars vars'
    → Updates key value (var ∷ vars) (var ∷ vars')
unfolding value_of
Updates-there key value var vars vars' other u k = elim (Bool-cases (str_eq key k)) [
  | inl same ↦
      let e : key ≡ k = str_eq→eq key k same in
      let other' : (var.active && str_eq var.key k) ≡ false = rw e at other in rw (other', u k) refl
  | inr differ ↦ rw (u k, differ) refl
]

-- What it says that no variable has the name.
pub unset-cons :
    (key : Text) (var : EnvVariable) (vars : List EnvVariable)
    → value_of key (var ∷ vars) ≡ none
    → ((var.active && str_eq var.key key) ≡ false) × (value_of key vars ≡ none)
unfolding value_of
unset-cons key var vars h = elim (Bool-cases (var.active && str_eq var.key key)) [
  | inl hit ↦ let h' : some var.value ≡ none = rw hit at h in cc
  | inr miss ↦ (miss, rw miss at h)
]

-- A free variable takes the name, where no variable had it.
pub Updates-free :
    (key value : Text) (vars : List EnvVariable) (i : ℕ) (old : EnvVariable)
    → get_elem? vars i ≡ some old
    → old.active ≡ false
    → value_of key vars ≡ none
    → Updates key value vars (set vars i (fresh_variable key value))
unfolding value_of
Updates-free key value [] i old e off unset k = cc
Updates-free key value (var ∷ vars) zero old e off unset k = ground arith
Updates-free key value (var ∷ vars) (suc i) old e off unset k =
    let (miss, rest) = unset-cons key var vars unset in
    Updates-there key value var vars (set vars i (fresh_variable key value)) miss
      (Updates-free key value vars i old e off rest) k
