-- ===== src/Process/Env/Unset.antt =====
-- unsetEnvVariable, and setEnvVariable without overwrite.
use blueberry_os.Base.{
  ℕ, zero, suc, ◌+◌, ◌≡◌, refl, sym, subst, ◌∙◌, ap, arith, true, false, ◌&&◌, if◌then◌else◌,
  str_eq, Bool-cases, inl, inr, none, some, List, [], ◌∷◌, get_elem?, set, str_eq→eq, str_eq_refl,
}
use blueberry_os.Base.Int.{pos}
use blueberry_os.Process.Env.{
  Text, EnvVariable, free, returned, unset_env_variable, scan_env, set_env_variable, fresh_variable,
}
use blueberry_os.Process.Env.Lookup.{value_of, str_eq_trans}
use blueberry_os.Process.Env.Set.{any_free, Fits, Fits-tests}

-- No name has two active variables.
abbrev pub Unique : List EnvVariable → Type 0
Unique [] = Unit
Unique (var ∷ vars) = (var.active ≡ true → value_of var.key vars ≡ none) × Unique vars

value_of-other :
    (key k : Text) (vars : List EnvVariable)
    → str_eq key k ≡ false
    → value_of k (unset_env_variable vars key) ≡ value_of k vars
unfolding value_of unset_env_variable
value_of-other key k [] other = refl
value_of-other key k (var ∷ vars) other = elim (Bool-cases (var.active && str_eq var.key key)) [
  | inl hit ↦
      let same : str_eq var.key k ≡ str_eq key k =
        sym (str_eq_trans var.key key k (ground arith)) in
      rw hit (rw (same ∙ other) (ground arith))
  | inr miss ↦ rw (miss, value_of-other key k vars other) refl
]

value_of-unset :
    (key : Text) (vars : List EnvVariable)
    → Unique vars
    → value_of key (unset_env_variable vars key) ≡ none
unfolding value_of unset_env_variable
value_of-unset key [] u = refl
value_of-unset key (var ∷ vars) u = elim (Bool-cases (var.active && str_eq var.key key)) [
  | inl hit ↦
      let e : var.key ≡ key = str_eq→eq var.key key (ground arith) in
      rw hit (subst (λ z. value_of z vars ≡ none) e (u.0 (ground arith)))
  | inr miss ↦ rw (miss, miss, value_of-unset key vars u.1) refl
]

-- unsetEnvVariable, where no name has two active variables: afterwards the name has no value, and
-- every other name the value that it had.
pub unset_env_variable_lem :
    (key : Text) (vars : List EnvVariable)
    → Unique vars
    → (value_of key (unset_env_variable vars key) ≡ none)
      × ((k : Text)
          → str_eq key k ≡ false
          → value_of k (unset_env_variable vars key) ≡ value_of k vars)
unset_env_variable_lem key vars u =
    (value_of-unset key vars u, λ k other. value_of-other key k vars other)

-- How many active variables have the name.
unfoldable pub count_named : Text → List EnvVariable → ℕ
count_named key [] = 0
count_named key (var ∷ vars) =
    if var.active && str_eq var.key key then 1 + count_named key vars else count_named key vars

count_named-set :
    (key value : Text) (vars : List EnvVariable) (i : ℕ) (old : EnvVariable)
    → get_elem? vars i ≡ some old
    → old.active ≡ false
    → count_named key (set vars i (fresh_variable key value)) ≡ 1 + count_named key vars
unfolding count_named
count_named-set key value [] i old e off = cc
count_named-set key value (var ∷ vars) zero old e off = ground (arith, str_eq_refl key)
count_named-set key value (var ∷ vars) (suc i) old e off =
    ground (arith, count_named-set key value vars i old)

scan_env-some :
    (key : Text) (n i : ℕ) (vars : List EnvVariable) → scan_env false key (some n) i vars ≡ free n
unfolding scan_env
scan_env-some key n i [] = refl
scan_env-some key n i (var ∷ vars) = elim (Bool-cases var.active) [
  | inl on ↦ rw on (scan_env-some key n (i + 1) vars)
  | inr off ↦ rw off (scan_env-some key n (i + 1) vars)
]

scan_env-free :
    (key : Text) (i : ℕ) (vars : List EnvVariable)
    → any_free vars ≡ true
    → (d : ℕ) × (scan_env false key none i vars ≡ free (i + d))
      × ((old : EnvVariable) × (get_elem? vars d ≡ some old) × (old.active ≡ false))
unfolding scan_env any_free
scan_env-free key i [] h = cc
scan_env-free key i (var ∷ vars) h = elim (Bool-cases var.active) [
  | inl on ↦
      let (d, e, held) = scan_env-free key (i + 1) vars (rw on at h) in
      (suc d, rw on (e ∙ ap free (omega arith)), held)
  | inr off ↦
      (0, rw off (scan_env-some key i (i + 1) vars ∙ ap free (omega arith)), (var, refl, off))
]

-- setEnvVariable without overwrite, for a name and a value that fit and where a variable is free:
-- it returns 0, and one variable more has the name, also where one had it before.
pub set_env_variable-count_named :
    (vars : List EnvVariable) (key value : Text)
    → Fits key value
    → any_free vars ≡ true
    → (vars' : List EnvVariable) × (set_env_variable vars key value false ≡ returned (pos 0) vars')
      × (count_named key vars' ≡ 1 + count_named key vars)
unfolding set_env_variable
set_env_variable-count_named vars key value f room =
    let (k, v) = Fits-tests key value f in
    let (d, e, (old, held, off)) = scan_env-free key 0 vars room in
    let e' : scan_env false key none 0 vars ≡ free d = e ∙ ap free (omega arith) in
    (
      set vars d (fresh_variable key value),
      rw (k, v, e') refl,
      count_named-set key value vars d old held off,
    )
