-- ===== src/Process/Env/Set.antt =====
-- setEnvVariable with overwrite.
use blueberry_os.Base.{
  ℕ, suc, ◌+◌, ◌≤◌, ◌≡◌, ◌≢◌, ◌⊎◌, refl, arith, Bool, true, false, ◌&&◌, ◌||◌, not, ltb,
  if◌then◌else◌, str_eq, Bool-cases, inl, inr, Option, none, some, List, [], ◌∷◌, length, get_elem?,
  set,
}
use native.Mathlib.Nat.{zero-add}
use blueberry_os.Base.Int.{pos}
use blueberry_os.Process.Env.{
  Text, EnvVariable, Slot, match, free, full, Outcome, returned, aborted, set_value, fresh_variable,
  first_found, scan_env, set_env_variable, max_variable_key_length, max_variable_value_length,
}
use blueberry_os.Process.Env.Lookup.{
  value_of, Updates, Updates-here, Updates-there, Updates-free, unset-cons,
}

-- What a loop over `vars`, which begins at index `i`, says by where it stops. `found` is a free
-- index met before.
abbrev pub Stops : Text → Text → List EnvVariable → ℕ → Option ℕ → Slot → Type 0
Stops key value vars i found (match j) =
    (d : ℕ) × (j ≡ i + d) × Updates key value vars (set_value vars d value)
Stops key value vars i none (free j) =
    (value_of key vars ≡ none)
    × ((d : ℕ) × (j ≡ i + d)
        × ((old : EnvVariable) × (get_elem? vars d ≡ some old) × (old.active ≡ false)))
Stops key value vars i (some n) (free j) = (value_of key vars ≡ none) × (j ≡ n)
Stops key value vars i found full = Unit {0}

value_of-skip :
    (key : Text) (var : EnvVariable) (vars : List EnvVariable)
    → (var.active && str_eq var.key key) ≡ false
    → value_of key vars ≡ none
    → value_of key (var ∷ vars) ≡ none
unfolding value_of
value_of-skip key var vars miss rest = rw (miss, rest) refl

Stops-there :
    (key value : Text) (var : EnvVariable) (vars : List EnvVariable) (i : ℕ) (found : Option ℕ)
    (slot : Slot) (on : Bool)
    → var.active ≡ on
    → (var.active && str_eq var.key key) ≡ false
    → Stops key value vars (i + 1) (if on then found else first_found found i) slot
    → Stops key value (var ∷ vars) i found slot
unfolding set_value
Stops-there key value var vars i found (match j) on e miss (d, ej, u) =
    (suc d, omega arith, Updates-there key value var vars (set_value vars d value) miss u)
Stops-there key value var vars i none (free j) true e miss (unset, (d, ej, old)) =
    (value_of-skip key var vars miss unset, (suc d, omega arith, old))
Stops-there key value var vars i none (free j) false e miss (unset, ej) =
    (value_of-skip key var vars miss unset, (0, omega arith, (var, refl, e)))
Stops-there key value var vars i (some n) (free j) true e miss (unset, ej) =
    (value_of-skip key var vars miss unset, ej)
Stops-there key value var vars i (some n) (free j) false e miss (unset, ej) =
    (value_of-skip key var vars miss unset, ej)
Stops-there key value var vars i found full on e miss h = tt

scan_env-Stops :
    (key value : Text) (found : Option ℕ) (i : ℕ) (vars : List EnvVariable)
    → Stops key value vars i found (scan_env true key found i vars)
unfolding scan_env value_of set_value
scan_env-Stops key value none i [] = tt
scan_env-Stops key value (some n) i [] = (refl, refl)
scan_env-Stops key value found i (var ∷ vars) =
    let next = if var.active then found else first_found found i in
    let rest = scan_env-Stops key value next (i + 1) vars in
    elim (Bool-cases (var.active && str_eq var.key key)) [
      | inl hit ↦
          rw hit (0, omega arith, Updates-here key value var vars (ground arith) (ground arith))
      | inr miss ↦ rw miss (
          Stops-there key value var vars i found (scan_env true key next (i + 1) vars) var.active
            refl miss rest)
    ]

-- The name and the value fit into a variable.
pub record Fits (key value : Text) : Type 0 where
  pub key_fits : length key ≤ max_variable_key_length
  pub value_fits : length value ≤ max_variable_value_length

pub Fits-tests :
    (key value : Text)
    → Fits key value
    → (ltb max_variable_key_length (length key) ≡ false)
      × (ltb max_variable_value_length (length value) ≡ false)
Fits-tests key value f = let k = f.key_fits in let v = f.value_fits in (ground arith, ground arith)

-- Some variable is free.
unfoldable pub any_free : List EnvVariable → Bool
any_free [] = false
any_free (var ∷ vars) = not var.active || any_free vars

-- A variable is free, or one has the name already.
abbrev pub HasRoom : Text → List EnvVariable → Type 0
HasRoom key vars = (any_free vars ≡ true) ⊎ (value_of key vars ≢ none)

no_next :
    (on : Bool) (found : Option ℕ) (i : ℕ)
    → (if on then found else first_found found i) ≡ none
    → (found ≡ none) × (on ≡ true)
no_next true found i h = (h, refl)
no_next false none i h = cc
no_next false (some n) i h = cc

scan_env-full :
    (key : Text) (found : Option ℕ) (i : ℕ) (vars : List EnvVariable)
    → scan_env true key found i vars ≡ full
    → (found ≡ none) × (any_free vars ≡ false) × (value_of key vars ≡ none)
unfolding scan_env any_free value_of
scan_env-full key none i [] h = (refl, refl, refl)
scan_env-full key (some n) i [] h = cc
scan_env-full key found i (var ∷ vars) h =
    let next = if var.active then found else first_found found i in
    elim (Bool-cases (var.active && str_eq var.key key)) [
      | inl hit ↦ let h' : match i ≡ full = rw hit at h in cc
      | inr miss ↦
          let h' : scan_env true key next (i + 1) vars ≡ full = rw miss at h in
          let (none_found, all_used, unset) = scan_env-full key next (i + 1) vars h' in
          let (found_none, on) = no_next var.active found i none_found in
          (found_none, rw (on, all_used) refl, rw (miss, unset) refl)
    ]

has_room :
    (key : Text) (vars : List EnvVariable) → HasRoom key vars → scan_env true key none 0 vars ≢ full
has_room key vars (inl somewhere) h = let (n, used, unset) = scan_env-full key none 0 vars h in cc
has_room key vars (inr has) h = let (n, used, unset) = scan_env-full key none 0 vars h in has unset

-- What a setter that returns 0 leaves.
abbrev pub Succeeds : Text → Text → List EnvVariable → Outcome → Type 0
Succeeds key value vars outcome =
    (vars' : List EnvVariable) × (outcome ≡ returned (pos 0) vars') × Updates key value vars vars'

stored :
    (key value : Text) (vars : List EnvVariable) (slot : Slot)
    → slot ≢ full
    → Stops key value vars 0 none slot
    → Succeeds key value vars (elim slot [
      | match i ↦ returned (pos 0) (set_value vars i value)
      | free i ↦ returned (pos 0) (set vars i (fresh_variable key value))
      | full ↦ aborted
    ])
stored key value vars (match j) room (d, e, u) =
    (set_value vars j value, refl, (rw e (rw zero-add u)))
stored key value vars (free j) room (unset, (d, e, (old, held, off))) = (
  set vars j (fresh_variable key value),
  refl,
  Updates-free key value vars j old (let e' : j ≡ d = omega arith in rw e' held) off unset,
)
stored key value vars full room h = absurd (room refl)

-- setEnvVariable with overwrite, for a name and a value that fit, and where a variable is free or
-- has the name: it returns 0, and afterwards the name has the value and every other name the value
-- that it had.
pub set_env_variable-Succeeds :
    (vars : List EnvVariable) (key value : Text)
    → Fits key value
    → HasRoom key vars
    → Succeeds key value vars (set_env_variable vars key value true)
unfolding set_env_variable
set_env_variable-Succeeds vars key value f room =
    let (k, v) = Fits-tests key value f in
    rw (k, v)
      (stored key value vars (scan_env true key none 0 vars) (has_room key vars room)
        (scan_env-Stops key value none 0 vars))

scan_env-room :
    (key : Text) (i : ℕ) (vars : List EnvVariable)
    → any_free vars ≡ false
    → value_of key vars ≡ none
    → scan_env true key none i vars ≡ full
unfolding scan_env any_free value_of
scan_env-room key i [] used unset = refl
scan_env-room key i (var ∷ vars) used unset =
    let (miss, rest) = unset-cons key var vars unset in
    let on : var.active ≡ true = ground arith in
    let all_used : any_free vars ≡ false = ground arith in
    rw (miss, on) (scan_env-room key (i + 1) vars all_used rest)

-- setEnvVariable with overwrite, for a name and a value that fit but where no variable is free and
-- none has the name, aborts the kernel.
pub set_env_variable-aborted :
    (vars : List EnvVariable) (key value : Text)
    → Fits key value
    → any_free vars ≡ false
    → value_of key vars ≡ none
    → set_env_variable vars key value true ≡ aborted
unfolding set_env_variable
set_env_variable-aborted vars key value f used unset =
    let (k, v) = Fits-tests key value f in rw (k, v, scan_env-room key 0 vars used unset) refl
