-- ===== src/Process/Env.antt =====
-- usermode.c: the environment variables of a process and the global ones.
-- An array of variables is a list; its length is the C constant. A text that strcpy puts into a
-- variable fits, since both callers test its length first.
pub mod Lookup
pub mod Set
pub mod Unset
use blueberry_os.Base.{
  ℕ, zero, suc, ◌+◌, ◌<◌, Bool, true, false, ◌&&◌, ltb, if◌then◌else◌, str_eq, Option, none, some,
  List, [], ◌∷◌, length, set,
}
use blueberry_os.Base.Int.{ℤ, pos, negsuc}

abbrev pub Text : Type 0
Text = List ℕ

pub record EnvVariable : Type 0 where
  pub key : Text
  pub value : Text
  pub active : Bool

abbrev pub max_variable_key_length : ℕ
max_variable_key_length = 32

abbrev pub max_variable_value_length : ℕ
max_variable_value_length = 64

-- The loop of getGlobalEnvVariable, and the one that getEnvVariable begins with.
unfoldable pub find_variable : Text → List EnvVariable → Option EnvVariable
find_variable key [] = none
find_variable key (var ∷ vars) =
    if var.active && str_eq var.key key then some var else find_variable key vars

unfoldable pub get_global_env_variable : List EnvVariable → Text → Option EnvVariable
unfolding find_variable
get_global_env_variable globals key = find_variable key globals

-- The process's own variables first, the global ones where it has none of that name.
unfoldable pub get_env_variable : List EnvVariable → List EnvVariable → Text → Option EnvVariable
unfolding find_variable get_global_env_variable
get_env_variable globals variables key = elim (find_variable key variables) [
  | some var ↦ some var
  | none ↦ get_global_env_variable globals key
]

-- Where a loop over the variables stops: at one of that name, at a free one, or at neither.
pub data Slot : Type 0 where
  match : ℕ → Slot
  free : ℕ → Slot
  full : Slot

-- What a call does: it returns a code and leaves the variables, or the kernel aborts.
pub data Outcome : Type 0 where
  returned : ℤ → List EnvVariable → Outcome
  aborted : Outcome

-- `strcpy(var->value, value)` at an index.
unfoldable pub set_value : List EnvVariable → ℕ → Text → List EnvVariable
set_value [] i value = []
set_value (var ∷ vars) zero value = record var { value = value } ∷ vars
set_value (var ∷ vars) (suc i) value = var ∷ set_value vars i value

-- The three assignments at the end of both setters.
abbrev pub fresh_variable : Text → Text → EnvVariable
fresh_variable key value = record { key = key; value = value; active = true }

-- The loop of setGlobalEnvVariable: it stops at the first variable that is not active.
unfoldable pub scan_global : Text → ℕ → List EnvVariable → Slot
scan_global key i [] = full
scan_global key i (var ∷ vars) =
    let rest = scan_global key (i + 1) vars in
    if var.active then (if str_eq var.key key then match i else rest) else free i

unfoldable pub set_global_env_variable : List EnvVariable → Text → Text → Outcome
unfolding scan_global set_value
set_global_env_variable globals key value =
    if ltb max_variable_key_length (length key)
    then returned (negsuc 0) globals
    else if ltb max_variable_value_length (length value)
    then returned (negsuc 0) globals
    else elim (scan_global key 0 globals) [
      | match i ↦ returned (pos 0) (set_value globals i value)
      | free i ↦ returned (pos 0) (set globals i (fresh_variable key value))
      | full ↦ returned (negsuc 0) globals
    ]

-- `if (!found) { index = i; found = true; }`
abbrev pub first_found : Option ℕ → ℕ → Option ℕ
first_found none i = some i
first_found (some j) i = some j

-- The loop of setEnvVariable: `found` is the first free index met so far, and the loop goes on.
unfoldable pub scan_env : Bool → Text → Option ℕ → ℕ → List EnvVariable → Slot
scan_env overwrite key none i [] = full
scan_env overwrite key (some j) i [] = free j
scan_env overwrite key found i (var ∷ vars) =
    let rest =
      scan_env overwrite key (if var.active then found else first_found found i) (i + 1) vars in
    if var.active && (overwrite && str_eq var.key key) then match i else rest

unfoldable pub set_env_variable : List EnvVariable → Text → Text → Bool → Outcome
unfolding scan_env set_value
set_env_variable variables key value overwrite =
    if ltb max_variable_key_length (length key)
    then returned (negsuc 0) variables
    else if ltb max_variable_value_length (length value)
    then returned (negsuc 0) variables
    else elim (scan_env overwrite key none 0 variables) [
      | match i ↦ returned (pos 0) (set_value variables i value)
      | free i ↦ returned (pos 0) (set variables i (fresh_variable key value))
      | full ↦ aborted
    ]

-- The variable is only marked; unsetEnvVariable always returns 0.
unfoldable pub unset_env_variable : List EnvVariable → Text → List EnvVariable
unset_env_variable [] key = []
unset_env_variable (var ∷ vars) key =
    if var.active && str_eq var.key key
    then record var { active = false } ∷ vars
    else var ∷ unset_env_variable vars key
