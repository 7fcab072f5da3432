-- ===== src/Libc/Str/Tokens.antt =====
-- libc/string: strtok.c and strrstr.c; libc/ctype: isdigit.c and isspace.c.
use blueberry_os.Base.{
  ℕ, zero, suc, ◌+◌, ◌-◌, ◌==◌, Bool, ◌&&◌, ◌||◌, leb, if◌then◌else◌, Option, none, some,
}
use blueberry_os.Libc.Mem.{Mem, write8}
use blueberry_os.Libc.Str.{strlen, strchr}
use mathlib.Core.Option

unfoldable pub isdigit : ℕ → Bool
isdigit arg = leb 48 arg && leb arg 57

unfoldable pub isspace : ℕ → Bool
isspace arg = arg == 32 || (leb 9 arg && leb arg 13)

-- What strtok returns, `none` for NULL, with the file's variable `prev` and the memory.
pub record Token : Type 0 where
  pub token : Option ℕ
  pub prev : ℕ
  pub mem : Mem

-- The loop of strtok; `hits` is the fuel of strchr.
unfoldable pub strtok_loop : ℕ → ℕ → Mem → ℕ → ℕ → ℕ → Option Token
strtok_loop zero hits m prev delim i = none
strtok_loop (suc fuel) hits m prev delim i =
    let c = m (prev + i) in
    let rest = strtok_loop fuel hits m prev delim (i + 1) in
    if c == 0 && i == 0
    then some (record { token = none; prev = prev; mem = m })
    else if c == 0
    then some (record { token = some prev; prev = prev + i; mem = m })
    else elim (strchr hits m delim c) [
      | none ↦ none
      | some none ↦ rest
      | some (some p) ↦
          some (record { token = some prev; prev = prev + (i + 1); mem = write8 m (prev + i) 0 })
    ]

-- `str` is `none` for NULL: the search goes on where the last one ended.
unfoldable pub strtok : ℕ → Mem → ℕ → Option ℕ → ℕ → Option Token
strtok fuel m prev none delim = strtok_loop fuel fuel m prev delim 0
strtok fuel m prev (some str) delim = strtok_loop fuel fuel m str delim 0

-- The `while` of strrstr, from `i` down.
unfoldable pub strrstr_loop : ℕ → Mem → ℕ → ℕ → ℕ → ℕ → Option ℕ
strrstr_loop zero m str sub sublen j = none
strrstr_loop (suc i) m str sub sublen j =
    let j' = if m (str + suc i) == m (sub + j) then j - 1 else sublen - 1 in
    let rest = strrstr_loop i m str sub sublen j' in
    if j == 0 then none else if j' == 0 then some (str + i) else rest

unfoldable pub strrstr : ℕ → Mem → ℕ → ℕ → Option (Option ℕ)
strrstr fuel m str sub = Option.bind (strlen fuel m sub) λ sublen.
    if sublen == 0
    then some (some str)
    else Option.map (λ len. strrstr_loop len m str sub sublen (sublen - 1)) (strlen fuel m str)
