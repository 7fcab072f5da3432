-- ===== src/Libc/Str.antt =====
-- libc/string: strlen.c, strcmp.c, strncmp.c, strcpy.c, strncpy.c, strcat.c, strchr.c, strrchr.c,
-- and strstr.c. A loop that runs until a NUL takes fuel; `none` means that the fuel ran out.
pub mod Length
pub mod Order
pub mod Copy
pub mod Search
pub mod Tokens
use blueberry_os.Base.{
  ℕ, zero, suc, ◌+◌, ◌-◌, ◌==◌, Bool, true, false, ◌&&◌, ltb, leb, if◌then◌else◌, Option, none,
  some, List, [], ◌∷◌, ◌≡◌, ◌≢◌,
}
use blueberry_os.Base.Int.{ℤ, pos, sub_ℕ, ◌-ℤ◌}
use blueberry_os.Libc.Mem.{Mem, write8}
use mathlib.Core.Option

-- The text `s`, followed by a NUL, stands in memory at `p`.
abbrev pub IsStr : Mem → ℕ → List ℕ → Type 0
IsStr m p [] = m p ≡ 0
IsStr m p (c ∷ s) = (m p ≡ c) × (c ≢ 0) × IsStr m (p + 1) s

pub strlen_loop : ℕ → Mem → ℕ → ℕ → Option ℕ
strlen_loop zero m str len = none
strlen_loop (suc fuel) m str len =
    let rest = strlen_loop fuel m str (len + 1) in if m (str + len) == 0 then some len else rest

unfoldable pub strlen : ℕ → Mem → ℕ → Option ℕ
unfolding strlen_loop
strlen fuel m str = strlen_loop fuel m str 0

-- A `char` is signed: a byte read as an `int`.
abbrev pub char_val : ℕ → ℤ
char_val b = if ltb b 128 then pos b else sub_ℕ b 256

-- `s1[i] - s2[i]`
unfoldable pub char_sub : ℕ → ℕ → ℤ
char_sub a b = char_val a -ℤ char_val b

pub strcmp_loop : ℕ → Mem → ℕ → ℕ → ℕ → Option ℤ
strcmp_loop zero m s1 s2 i = none
strcmp_loop (suc fuel) m s1 s2 i =
    let rest = strcmp_loop fuel m s1 s2 (i + 1) in
    if m (s1 + i) == 0 && m (s2 + i) == 0
    then some (pos 0)
    else if m (s1 + i) == m (s2 + i)
    then rest
    else some (char_sub (m (s1 + i)) (m (s2 + i)))

unfoldable pub strcmp : ℕ → Mem → ℕ → ℕ → Option ℤ
unfolding strcmp_loop
strcmp fuel m s1 s2 = strcmp_loop fuel m s1 s2 0

-- The rounds are bounded by `n`, so no fuel is needed: `left` is `n - i`.
pub strncmp_loop : ℕ → Mem → ℕ → ℕ → ℕ → ℤ
strncmp_loop zero m s1 s2 i = pos 0
strncmp_loop (suc left) m s1 s2 i =
    let rest = strncmp_loop left m s1 s2 (i + 1) in
    if m (s1 + i) == 0 && m (s2 + i) == 0
    then pos 0
    else if m (s1 + i) == m (s2 + i)
    then rest
    else char_sub (m (s1 + i)) (m (s2 + i))

unfoldable pub strncmp : Mem → ℕ → ℕ → ℕ → ℤ
unfolding strncmp_loop
strncmp m s1 s2 n = strncmp_loop n m s1 s2 0

pub strcpy_loop : ℕ → Mem → ℕ → ℕ → ℕ → Option Mem
strcpy_loop zero m dest src i = none
strcpy_loop (suc fuel) m dest src i =
    let rest = strcpy_loop fuel (write8 m (dest + i) (m (src + i))) dest src (i + 1) in
    if m (src + i) == 0 then some (write8 m (dest + i) 0) else rest

unfoldable pub strcpy : ℕ → Mem → ℕ → ℕ → Option (ℕ × Mem)
unfolding strcpy_loop
strcpy fuel m dest src = Option.map (λ m'. (dest, m')) (strcpy_loop fuel m dest src 0)

-- The test against `n` stands inside of the loop, after the test for the NUL.
pub strncpy_loop : ℕ → Mem → ℕ → ℕ → ℕ → ℕ → Option Mem
strncpy_loop zero m dest src n i = none
strncpy_loop (suc fuel) m dest src n i =
    let rest = strncpy_loop fuel (write8 m (dest + i) (m (src + i))) dest src n (i + 1) in
    if m (src + i) == 0 then some (write8 m (dest + i) 0) else if leb n i then some m else rest

unfoldable pub strncpy : ℕ → Mem → ℕ → ℕ → ℕ → Option (ℕ × Mem)
unfolding strncpy_loop
strncpy fuel m dest src n = Option.map (λ m'. (dest, m')) (strncpy_loop fuel m dest src n 0)

-- `for (i = 0; src[i]; i++) dst[dstlen + i] = src[i];` and the NUL behind it.
pub strcat_loop : ℕ → Mem → ℕ → ℕ → ℕ → ℕ → Option Mem
strcat_loop zero m dst src dstlen i = none
strcat_loop (suc fuel) m dst src dstlen i =
    let rest =
      strcat_loop fuel (write8 m (dst + (dstlen + i)) (m (src + i))) dst src dstlen (i + 1) in
    if m (src + i) == 0 then some (write8 m (dst + (dstlen + i)) 0) else rest

unfoldable pub strcat : ℕ → Mem → ℕ → ℕ → Option (ℕ × Mem)
unfolding strcat_loop strlen
strcat fuel m dst src =
    Option.bind (strlen fuel m dst)
      λ dstlen. Option.map (λ m'. (dst, m')) (strcat_loop fuel m dst src dstlen 0)

-- The inner option is the pointer returned, `none` for NULL. `c` is the byte of the character.
pub strchr_loop : ℕ → Mem → ℕ → ℕ → ℕ → Option (Option ℕ)
strchr_loop zero m str c i = none
strchr_loop (suc fuel) m str c i =
    let rest = strchr_loop fuel m str c (i + 1) in
    if m (str + i) == 0 then some none else if m (str + i) == c then some (some (str + i)) else rest

unfoldable pub strchr : ℕ → Mem → ℕ → ℕ → Option (Option ℕ)
unfolding strchr_loop
strchr fuel m str c = strchr_loop fuel m str c 0

-- `for (i = strlen(str); i >= 0; i--)`: the first argument is `i + 1`.
pub strrchr_loop : ℕ → Mem → ℕ → ℕ → Option ℕ
strrchr_loop zero m str c = none
strrchr_loop (suc i) m str c =
    let rest = strrchr_loop i m str c in if m (str + i) == c then some (str + i) else rest

unfoldable pub strrchr : ℕ → Mem → ℕ → ℕ → Option (Option ℕ)
unfolding strrchr_loop strlen
strrchr fuel m str c = Option.map (λ len. strrchr_loop (suc len) m str c) (strlen fuel m str)

-- One round of the loop of strstr: the variables are `set`, `start`, `i` and `j`.
pub strstr_loop : ℕ → Mem → ℕ → ℕ → ℕ → Bool → ℕ → ℕ → ℕ → Option (Option ℕ)
strstr_loop zero m str sub sublen set start i j = none
strstr_loop (suc fuel) m str sub sublen set start i j =
    let matched = m (str + i) == m (sub + j) in
    let start' = if set then start else i in
    let hit = strstr_loop fuel m str sub sublen true start' (i + 1) (j + 1) in
    let miss = strstr_loop fuel m str sub sublen false start (i + 1) 0 in
    if m (str + i) == 0
    then some none
    else if m (sub + j) == 0
    then some none
    else if matched
    then (if j + 1 == sublen then some (some (str + start')) else hit)
    else (if 0 == sublen then some (some (str + start)) else miss)

unfoldable pub strstr : ℕ → Mem → ℕ → ℕ → Option (Option ℕ)
unfolding strstr_loop strlen
strstr fuel m str sub =
    Option.bind (strlen fuel m sub) λ sublen. strstr_loop fuel m str sub sublen false 0 0 0
