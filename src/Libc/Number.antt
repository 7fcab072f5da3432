-- ===== src/Libc/Number.antt =====
-- libc/stdlib: uitoa.c, itoa.c and atoi.c.
-- The bytes of `tmp` from `i + 1` on are a list, so `tmp[i] = c; i--;` puts `c` in front of it.
pub mod Digits
pub mod Parse
pub mod Returns
use blueberry_os.Base.{
  ℕ, zero, suc, ◌+◌, ◌-◌, ◌*◌, ◌/◌, ◌%◌, ◌^◌, ◌==◌, Bool, ◌&&◌, ltb, leb, if◌then◌else◌, Option,
  none, some, List, [], ◌∷◌, ◌++◌, u32,
}
use blueberry_os.Base.Int.{ℤ, pos, negsuc}
use blueberry_os.Libc.Mem.{Mem, write8}

-- `c = value % base + '0'`, moved up to the letters if it lies between '9' and 'A'.
unfoldable pub digit_char : ℕ → ℕ
digit_char d = let c = d + b'0' in if ltb b'9' c && ltb c b'A' then c + (b'A' - b'9' - 1) else c

-- The do-while loop: the first argument is `i`, and the loop is left when it reaches 0.
pub uitoa_loop : ℕ → ℕ → ℕ → List ℕ → List ℕ
uitoa_loop zero value base text = text
uitoa_loop (suc i) value base text =
    let text' = digit_char (value % base) ∷ text in
    let rest = uitoa_loop i (value / base) base text' in
    if i == 0 then text' else if value / base == 0 then text' else rest

-- `for (j = 0; j < 63-i; j++) sp[j] = tmp[i+j+1];`, the NUL at `tmp[63]` included.
unfoldable pub write_text : Mem → ℕ → List ℕ → Mem
write_text m sp [] = write8 m sp 0
write_text m sp (c ∷ s) = write_text (write8 m sp c) (sp + 1) s

unfoldable pub uitoa : Mem → ℕ → ℕ → ℕ → ℕ × Mem
unfolding uitoa_loop
uitoa m value sp base = (sp, write_text m sp (uitoa_loop 62 value base []))

-- The magnitude as `value = -value` leaves it; `%` and `/` then run on a value that is not negative.
abbrev pub magnitude : ℤ → ℕ
magnitude (pos n) = n
magnitude (negsuc n) = suc n

abbrev pub is_negative : ℤ → Bool
is_negative (pos n) = Bool.false
is_negative (negsuc n) = Bool.true

-- `value` lies above the least `int`, whose negation is not an `int`.
unfoldable pub itoa : Mem → ℤ → ℕ → ℕ → ℕ × Mem
unfolding uitoa_loop
itoa m value sp base =
    let text = uitoa_loop 62 (magnitude value) base [] in
    let text' = if base == 10 && is_negative value then b'-' ∷ text else text in
    (sp, write_text m sp text')

-- `num` is an `int`, held as its bit pattern.
pub atoi_loop : ℕ → Mem → ℕ → ℕ → ℕ → Option ℕ
atoi_loop zero m str i num = none
atoi_loop (suc fuel) m str i num =
    let rest = atoi_loop fuel m str (i + 1) (u32 (num * 10 + (m (str + i) - b'0'))) in
    if leb b'0' (m (str + i)) && leb (m (str + i)) b'9' then rest else some num

-- The result is the `int` as its bit pattern, and the sums wrap, which the program leaves open from
-- 2 ^ 31 on.
unfoldable pub atoi : ℕ → Mem → ℕ → Option ℕ
unfolding atoi_loop
atoi fuel m str = atoi_loop fuel m str (if m (str + 0) == b'-' then 1 else 0) 0
