-- ===== src/Libc/Number/Parse.antt =====
-- What uitoa leaves in memory, and what atoi reads there.
use blueberry_os.Base.{
  ℕ, zero, suc, ◌+◌, ◌-◌, ◌*◌, ◌^◌, ◌≤◌, ◌<◌, ◌≡◌, refl, ap, ◌∙◌, arith, some, List, [], ◌∷◌, ◌==◌,
  u32, length, true, false,
}
use blueberry_os.Libc.Mem.{Mem, write8}
use blueberry_os.Libc.Str.{IsStr}
use blueberry_os.Libc.Str.Copy.{Holds, Holds-nil, Holds-cons}
use blueberry_os.Libc.Number.{uitoa_loop, write_text, uitoa, atoi_loop, atoi}
use blueberry_os.Libc.Number.Digits.{
  digit_val, value_of, value_of-uitoa_loop, AllDigits, none, more, length-uitoa_loop,
  uitoa_loop-AllDigits,
}

write_text-Holds :
    (m : Mem) (sp base : ℕ) (s : List ℕ) → AllDigits base s → Holds m (write_text m sp s) sp s
unfolding write_text
write_text-Holds m sp base [] none = Holds-nil m sp
write_text-Holds m sp base (c ∷ s) (more lo hi dec h) =
    Holds-cons m (write_text (write8 m sp c) (sp + 1) s) sp sp c s refl (omega arith)
      (write_text-Holds (write8 m sp c) (sp + 1) base s h)

-- uitoa, in a base from 2 to 17, returns its buffer, in which a text of digits now stands that
-- reads as the value in that base and has at most 62 characters; no byte outside of the text and
-- its NUL has changed.
pub uitoa_lem :
    (m : Mem) (value sp base : ℕ)
    → 2 ≤ base
    → base ≤ 17
    → value < 2 ^ 32
    → (s : List ℕ) × ((uitoa m value sp base).0 ≡ sp)
      × Holds m (uitoa m value sp base).1 sp s
      × AllDigits base s
      × (value_of base 0 s ≡ value)
      × (length s ≤ 62)
unfolding uitoa value_of
uitoa_lem m value sp base lo hi lt =
    let digits = uitoa_loop-AllDigits 62 value base [] lo hi none in
    (
      uitoa_loop 62 value base [],
      refl,
      write_text-Holds m sp base (uitoa_loop 62 value base []) digits,
      digits,
      value_of-uitoa_loop 61 value base [] lo hi (omega arith),
      omega (arith, length-uitoa_loop 62 value base []),
    )

value_of-u32 :
    (a b : ℕ) (s : List ℕ) → u32 a ≡ u32 b → u32 (value_of 10 a s) ≡ u32 (value_of 10 b s)
unfolding value_of
value_of-u32 a b [] e = e
value_of-u32 a b (c ∷ s) e =
    value_of-u32 (a * 10 + digit_val c) (b * 10 + digit_val c) s (omega arith)

digit_val-decimal : (c : ℕ) → c ≤ b'9' → digit_val c ≡ c - b'0'
unfolding digit_val
digit_val-decimal c h = ground arith

atoi_loop-step :
    (fuel : ℕ) (m : Mem) (str i num c : ℕ)
    → m (str + i) ≡ c
    → b'0' ≤ c
    → c ≤ b'9'
    → atoi_loop (suc fuel) m str i num ≡ atoi_loop fuel m str (i + 1) (u32 (num * 10 + (c - b'0')))
unfolding atoi_loop
atoi_loop-step fuel m str i num c e lo hi = rw e (ground arith)

atoi_loop-value_of :
    (fuel : ℕ) (m : Mem) (str i num p : ℕ) (s : List ℕ)
    → p ≡ str + i
    → IsStr m p s
    → AllDigits 10 s
    → length s < fuel
    → num < 2 ^ 32
    → atoi_loop fuel m str i num ≡ some (u32 (value_of 10 num s))
unfolding atoi_loop value_of
atoi_loop-value_of zero m str i num p s e h d f lt = absurd (omega arith)
atoi_loop-value_of (suc fuel) m str i num p [] e h none f lt = ground arith
atoi_loop-value_of (suc fuel) m str i num p (c ∷ s) e h (more lo hi dec d) f lt =
    let next : ℕ = u32 (num * 10 + (c - b'0')) in
    atoi_loop-step fuel m str i num c (ground arith) lo (dec (omega arith))
    ∙ atoi_loop-value_of fuel m str (i + 1) next (p + 1) s (omega arith) h.2 d (omega arith)
        (omega arith)
    ∙ ap some (
        value_of-u32 next (num * 10 + digit_val c) s
          (omega (arith, digit_val-decimal c (dec (omega arith)))))

-- The first character is no minus sign.
first_digit :
    (m : Mem) (str : ℕ) (s : List ℕ)
    → IsStr m str s
    → AllDigits 10 s
    → (m (str + 0) == b'-') ≡ false
first_digit m str [] h none = ground arith
first_digit m str (c ∷ s) h (more lo hi dec d) = ground arith

-- atoi, on a text of decimal digits with more rounds than it has characters, returns the number
-- that the text reads as, modulo 2 ^ 32.
pub atoi-value_of :
    (fuel : ℕ) (m : Mem) (str : ℕ) (s : List ℕ)
    → IsStr m str s
    → AllDigits 10 s
    → length s < fuel
    → atoi fuel m str ≡ some (u32 (value_of 10 0 s))
unfolding atoi
atoi-value_of fuel m str s h d f =
    rw (first_digit m str s h d)
      (atoi_loop-value_of fuel m str 0 0 str s (omega arith) h d f (omega arith))

-- atoi skips a leading minus sign and then forgets it: the text with the sign gives the number that
-- the digits alone stand for.
pub atoi_minus :
    (fuel : ℕ) (m : Mem) (str : ℕ) (s : List ℕ)
    → IsStr m str (b'-' ∷ s)
    → AllDigits 10 s
    → length s < fuel
    → atoi fuel m str ≡ some (u32 (value_of 10 0 s))
unfolding atoi
atoi_minus fuel m str s h d f =
    let minus : (m (str + 0) == b'-') ≡ true = ground (arith, h.0) in
    rw minus (atoi_loop-value_of fuel m str 1 0 (str + 1) s refl h.2 d f (omega arith))

-- atoi reads back what uitoa wrote in base 10, for every 32-bit value; 64 rounds are enough.
pub atoi-uitoa :
    (m : Mem) (value sp : ℕ) → value < 2 ^ 32 → atoi 64 (uitoa m value sp 10).1 sp ≡ some value
atoi-uitoa m value sp lt =
    let (s, ret, holds, digits, reads, short) =
      uitoa_lem m value sp 10 (omega arith) (omega arith) lt in
    atoi-value_of 64 (uitoa m value sp 10).1 sp s holds.text digits (omega arith)
    ∙ ap some (omega (arith, reads))
