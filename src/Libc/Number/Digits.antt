-- ===== src/Libc/Number/Digits.antt =====
-- uitoa writes the digits of its value, in every base from 2 to 17. (In larger bases the digit 17
-- is written as 'A', which also stands for 10.)
use native.Mathlib.Nat.{pow-suc}
use blueberry_os.Base.{
  ℕ, zero, suc, ◌+◌, ◌-◌, ◌*◌, ◌/◌, ◌%◌, ◌^◌, ◌≤◌, ◌<◌, ◌≡◌, ◌≢◌, refl, arith, List, [], ◌∷◌, ltb,
  ap, length, ==→eq, ◌==◌, Bool-cases, inl, inr, ◌∙◌, if◌then◌else◌,
}
use blueberry_os.Libc.Number.{digit_char, uitoa_loop}

-- The digit that a character stands for.
unfoldable pub digit_val : ℕ → ℕ
digit_val c = if ltb b'9' c then c - (b'A' - 10) else c - b'0'

-- A text read as a number in a base, with `acc` in front of it.
unfoldable pub value_of : ℕ → ℕ → List ℕ → ℕ
value_of base acc [] = acc
value_of base acc (c ∷ s) = value_of base (acc * base + digit_val c) s

digit_val-digit_char : (d : ℕ) → d < 17 → digit_val (digit_char d) ≡ d
unfolding digit_val digit_char
digit_val-digit_char d h = ground arith

-- `v` has a digit less behind a division by a base of at least 2.
shorter : (v base p : ℕ) → 2 ≤ base → v < p * 2 → v / base < p
shorter v base p h lt = grind arith

value_of-cons :
    (base v : ℕ) (text : List ℕ)
    → 2 ≤ base
    → base ≤ 17
    → value_of base (v / base) (digit_char (v % base) ∷ text) ≡ value_of base v text
unfolding value_of
value_of-cons base v text lo hi =
    let d : digit_val (digit_char (v % base)) ≡ v % base =
      digit_val-digit_char (v % base) (omega arith) in
    ap (λ z. value_of base z text) (grind (arith, d))

uitoa_loop-last :
    (i v base : ℕ) (text : List ℕ)
    → v / base ≡ 0
    → uitoa_loop (suc i) v base text ≡ digit_char (v % base) ∷ text
unfolding uitoa_loop
uitoa_loop-last i v base text e = ground arith

uitoa_loop-step :
    (i v base : ℕ) (text : List ℕ)
    → i ≢ 0
    → v / base ≢ 0
    → uitoa_loop (suc i) v base text ≡ uitoa_loop i (v / base) base (digit_char (v % base) ∷ text)
unfolding uitoa_loop
uitoa_loop-step i v base text h e = ground arith

-- The loop, with room for the digits of `v`, puts them in front of the text written so far.
pub value_of-uitoa_loop :
    (i v base : ℕ) (text : List ℕ)
    → 2 ≤ base
    → base ≤ 17
    → v < 2 ^ suc i
    → value_of base 0 (uitoa_loop (suc i) v base text) ≡ value_of base v text
value_of-uitoa_loop zero v base text lo hi lt =
    let z : v / base ≡ 0 = omega (arith, shorter v base 1 lo (omega arith)) in
    rw (uitoa_loop-last 0 v base text z, ← value_of-cons base v text lo hi, z) refl
value_of-uitoa_loop (suc i) v base text lo hi lt = elim (Bool-cases (v / base == 0)) [
  | inl e ↦
      let z : v / base ≡ 0 = ==→eq _ _ e in
      rw (uitoa_loop-last (suc i) v base text z, ← value_of-cons base v text lo hi, z) refl
  | inr e ↦
      ap (value_of base 0) (uitoa_loop-step (suc i) v base text (omega arith) (ground arith))
      ∙ value_of-uitoa_loop i (v / base) base (digit_char (v % base) ∷ text) lo hi
          (shorter v base (2 ^ suc i) lo (rw pow-suc at lt))
      ∙ value_of-cons base v text lo hi
]

-- Every character of a text stands for a digit below the base.
pub data AllDigits (base : ℕ) : List ℕ → Type 0 where
  none : AllDigits base []
  more :
      {c : ℕ} {s : List ℕ}
      → b'0' ≤ c
      → c < b'A' + base
      → (base ≤ 10 → c ≤ b'9')
      → AllDigits base s
      → AllDigits base (c ∷ s)

AllDigits-cons :
    (base d : ℕ) (text : List ℕ)
    → d < base
    → base ≤ 17
    → AllDigits base text
    → AllDigits base (digit_char d ∷ text)
unfolding digit_char
AllDigits-cons base d text lt hi h = more (ground arith) (ground arith) (λ b. ground arith) h

pub uitoa_loop-AllDigits :
    (i v base : ℕ) (text : List ℕ)
    → 2 ≤ base
    → base ≤ 17
    → AllDigits base text
    → AllDigits base (uitoa_loop i v base text)
unfolding uitoa_loop
uitoa_loop-AllDigits zero v base text lo hi h = h
uitoa_loop-AllDigits (suc i) v base text lo hi h =
    let h' : AllDigits base (digit_char (v % base) ∷ text) =
      AllDigits-cons base (v % base) text (omega arith) hi h in
    let rest = uitoa_loop-AllDigits i (v / base) base (digit_char (v % base) ∷ text) lo hi h' in
    elim (Bool-cases (i == 0)) [
      | inl e ↦ rw e h'
      | inr e ↦ elim (Bool-cases (v / base == 0)) [ inl z ↦ rw (e, z) h' | inr z ↦ rw (e, z) rest ]
    ]

-- The text fits into the bytes of `tmp` that the index has left.
pub length-uitoa_loop :
    (i v base : ℕ) (text : List ℕ) → length (uitoa_loop i v base text) ≤ i + length text
unfolding uitoa_loop
length-uitoa_loop zero v base text = omega arith
length-uitoa_loop (suc i) v base text =
    ground (arith, length-uitoa_loop i (v / base) base (digit_char (v % base) ∷ text))
