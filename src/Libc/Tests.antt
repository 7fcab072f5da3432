-- ===== src/Libc/Tests.antt =====
-- The theorems on libc, applied to small memories.
use blueberry_os.Base.{ℕ, ◌+◌, ◌%◌, ◌≡◌, refl, arith, none, some, List, [], ◌∷◌, get_or, u32}
use blueberry_os.Base.Int.{ℤ}
use blueberry_os.Libc.Mem.{Mem, memmove}
use blueberry_os.Libc.Mem.Copy.{memmove_lem}
use blueberry_os.Libc.Str.{IsStr, strcmp}
use blueberry_os.Libc.Str.Order.{ZeroIff, IsBytes, strcmp-ZeroIff}
use blueberry_os.Libc.Number.{uitoa, atoi}
use blueberry_os.Libc.Number.Digits.{value_of, AllDigits, none, more}
use blueberry_os.Libc.Number.Parse.{atoi_minus, atoi-uitoa}

abbrev counter : Mem
counter a = a % 256

-- The texts "ab" at 0, "-42" at 3, "42" at 4, "ab" at 7 and "b" at 10.
abbrev texts : List ℕ
texts = 97 ∷ 98 ∷ 0 ∷ 45 ∷ 52 ∷ 50 ∷ 0 ∷ 97 ∷ 98 ∷ 0 ∷ 98 ∷ 0 ∷ []

abbrev sample : Mem
sample a = get_or texts a 0 % 256

abbrev ab : List ℕ
ab = 97 ∷ 98 ∷ []

abbrev b_only : List ℕ
b_only = 98 ∷ []

abbrev forty_two : List ℕ
forty_two = 52 ∷ 50 ∷ []

ab_stands : IsStr sample 0 ab
ab_stands = (refl, (λ e. omega arith), (refl, (λ e. omega arith), refl))

ab_again : IsStr sample 7 ab
ab_again = (refl, (λ e. omega arith), (refl, (λ e. omega arith), refl))

b_stands : IsStr sample 10 b_only
b_stands = (refl, (λ e. omega arith), refl)

minus_stands : IsStr sample 3 (45 ∷ forty_two)
minus_stands =
    (refl, (λ e. omega arith), (refl, (λ e. omega arith), (refl, (λ e. omega arith), refl)))

digits_stand : IsStr sample 4 forty_two
digits_stand = (refl, (λ e. omega arith), (refl, (λ e. omega arith), refl))

digits : AllDigits 10 forty_two
digits =
    more (omega arith) (omega arith) (λ h. omega arith)
      (more (omega arith) (omega arith) (λ h. omega arith) none)

bytes : IsBytes sample
bytes a = omega arith

memmove_example : (memmove counter 2 0 5).1 (2 + 3) ≡ counter (0 + 3)
memmove_example = (memmove_lem counter 2 0 5).1 3 (omega arith)

strcmp_example : (r : ℤ) × (strcmp 3 sample 0 7 ≡ some r) × ZeroIff r (ab ≡ ab)
strcmp_example = strcmp-ZeroIff sample bytes 0 7 3 ab ab ab_stands ab_again (omega arith)

atoi_minus_example : atoi 3 sample 3 ≡ some (u32 (value_of 10 0 forty_two))
atoi_minus_example = atoi_minus 3 sample 3 forty_two minus_stands digits (omega arith)

atoi-uitoa_example : atoi 64 (uitoa counter 1234 40 10).1 40 ≡ some 1234
atoi-uitoa_example = atoi-uitoa counter 1234 40 (omega arith)
