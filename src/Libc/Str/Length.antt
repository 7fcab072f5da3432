-- ===== src/Libc/Str/Length.antt =====
-- strlen, and how a text in memory survives a change elsewhere.
use blueberry_os.Base.{
  ℕ, zero, suc, ◌+◌, ◌≤◌, ◌<◌, ◌≡◌, subst, arith, some, List, [], ◌∷◌, ◌++◌, length,
}
use blueberry_os.Libc.Mem.{Mem}
use blueberry_os.Libc.Str.{IsStr, strlen_loop, strlen}

pub IsStr-at : (m : Mem) (s : List ℕ) (p q : ℕ) → p ≡ q → IsStr m p s → IsStr m q s
IsStr-at m s p q e h = subst (λ a. IsStr m a s) e h

strlen_loop-length :
    (fuel : ℕ) (m : Mem) (str len p : ℕ) (s : List ℕ)
    → p ≡ str + len
    → IsStr m p s
    → length s < fuel
    → strlen_loop fuel m str len ≡ some (len + length s)
unfolding strlen_loop
strlen_loop-length zero m str len p s e h f = absurd (omega arith)
strlen_loop-length (suc fuel) m str len p [] e h f = ground arith
strlen_loop-length (suc fuel) m str len p (c ∷ s) e h f =
    ground (arith, strlen_loop-length fuel m str (len + 1) (p + 1) s)

-- strlen, with more rounds than the text has characters, returns the number of characters in front
-- of the NUL.
pub strlen-length :
    (fuel : ℕ) (m : Mem) (str : ℕ) (s : List ℕ)
    → IsStr m str s
    → length s < fuel
    → strlen fuel m str ≡ some (length s)
unfolding strlen
strlen-length fuel m str s h f =
    ground (arith, strlen_loop-length fuel m str 0 str s (omega arith) h f)

-- A text reads the same in a memory that agrees on its bytes.
pub IsStr-frame :
    (m n : Mem) (p : ℕ) (s : List ℕ)
    → ((a : ℕ) → p ≤ a → a ≤ p + length s → n a ≡ m a)
    → IsStr m p s
    → IsStr n p s
IsStr-frame m n p [] same h = ground (arith, same p)
IsStr-frame m n p (c ∷ s) same h = (
  ground (arith, same p (omega arith) (omega arith)),
  h.1,
  IsStr-frame m n (p + 1) s (λ a lo hi. same a (omega arith) (omega arith)) h.2,
)

-- A text ends where another begins: together they are one text.
pub IsStr-append :
    (m n : Mem) (p : ℕ) (s t : List ℕ)
    → IsStr m p s
    → ((a : ℕ) → p ≤ a → a < p + length s → n a ≡ m a)
    → IsStr n (p + length s) t
    → IsStr n p (s ++ t)
IsStr-append m n p [] t h same k = IsStr-at n t (p + 0) p (omega arith) k
IsStr-append m n p (c ∷ s) t h same k = (
  ground (arith, same p (omega arith) (omega arith)),
  h.1,
  IsStr-append m n (p + 1) s t h.2 (λ a lo hi. same a (omega arith) (omega arith))
      (IsStr-at n t (p + suc (length s)) (p + 1 + length s) (omega arith) k),
)
