-- ===== src/Libc/Str/Copy.antt =====
-- strcpy and strcat: the text that stands at the destination afterwards.
use mathlib.Core.Option
use blueberry_os.Base.{
  ℕ, zero, suc, ◌+◌, ◌≤◌, ◌<◌, ◌≡◌, ◌≢◌, ◌⊎◌, refl, arith, some, List, [], ◌∷◌, ◌++◌, length,
  length-append, ◌∙◌,
}
use native.Mathlib.Nat.{add_assoc}
use blueberry_os.Libc.Mem.{Mem, write8}
use blueberry_os.Libc.Mem.Copy.{write8_self, write8_ne, Outside}
use blueberry_os.Libc.Str.{IsStr, strcpy_loop, strcpy, strcat_loop, strcat}
use blueberry_os.Libc.Str.Length.{IsStr-frame, IsStr-append, strlen-length}

-- The source text of `n` characters is not overwritten before it is read.
abbrev pub Apart : ℕ → ℕ → ℕ → Type 0
Apart dest src n = (dest ≤ src) ⊎ (src + n < dest)

-- The memory `n` holds the text `s` at `p`, and agrees with `m` outside of that text and its NUL.
pub record Holds (m n : Mem) (p : ℕ) (s : List ℕ) : Type 0 where
  pub text : IsStr n p s
  pub same : (a : ℕ) → Outside a p (length s + 1) → n a ≡ m a

pub Holds-nil : (m : Mem) (p : ℕ) → Holds m (write8 m p 0) p []
Holds-nil m p = record { text = write8_self m p 0; same = λ a h. write8_ne m p 0 a (ground arith) }

pub Holds-cons :
    (m n : Mem) (p q c : ℕ) (s : List ℕ)
    → p ≡ q
    → c ≢ 0
    → Holds (write8 m q c) n (p + 1) s
    → Holds m n p (c ∷ s)
Holds-cons m n p q c s e ne h = record {
  text = (ground (arith, h.same p, write8_self m q c), ne, h.text);
  same = λ a out. ground (arith, h.same a, write8_ne m q c a);
}

strcpy_loop-step :
    (fuel : ℕ) (m : Mem) (dest src i c : ℕ)
    → m (src + i) ≡ c
    → c ≢ 0
    → strcpy_loop (suc fuel) m dest src i
      ≡ strcpy_loop fuel (write8 m (dest + i) c) dest src (i + 1)
unfolding strcpy_loop
strcpy_loop-step fuel m dest src i c e ne = rw e (ground arith)

strcpy_loop-Holds :
    (fuel : ℕ) (m : Mem) (dest src i p q : ℕ) (s : List ℕ)
    → p ≡ src + i
    → q ≡ dest + i
    → IsStr m p s
    → Apart dest src (i + length s)
    → length s < fuel
    → (n : Mem) × (strcpy_loop fuel m dest src i ≡ some n) × Holds m n q s
unfolding strcpy_loop
strcpy_loop-Holds zero m dest src i p q s e eq h apart f = absurd (omega arith)
strcpy_loop-Holds (suc fuel) m dest src i p q [] e eq h apart f =
    (write8 m q 0, ground arith, Holds-nil m q)
strcpy_loop-Holds (suc fuel) m dest src i p q (c ∷ s) e eq h apart f =
    let m' : Mem = write8 m (dest + i) c in
    let kept : IsStr m' (p + 1) s =
      IsStr-frame m m' (p + 1) s (λ a lo hi. write8_ne m (dest + i) c a (ground arith)) h.2 in
    let (n, run, holds) =
      strcpy_loop-Holds fuel m' dest src (i + 1) (p + 1) (q + 1) s (omega arith) (omega arith) kept
        (ground arith) (omega arith) in
    (
      n,
      strcpy_loop-step fuel m dest src i c (ground arith) h.1 ∙ run,
      Holds-cons m n q (dest + i) c s eq h.1 holds,
    )

-- strcpy, with more rounds than the source has characters and a destination that does not overwrite
-- the source before it is read, returns the destination; afterwards the source's text stands there,
-- and no byte outside of that text and its NUL has changed.
pub strcpy-Holds :
    (fuel : ℕ) (m : Mem) (dest src : ℕ) (s : List ℕ)
    → IsStr m src s
    → Apart dest src (length s)
    → length s < fuel
    → (n : Mem) × (strcpy fuel m dest src ≡ some (dest, n)) × Holds m n dest s
unfolding strcpy
strcpy-Holds fuel m dest src s h apart f =
    let (n, run, holds) =
      strcpy_loop-Holds fuel m dest src 0 src dest s (omega arith) (omega arith) h (ground arith)
        f in
    (n, rw run refl, holds)

-- The loop of strcat is that of strcpy behind the first text.
strcat_loop-strcpy_loop :
    (fuel : ℕ) (m : Mem) (dst src len i : ℕ)
    → strcat_loop fuel m dst src len i ≡ strcpy_loop fuel m (dst + len) src i
unfolding strcat_loop strcpy_loop
strcat_loop-strcpy_loop zero m dst src len i = refl
strcat_loop-strcpy_loop (suc fuel) m dst src len i =
    rw (← add_assoc dst len i) (
      rw
        (strcat_loop-strcpy_loop fuel (write8 m (dst + len + i) (m (src + i))) dst src len (i + 1)))

-- strcat, with more rounds than either text has characters and a source that the text written
-- behind the first does not overwrite before it is read, returns the destination; afterwards the
-- two texts stand there one behind the other, and no byte outside of them and the NUL has changed.
pub strcat-append :
    (fuel : ℕ) (m : Mem) (dst src : ℕ) (s t : List ℕ)
    → IsStr m dst s
    → IsStr m src t
    → Apart (dst + length s) src (length t)
    → length s < fuel
    → length t < fuel
    → (n : Mem) × (strcat fuel m dst src ≡ some (dst, n)) × Holds m n dst (s ++ t)
unfolding strcat Option.bind
strcat-append fuel m dst src s t hs ht apart fs ft =
    let (n, run, holds) =
      strcpy_loop-Holds fuel m (dst + length s) src 0 src (dst + length s) t (omega arith)
        (omega arith) ht (ground arith) ft in
    (
      n,
      rw (strlen-length fuel m dst s hs fs, strcat_loop-strcpy_loop, run) refl,
      record {
        text = IsStr-append m n dst s t hs (λ a lo hi. holds.same a (ground arith)) holds.text;
        same = λ a out. holds.same a (ground (arith, length-append s t));
      },
    )
