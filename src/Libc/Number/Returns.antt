-- ===== src/Libc/Number/Returns.antt =====
-- atoi returns where a NUL stands within its rounds.
use mathlib.Core.Option
use blueberry_os.Base.{
  ℕ, zero, suc, ◌+◌, ◌-◌, ◌*◌, ◌≤◌, ◌<◌, ◌≡◌, arith, Bool-cases, inl, inr, Bool, true, false, ◌==◌,
  ◌&&◌, leb, u32, if◌then◌else◌, Option, none, some,
}
use blueberry_os.Libc.Mem.{Mem}
use blueberry_os.Libc.Number.{atoi_loop, atoi}

-- The value is there, whatever it is.
abbrev pub Returns : {A : Type 0} → Option A → Type 0
Returns none = ⊥
Returns (some a) = Unit

pub if-Returns :
    {A : Type 0} (b : Bool) (x y : Option A) → Returns x → Returns y → Returns (if b then x else y)
if-Returns true x y p q = p
if-Returns false x y p q = q

pub map-Returns : {A B : Type 0} (f : A → B) (o : Option A) → Returns o → Returns (Option.map f o)
map-Returns f none h = h
map-Returns f (some a) h = tt

atoi_loop-Returns :
    (fuel : ℕ) (m : Mem) (str i num e : ℕ)
    → m (str + e) ≡ 0
    → i ≤ e
    → e < i + fuel
    → Returns (atoi_loop fuel m str i num)
unfolding atoi_loop
atoi_loop-Returns zero m str i num e z lo hi = absurd (omega arith)
atoi_loop-Returns (suc fuel) m str i num e z lo hi = elim (Bool-cases (i == e)) [
  | inl same ↦
      let stop : (leb b'0' (m (str + i)) && leb (m (str + i)) b'9') ≡ false = ground arith in
      rw stop tt
  | inr other ↦
      if-Returns (leb b'0' (m (str + i)) && leb (m (str + i)) b'9') _ (some num)
        (atoi_loop-Returns fuel m str (i + 1) (u32 (num * 10 + (m (str + i) - b'0'))) e z
          (ground arith) (ground arith))
        tt
]

-- A NUL within the fuel ends the number.
pub atoi-Returns :
    (fuel : ℕ) (m : Mem) (str e : ℕ) → m (str + e) ≡ 0 → e < fuel → Returns (atoi fuel m str)
unfolding atoi
atoi-Returns fuel m str e z lt = elim (Bool-cases (m (str + 0) == b'-')) [
  | inl minus ↦ rw minus (atoi_loop-Returns fuel m str 1 0 e z (positive e z minus) (omega arith))
  | inr digit ↦ rw digit (atoi_loop-Returns fuel m str 0 0 e z (omega arith) (omega arith))
]
  where
    positive : (j : ℕ) → m (str + j) ≡ 0 → (m (str + 0) == b'-') ≡ true → 1 ≤ j
    positive zero y minus = ground arith
    positive (suc j) y minus = omega arith
