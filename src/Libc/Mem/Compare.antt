-- ===== src/Libc/Mem/Compare.antt =====
-- memcmp compares byte by byte and decides at the first difference.
use blueberry_os.Base.{
  ℕ, zero, suc, ◌+◌, ◌≤◌, ◌<◌, ◌≡◌, inl, inr, arith, ◌==◌, ltb, Bool-cases, ltb→lt,
}
use blueberry_os.Base.Int.{ℤ, pos, negsuc}
use blueberry_os.Libc.Mem.{Mem, compare_bytes, memcmp}

-- The bytes behind `a` and `b` agree from index `i` up to index `k`.
abbrev pub Agree : Mem → ℕ → ℕ → ℕ → ℕ → Type 0
Agree m a b i k = (j : ℕ) → i ≤ j → j < k → m (a + j) ≡ m (b + j)

-- What a result of a comparison of the bytes from `i` up to `e` says.
pub data Compared (m : Mem) (a b i e : ℕ) : ℤ → Type 0 where
  same : Agree m a b i e → Compared m a b i e (pos 0)
  less :
      (k : ℕ)
      → i ≤ k
      → k < e
      → Agree m a b i k
      → m (a + k) < m (b + k)
      → Compared m a b i e (negsuc 0)
  more :
      (k : ℕ) → i ≤ k → k < e → Agree m a b i k → m (b + k) < m (a + k) → Compared m a b i e (pos 1)

module _ (m : Mem) (a b : ℕ) where
  Agree-from : (i k : ℕ) → m (a + i) ≡ m (b + i) → Agree m a b (i + 1) k → Agree m a b i k
  Agree-from i k e h j lo hi = elim (Bool-cases (j == i)) [
    | inl same_j ↦ ground arith
    | inr other ↦ h j (ground arith) hi
  ]

  Compared-cons :
      (i e : ℕ) {r : ℤ} → m (a + i) ≡ m (b + i) → Compared m a b (i + 1) e r → Compared m a b i e r
  Compared-cons i e eq (same h) = same (Agree-from i e eq h)
  Compared-cons i e eq (less k lo hi h d) = less k (omega arith) hi (Agree-from i k eq h) d
  Compared-cons i e eq (more k lo hi h d) = more k (omega arith) hi (Agree-from i k eq h) d

  compare_bytes-Compared : (n i e : ℕ) → i + n ≡ e → Compared m a b i e (compare_bytes n i m a b)
  unfolding compare_bytes
  compare_bytes-Compared zero i e h = same (λ j lo hi. absurd (omega arith))
  compare_bytes-Compared (suc n) i e h = elim (Bool-cases (ltb (m (a + i)) (m (b + i)))) [
    | inl lt ↦
        rw lt (less i (omega arith) (omega arith) (λ j lo hi. absurd (omega arith)) (ltb→lt _ _ lt))
    | inr ge ↦ elim (Bool-cases (ltb (m (b + i)) (m (a + i)))) [
      | inl gt ↦
          rw (ge, gt)
            (more i (omega arith) (omega arith) (λ j lo hi. absurd (omega arith)) (ltb→lt _ _ gt))
      | inr le ↦
          rw (ge, le)
            (Compared-cons i e (ground arith) (compare_bytes-Compared n (i + 1) e (omega arith)))
    ]
  ]

-- memcmp returns 0 when all `size` bytes agree, and otherwise -1 or 1 by the order, as unsigned
-- bytes, of the first two that differ.
pub memcmp-Compared : (m : Mem) (a b size : ℕ) → Compared m a b 0 size (memcmp m a b size)
unfolding memcmp
memcmp-Compared m a b size = compare_bytes-Compared m a b size 0 size (omega arith)
