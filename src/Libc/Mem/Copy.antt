-- ===== src/Libc/Mem/Copy.antt =====
-- memcpy, memmove and memset: what stands in memory afterwards, overlapping regions included.
use blueberry_os.Base.{
  ℕ, zero, suc, ◌+◌, ◌≤◌, ◌<◌, ◌≡◌, ◌≢◌, ◌⊎◌, inl, inr, refl, arith, ◌==◌, Bool-cases, u8,
}
use blueberry_os.Libc.Mem.{Mem, write8, copy_up, copy_down, memcpy, memmove, fill, memset}

pub write8_self : (m : Mem) (p v : ℕ) → write8 m p v p ≡ v
unfolding write8
write8_self m p v = ground arith

pub write8_ne : (m : Mem) (p v a : ℕ) → a ≢ p → write8 m p v a ≡ m a
unfolding write8
write8_ne m p v a h = ground arith

-- Outside of the bytes from `p` up to `p + n`.
abbrev pub Outside : ℕ → ℕ → ℕ → Type 0
Outside a p n = (a < p) ⊎ (p + n ≤ a)

-- Copying upwards is safe if the target lies below the source or behind it.
copy_up_out :
    (n i dst src : ℕ) (m : Mem) (a : ℕ) → Outside a (dst + i) n → copy_up n i dst src m a ≡ m a
unfolding copy_up
copy_up_out zero i dst src m a h = refl
copy_up_out (suc n) i dst src m a h = ground (
  arith,
  copy_up_out n (i + 1) dst src (write8 m (dst + i) (m (src + i))) a,
  write8_ne m (dst + i) (m (src + i)) a,
)

copy_up_in :
    (n i dst src : ℕ) (m : Mem) (k : ℕ)
    → (dst ≤ src) ⊎ (src + (i + n) ≤ dst)
    → i ≤ k
    → k < i + n
    → copy_up n i dst src m (dst + k) ≡ m (src + k)
unfolding copy_up
copy_up_in zero i dst src m k safe lo hi = absurd (omega arith)
copy_up_in (suc n) i dst src m k safe lo hi = elim (Bool-cases (k == i)) [
  | inl e ↦ ground (
    arith,
    copy_up_out n (i + 1) dst src (write8 m (dst + i) (m (src + i))) (dst + k),
    write8_self m (dst + i) (m (src + i)),
  )
  | inr ne ↦ ground (
    arith,
    copy_up_in n (i + 1) dst src (write8 m (dst + i) (m (src + i))) k,
    write8_ne m (dst + i) (m (src + i)) (src + k),
  )
]

copy_down_out : (n dst src : ℕ) (m : Mem) (a : ℕ) → Outside a dst n → copy_down n dst src m a ≡ m a
unfolding copy_down
copy_down_out zero dst src m a h = refl
copy_down_out (suc n) dst src m a h = ground (
  arith,
  copy_down_out n dst src (write8 m (dst + n) (m (src + n))) a,
  write8_ne m (dst + n) (m (src + n)) a,
)

-- Copying downwards is safe if the source lies below the target.
copy_down_in :
    (n dst src : ℕ) (m : Mem) (k : ℕ)
    → src ≤ dst
    → k < n
    → copy_down n dst src m (dst + k) ≡ m (src + k)
unfolding copy_down
copy_down_in zero dst src m k safe hi = absurd (omega arith)
copy_down_in (suc n) dst src m k safe hi = elim (Bool-cases (k == n)) [
  | inl e ↦ ground (
    arith,
    copy_down_out n dst src (write8 m (dst + n) (m (src + n))) (dst + k),
    write8_self m (dst + n) (m (src + n)),
  )
  | inr ne ↦ ground (
    arith,
    copy_down_in n dst src (write8 m (dst + n) (m (src + n))) k,
    write8_ne m (dst + n) (m (src + n)) (src + k),
  )
]

-- memmove, for any two regions, overlapping ones included, returns the target, whose bytes are
-- afterwards the bytes that the source held before; no byte outside the target changes.
pub memmove_lem :
    (m : Mem) (dst src size : ℕ)
    → ((memmove m dst src size).0 ≡ dst)
      × ((k : ℕ) → k < size → (memmove m dst src size).1 (dst + k) ≡ m (src + k))
      × ((a : ℕ) → Outside a dst size → (memmove m dst src size).1 a ≡ m a)
unfolding memmove
memmove_lem m dst src size = (
  ground arith,
  λ k h. ground (arith, copy_up_in size 0 dst src m k, copy_down_in size dst src m k),
  λ a h. ground (arith, copy_up_out size 0 dst src m a, copy_down_out size dst src m a),
)

-- memcpy, if the target lies below the source or behind its last byte, returns the target, whose
-- bytes are afterwards the bytes that the source held before; no byte outside the target changes.
pub memcpy_lem :
    (m : Mem) (dst src size : ℕ)
    → (dst ≤ src) ⊎ (src + size ≤ dst)
    → ((memcpy m dst src size).0 ≡ dst)
      × ((k : ℕ) → k < size → (memcpy m dst src size).1 (dst + k) ≡ m (src + k))
      × ((a : ℕ) → Outside a dst size → (memcpy m dst src size).1 a ≡ m a)
unfolding memcpy
memcpy_lem m dst src size safe = (
  ground arith,
  λ k h. ground (arith, copy_up_in size 0 dst src m k),
  λ a h. ground (arith, copy_up_out size 0 dst src m a),
)

fill_out :
    (n i buf value : ℕ) (m : Mem) (a : ℕ) → Outside a (buf + i) n → fill n i buf value m a ≡ m a
unfolding fill
fill_out zero i buf value m a h = refl
fill_out (suc n) i buf value m a h = ground (
  arith,
  fill_out n (i + 1) buf value (write8 m (buf + i) (u8 value)) a,
  write8_ne m (buf + i) (u8 value) a,
)

fill_in :
    (n i buf value : ℕ) (m : Mem) (k : ℕ)
    → i ≤ k
    → k < i + n
    → fill n i buf value m (buf + k) ≡ u8 value
unfolding fill
fill_in zero i buf value m k lo hi = absurd (omega arith)
fill_in (suc n) i buf value m k lo hi = elim (Bool-cases (k == i)) [
  | inl e ↦ ground (
    arith,
    fill_out n (i + 1) buf value (write8 m (buf + i) (u8 value)) (buf + k),
    write8_self m (buf + i) (u8 value),
  )
  | inr ne ↦ ground (arith, fill_in n (i + 1) buf value (write8 m (buf + i) (u8 value)) k)
]

-- memset returns the buffer, every byte of which is then the value taken as an unsigned char; no
-- byte outside the buffer changes.
pub memset_lem :
    (m : Mem) (buf value size : ℕ)
    → ((memset m buf value size).0 ≡ buf)
      × ((k : ℕ) → k < size → (memset m buf value size).1 (buf + k) ≡ u8 value)
      × ((a : ℕ) → Outside a buf size → (memset m buf value size).1 a ≡ m a)
unfolding memset
memset_lem m buf value size = (
  refl,
  λ k h. fill_in size 0 buf value m k (omega arith) (omega arith),
  λ a h. fill_out size 0 buf value m a (ground arith),
)
