-- ===== src/Libc/Mem.antt =====
-- libc/string: memcpy.c, memmove.c, memset.c and memcmp.c, over a flat memory of bytes.
-- An address is a number, and a routine that returns its pointer returns it beside the memory.
pub mod Copy
pub mod Compare
use blueberry_os.Base.{ℕ, zero, suc, ◌+◌, ◌==◌, Bool, ltb, if◌then◌else◌, u8}
use blueberry_os.Base.Int.{ℤ, pos, negsuc}

abbrev pub Mem : Type 0
Mem = ℕ → ℕ

-- `*p = v`
unfoldable pub write8 : Mem → ℕ → ℕ → Mem
write8 m p v a = if a == p then v else m a

-- `for (i = ...; i < size; i++) dst[i] = src[i];` with `n` rounds left.
pub copy_up : ℕ → ℕ → ℕ → ℕ → Mem → Mem
copy_up zero i dst src m = m
copy_up (suc n) i dst src m = copy_up n (i + 1) dst src (write8 m (dst + i) (m (src + i)))

-- `for (i = size; i != 0; i--) dst[i-1] = src[i-1];`
pub copy_down : ℕ → ℕ → ℕ → Mem → Mem
copy_down zero dst src m = m
copy_down (suc n) dst src m = copy_down n dst src (write8 m (dst + n) (m (src + n)))

unfoldable pub memcpy : Mem → ℕ → ℕ → ℕ → ℕ × Mem
unfolding copy_up
memcpy m dst src size = if src == dst then (dst, m) else (dst, copy_up size 0 dst src m)

unfoldable pub memmove : Mem → ℕ → ℕ → ℕ → ℕ × Mem
unfolding copy_up copy_down
memmove m dst src size =
    if src == dst
    then (dst, m)
    else if ltb dst src
    then (dst, copy_up size 0 dst src m)
    else (dst, copy_down size dst src m)

pub fill : ℕ → ℕ → ℕ → ℕ → Mem → Mem
fill zero i buf value m = m
fill (suc n) i buf value m = fill n (i + 1) buf value (write8 m (buf + i) (u8 value))

unfoldable pub memset : Mem → ℕ → ℕ → ℕ → ℕ × Mem
unfolding fill
memset m buf value size = (buf, fill size 0 buf value m)

pub compare_bytes : ℕ → ℕ → Mem → ℕ → ℕ → ℤ
compare_bytes zero i m a b = pos 0
compare_bytes (suc n) i m a b =
    let rest = compare_bytes n (i + 1) m a b in
    if ltb (m (a + i)) (m (b + i))
    then negsuc 0
    else if ltb (m (b + i)) (m (a + i))
    then pos 1
    else rest

unfoldable pub memcmp : Mem → ℕ → ℕ → ℕ → ℤ
unfolding compare_bytes
memcmp m a b size = compare_bytes size 0 m a b
