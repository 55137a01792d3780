-- ===== src/Kernel/Library.antt =====
-- lab4-TheCarton-main/lib.cc: the functions on memory that the kernel and the processes share. The
-- memory is a function from addresses to bytes, and the ranges do not wrap around. strlen and the
-- functions that stop only at a NUL are left out.
pub mod Laws
mod Tests
use systems_projects.Base.{
  ℕ, zero, suc, ◌+◌, ◌-◌, ◌%◌, ◌&&◌, Option, none, some, ◌==◌, ltb, if◌then◌else◌, ℤ, pos, negsuc,
}

abbrev pub Memory : Type 0
Memory = ℕ → ℕ

abbrev pub poke : Memory → ℕ → ℕ → Memory
poke m a v = λ x. if x == a then v else m x

-- `*d++ = *s++`, `n` times.
unfoldable pub copy_up : (n dst src : ℕ) → Memory → Memory
copy_up zero d s m = m
copy_up (suc n) d s m = copy_up n (suc d) (suc s) (poke m d (m s))

-- `*--d = *--s`, `n` times.
unfoldable pub copy_down : (n dst_end src_end : ℕ) → Memory → Memory
copy_down zero d s m = m
copy_down (suc n) d s m = copy_down n (d - 1) (s - 1) (poke m (d - 1) (m (s - 1)))

unfoldable pub memcpy : (dst src n : ℕ) → Memory → Memory
memcpy dst src n m = copy_up n dst src m

unfoldable pub memmove : (dst src n : ℕ) → Memory → Memory
memmove dst src n m =
    let down = copy_down n (dst + n) (src + n) m in
    let up = copy_up n dst src m in if ltb src dst && ltb dst (src + n) then down else up

-- The byte is `c` cut to a char.
unfoldable pub memset : (v c n : ℕ) → Memory → Memory
memset p c zero m = m
memset p c (suc n) m = memset (suc p) c n (poke m p (c % 256))

-- `(a > b) - (a < b)`
abbrev pub sign : ℕ → ℕ → ℤ
sign a b = if ltb b a then pos 1 else if ltb a b then negsuc 0 else pos 0

unfoldable pub memcmp : (a b n : ℕ) → Memory → ℤ
memcmp a b zero m = pos 0
memcmp a b (suc n) m =
    let rest = memcmp (suc a) (suc b) n m in if m a == m b then rest else sign (m a) (m b)

unfoldable pub memchr : (s c n : ℕ) → Memory → Option ℕ
memchr s c zero m = none
memchr s c (suc n) m = let rest = memchr (suc s) c n m in if m s == c % 256 then some s else rest

unfoldable pub strnlen : (s maxlen : ℕ) → Memory → ℕ
strnlen s zero m = 0
strnlen s (suc n) m = let rest = strnlen (suc s) n m in if m s == 0 then 0 else suc rest
