-- ===== src/Bytes/Copy.antt =====
-- `memcpy`, `memmove` and `memset` of olive/src/lib/string.c, byte by byte.
use fwp_athix.Prelude.{
  ℕ, zero, suc, ◌+◌, ◌-◌, ◌≤◌, ◌≡◌, ◌⊎◌, arith, u8, ltb, leb, ◌&&◌, if◌then◌else◌,
}
use fwp_athix.Bytes.{Memory, put, copy_up, copy_down, memcpy, memmove, memset}

-- The memory after `n` bytes from `s` have been copied to `d` at once.
abbrev pub copied : ℕ → ℕ → ℕ → Memory → Memory
copied d s n m a = if leb d a && ltb a (d + n) then m (s + (a - d)) else m a

-- Upwards from index `i`, the bytes that are still to be read have not been overwritten if the
-- destination lies below the source, or past its end.
copy_up-copied :
    (d s n i : ℕ) (m : Memory) (a : ℕ)
    → (d ≤ s) ⊎ (s + i + n ≤ d + i)
    → copy_up d s i n m a ≡ (if leb (d + i) a && ltb a (d + i + n) then m (s + (a - d)) else m a)
unfolding copy_up
copy_up-copied d s zero i m a apart = ground arith
copy_up-copied d s (suc n) i m a apart =
    ground (arith, copy_up-copied d s n (i + 1) (put m (d + i) (m (s + i))) a)

copy_down-copied : (d s n : ℕ) (m : Memory) (a : ℕ) → s ≤ d → copy_down d s n m a ≡ copied d s n m a
unfolding copy_down
copy_down-copied d s zero m a below = ground arith
copy_down-copied d s (suc n) m a below =
    ground (arith, copy_down-copied d s n (put m (d + n) (m (s + n))) a)

-- `memmove` copies as if through a second buffer, however source and destination overlap.
pub memmove-copied : (d s n : ℕ) (m : Memory) (a : ℕ) → memmove d s n m a ≡ copied d s n m a
unfolding memmove
memmove-copied d s n m a = ground (arith, copy_up-copied d s n 0 m a, copy_down-copied d s n m a)

-- `memcpy` copies as if through a second buffer where the destination begins at or below the
-- source, or past its end.
pub memcpy-copied :
    (d s n : ℕ) (m : Memory) (a : ℕ) → (d ≤ s) ⊎ (s + n ≤ d) → memcpy d s n m a ≡ copied d s n m a
unfolding memcpy
memcpy-copied d s n m a apart = ground (arith, copy_up-copied d s n 0 m a)

-- `memset` stores the low byte of `c` in the `n` bytes from `p`, and nowhere else.
pub memset_lem :
    (p c n : ℕ) (m : Memory) (a : ℕ)
    → memset p c n m a ≡ (if leb p a && ltb a (p + n) then u8 c else m a)
unfolding memset
memset_lem p c zero m a = ground arith
memset_lem p c (suc n) m a = ground (arith, memset_lem (p + 1) c n (put m p (u8 c)) a)
