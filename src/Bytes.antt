-- ===== src/Bytes.antt =====
-- olive/src/lib/string.c: the memory functions, on a memory of bytes by address. A pointer that is
-- stepped past the end of the address space is outside what C defines, so addresses do not wrap.
-- The pointer that `memcpy`, `memmove` and `memset` return is the `dest` or `s` that they are given, and
-- is left out.
pub mod Copy
pub mod Compare
pub mod Interface
use fwp_athix.Prelude.{ℕ, zero, suc, ◌+◌, ◌%◌, ◌^◌, u8, ltb, ◌==◌, not, if◌then◌else◌}

abbrev pub Memory : Type 0
Memory = ℕ → ℕ

abbrev pub put : Memory → ℕ → ℕ → Memory
put m a v b = if a == b then v else m b

-- `for (i = i; i < i + left; i++) d[i] = s[i]`
unfoldable pub copy_up : ℕ → ℕ → ℕ → ℕ → Memory → Memory
copy_up d s i zero m = m
copy_up d s i (suc left) m = copy_up d s (i + 1) left (put m (d + i) (m (s + i)))

-- `for (i = n; i-- > 0;) d[i] = s[i]`
unfoldable pub copy_down : ℕ → ℕ → ℕ → Memory → Memory
copy_down d s zero m = m
copy_down d s (suc i) m = copy_down d s i (put m (d + i) (m (s + i)))

unfoldable pub memcpy : ℕ → ℕ → ℕ → Memory → Memory
memcpy d s n m = copy_up d s 0 n m

unfoldable pub memmove : ℕ → ℕ → ℕ → Memory → Memory
memmove d s n m = if ltb d s then copy_up d s 0 n m else copy_down d s n m

-- `while (n--) *p++ = (uint8_t)c`
unfoldable pub memset : ℕ → ℕ → ℕ → Memory → Memory
memset p c zero m = m
memset p c (suc n) m = memset (p + 1) c n (put m p (u8 c))

-- What `memcmp` returns: -1, 0 or 1.
pub data Sign : Type 0 where
  less same more : Sign

unfoldable pub memcmp : ℕ → ℕ → ℕ → Memory → Sign
memcmp p1 p2 zero m = same
memcmp p1 p2 (suc n) m =
    let rest = memcmp (p1 + 1) (p2 + 1) n m in
    if not (m p1 == m p2) then (if ltb (m p1) (m p2) then less else more) else rest
