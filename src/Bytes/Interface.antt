-- ===== src/Bytes/Interface.antt =====
-- olive/include/lib/string.h: the memory functions as their callers see them, with what they
-- promise, and the functions of olive/src/lib/string.c as its implementation.
use fwp_athix.Prelude.{
  ℕ, ◌+◌, ◌-◌, ◌≤◌, ◌≡◌, ◌⊎◌, refl, sym, ap, ◌∙◌, arith, u8, ◌&&◌, leb, ltb, if◌then◌else◌,
}
use fwp_athix.Bytes.{Memory, Sign, less, same, more, memcpy, memset, memmove, memcmp}
use fwp_athix.Bytes.Copy.{copied, memcpy-copied, memmove-copied, memset_lem}
use fwp_athix.Bytes.Compare.{Agree, Says, memcmp-Says}

pub record StringFunctions : Type 0 where
  pub memcpy : ℕ → ℕ → ℕ → Memory → Memory
  pub memset : ℕ → ℕ → ℕ → Memory → Memory
  pub memmove : ℕ → ℕ → ℕ → Memory → Memory
  pub memcmp : ℕ → ℕ → ℕ → Memory → Sign

pub record IsLawful (f : StringFunctions) : Type 0 where
  pub copies :
      (d s n : ℕ) (m : Memory) (a : ℕ)
      → (d ≤ s) ⊎ (s + n ≤ d)
      → f.memcpy d s n m a ≡ copied d s n m a
  pub sets :
      (p c n : ℕ) (m : Memory) (a : ℕ)
      → f.memset p c n m a ≡ (if leb p a && ltb a (p + n) then u8 c else m a)
  pub moves : (d s n : ℕ) (m : Memory) (a : ℕ) → f.memmove d s n m a ≡ copied d s n m a
  pub compares : (p q n : ℕ) (m : Memory) → Says (f.memcmp p q n m) p q n m

abbrev pub olive_string : StringFunctions
olive_string = record { memcpy = memcpy; memset = memset; memmove = memmove; memcmp = memcmp }

-- The functions of string.c keep all promises of the header: `memmove` copies as if through a
-- second buffer, `memcpy` too where the destination begins at or below the source or past its end,
-- `memset` stores the low byte in the area and nowhere else, and `memcmp` says whether areas are
-- equal and else which has the smaller byte at the first difference.
pub olive_string-IsLawful : IsLawful olive_string
olive_string-IsLawful = record {
  copies = memcpy-copied;
  sets = memset_lem;
  moves = memmove-copied;
  compares = memcmp-Says;
}

-- Equal areas compare as equal.
Says-Agree : (r : Sign) (p q n : ℕ) (m : Memory) → Says r p q n m → Agree p q n m → r ≡ same
Says-Agree same p q n m says agree = refl
Says-Agree less p q n m (i, lt, front, d) agree = absurd (omega (arith, d, agree i lt))
Says-Agree more p q n m (i, lt, front, d) agree = absurd (omega (arith, d, agree i lt))

module _ (f : StringFunctions) (lawful : IsLawful f) where
  -- For any implementation of the header that keeps its promises: after a copy between areas that
  -- do not overlap, `memcmp` finds them equal.
  memcmp-memmove :
      (d s n : ℕ) (m : Memory)
      → (d + n ≤ s) ⊎ (s + n ≤ d)
      → f.memcmp d s n (f.memmove d s n m) ≡ same
  memcmp-memmove d s n m apart =
      let after = f.memmove d s n m in
      Says-Agree (f.memcmp d s n after) d s n after (lawful.compares d s n after) (λ i lt.
        lawful.moves d s n m (d + i)
        ∙ (let index : s + (d + i - d) ≡ s + i = omega arith in ground (arith, ap m index))
        ∙ sym (lawful.moves d s n m (s + i)))
