-- ===== src/Bytes/Compare.antt =====
-- `memcmp` of olive/src/lib/string.c against the first difference.
use fwp_athix.Prelude.{
  ℕ, zero, suc, ◌+◌, ◌<◌, ◌≡◌, inl, inr, refl, Bool-cases, ap, ◌∙◌, arith, ◌==◌, ltb, ltb→lt, ==→eq,
}
use fwp_athix.Bytes.{Memory, Sign, less, same, more, memcmp}

-- The two areas agree below index `i`.
abbrev pub Agree : ℕ → ℕ → ℕ → Memory → Type 0
Agree p q i m = (j : ℕ) → j < i → m (p + j) ≡ m (q + j)

-- What a sign says of two areas of `n` bytes: equal, or a first difference in that direction.
abbrev pub Says : Sign → ℕ → ℕ → ℕ → Memory → Type 0
Says same p q n m = Agree p q n m
Says less p q n m = (i : ℕ) × (i < n) × Agree p q i m × (m (p + i) < m (q + i))
Says more p q n m = (i : ℕ) × (i < n) × Agree p q i m × (m (q + i) < m (p + i))

Agree-suc : (p q i : ℕ) (m : Memory) → m p ≡ m q → Agree (p + 1) (q + 1) i m → Agree p q (suc i) m
Agree-suc p q i m e h zero lt =
    ap m (let z : p + 0 ≡ p = omega arith in z) ∙ e ∙ ap m (let z : q ≡ q + 0 = omega arith in z)
Agree-suc p q i m e h (suc j) lt =
    ap m (let z : p + suc j ≡ p + 1 + j = omega arith in z)
    ∙ h j (omega arith)
    ∙ ap m (let z : q + 1 + j ≡ q + suc j = omega arith in z)

shift : (p i : ℕ) (m : Memory) → m (p + suc i) ≡ m (p + 1 + i)
shift p i m = ap m (omega arith)

first : (p i : ℕ) (m : Memory) → i ≡ 0 → m (p + i) ≡ m p
first p i m e = ap m (omega arith)

Says-suc :
    (p q n : ℕ) (m : Memory) (r : Sign)
    → m p ≡ m q
    → Says r (p + 1) (q + 1) n m
    → Says r p q (suc n) m
Says-suc p q n m same e h = Agree-suc p q n m e h
Says-suc p q n m less e (i, lt, agree, d) =
    (suc i, omega arith, Agree-suc p q i m e agree, omega (arith, shift p i m, shift q i m))
Says-suc p q n m more e (i, lt, agree, d) =
    (suc i, omega arith, Agree-suc p q i m e agree, omega (arith, shift p i m, shift q i m))

-- `memcmp` returns 0 exactly for equal areas, and otherwise the order of the first pair of bytes
-- that differ, as unsigned numbers.
pub memcmp-Says : (p q n : ℕ) (m : Memory) → Says (memcmp p q n m) p q n m
unfolding memcmp
memcmp-Says p q zero m = λ j lt. absurd (omega arith)
memcmp-Says p q (suc n) m = elim (Bool-cases (m p == m q)) [
  | inl equal ↦ rw equal (
      Says-suc p q n m (memcmp (p + 1) (q + 1) n m) (==→eq (m p) (m q) equal)
        (memcmp-Says (p + 1) (q + 1) n m))
  | inr differ ↦ rw differ (elim (Bool-cases (ltb (m p) (m q))) [
    | inl below ↦ rw below (
      0,
      omega arith,
      (λ j lt. absurd (omega arith)),
      omega (arith, ltb→lt (m p) (m q) below, first p 0 m refl, first q 0 m refl),
    )
    | inr above ↦ rw above (
      0,
      omega arith,
      (λ j lt. absurd (omega arith)),
      omega (arith, (let d : m q < m p = ground arith in d), first p 0 m refl, first q 0 m refl),
    )
  ])
]
