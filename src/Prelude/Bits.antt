-- ===== src/Prelude/Bits.antt =====
-- `&` and `|` on fields that lie side by side: laws at variables, for every width.
use Prim.Native.Nat.{
  ℕ, zero, suc, ◌+◌, ◌-◌, ◌*◌, ◌/◌, ◌%◌, ◌^◌, ◌≤◌, ◌<◌, min, max, bit_and, bit_or, digits,
  bit_and-bitwise, bit_or-bitwise,
}
use mathlib.Core.Path.{◌≡◌, refl, ap, ap₂, ◌∙◌}
use native.Mathlib.Nat.{pow-suc, one-le-pow}
use native.Mathlib.Omega.{arith}

-- Two amounts of fuel that cover the first number give the same digits.
module _ (z : ℕ → ℕ) (f : ℕ → ℕ → ℕ) where
  digits_agree : (b a n : ℕ) → a ≤ n → (m : ℕ) → a ≤ m → digits z f n a b ≡ digits z f m a b
  digits_agree b zero zero p zero q = refl
  digits_agree b zero zero p (suc m) q = refl
  digits_agree b zero (suc n) p zero q = refl
  digits_agree b zero (suc n) p (suc m) q = refl
  digits_agree b (suc a) zero p m q = absurd (omega arith)
  digits_agree b (suc a) (suc n) p zero q = absurd (omega arith)
  digits_agree b (suc a) (suc n) p (suc m) q =
      ap (λ t. t * 2 + f (suc a % 2) (b % 2))
        (digits_agree (b / 2) (suc a / 2) n (omega arith) m (omega arith))

bit_and-zero_left : (b : ℕ) → bit_and 0 b ≡ 0
bit_and-zero_left b = bit_and-bitwise 0 b

bit_or-zero_left : (b : ℕ) → bit_or 0 b ≡ b
bit_or-zero_left b = bit_or-bitwise 0 b

-- The lowest digit of `&` is the smaller of the two.
bit_and-digit : (a b : ℕ) → bit_and a b ≡ bit_and (a / 2) (b / 2) * 2 + min (a % 2) (b % 2)
bit_and-digit zero b = omega (arith, bit_and-zero_left b, bit_and-zero_left (b / 2))
bit_and-digit (suc a) b = omega (
  arith,
  bit_and-bitwise (suc a) b,
  bit_and-bitwise (suc a / 2) (b / 2),
  digits_agree (λ y. 0) min (b / 2) (suc a / 2) a (omega arith) (suc a / 2) (omega arith),
)

-- The lowest digit of `|` is the larger of the two.
bit_or-digit : (a b : ℕ) → bit_or a b ≡ bit_or (a / 2) (b / 2) * 2 + max (a % 2) (b % 2)
bit_or-digit zero b = omega (arith, bit_or-zero_left b, bit_or-zero_left (b / 2))
bit_or-digit (suc a) b = omega (
  arith,
  bit_or-bitwise (suc a) b,
  bit_or-bitwise (suc a / 2) (b / 2),
  digits_agree (λ y. y) max (b / 2) (suc a / 2) a (omega arith) (suc a / 2) (omega arith),
)

double_field : (k q : ℕ) → q * 2 ^ suc k ≡ 2 * (q * 2 ^ k)
double_field k q = omega (arith, ap (λ (t : ℕ). q * t) (pow-suc 2 k))

-- `&` works field by field.
pub bit_and-fields :
    (k p q r s : ℕ)
    → r < 2 ^ k
    → s < 2 ^ k
    → bit_and (p * 2 ^ k + r) (q * 2 ^ k + s) ≡ bit_and p q * 2 ^ k + bit_and r s
bit_and-fields zero p q zero zero hr hs = omega (
  arith,
  ap₂ bit_and (let e : p * 2 ^ 0 + 0 ≡ p = omega arith in e)
      (let e : q * 2 ^ 0 + 0 ≡ q = omega arith in e),
  bit_and-zero_left 0,
)
bit_and-fields zero p q zero (suc s) hr hs = absurd (omega arith)
bit_and-fields zero p q (suc r) s hr hs = absurd (omega arith)
bit_and-fields (suc k) p q r s hr hs = ground (
  arith,
  bit_and-digit (p * 2 ^ suc k + r) (q * 2 ^ suc k + s),
  bit_and-digit r s,
  double_field k p,
  double_field k q,
  double_field k (bit_and p q),
  pow-suc 2 k,
  bit_and-fields k p q (r / 2) (s / 2) (omega (arith, pow-suc 2 k)) (omega (arith, pow-suc 2 k)),
)

-- `|` works field by field.
pub bit_or-fields :
    (k p q r s : ℕ)
    → r < 2 ^ k
    → s < 2 ^ k
    → bit_or (p * 2 ^ k + r) (q * 2 ^ k + s) ≡ bit_or p q * 2 ^ k + bit_or r s
bit_or-fields zero p q zero zero hr hs = omega (
  arith,
  ap₂ bit_or (let e : p * 2 ^ 0 + 0 ≡ p = omega arith in e)
      (let e : q * 2 ^ 0 + 0 ≡ q = omega arith in e),
  bit_or-zero_left 0,
)
bit_or-fields zero p q zero (suc s) hr hs = absurd (omega arith)
bit_or-fields zero p q (suc r) s hr hs = absurd (omega arith)
bit_or-fields (suc k) p q r s hr hs = ground (
  arith,
  bit_or-digit (p * 2 ^ suc k + r) (q * 2 ^ suc k + s),
  bit_or-digit r s,
  double_field k p,
  double_field k q,
  double_field k (bit_or p q),
  pow-suc 2 k,
  bit_or-fields k p q (r / 2) (s / 2) (omega (arith, pow-suc 2 k)) (omega (arith, pow-suc 2 k)),
)

bit_or-zero_below : (k n : ℕ) → n ≤ k → bit_or n 0 ≡ n
bit_or-zero_below k zero h = bit_or-zero_left 0
bit_or-zero_below zero (suc n) h = absurd (omega arith)
bit_or-zero_below (suc k) (suc n) h =
    omega (arith, bit_or-digit (suc n) 0, bit_or-zero_below k (suc n / 2) (omega arith))

pub bit_or-zero : (n : ℕ) → bit_or n 0 ≡ n
bit_or-zero n = bit_or-zero_below n n (omega arith)

bit_and-zero_below : (k n : ℕ) → n ≤ k → bit_and n 0 ≡ 0
bit_and-zero_below k zero h = bit_and-zero_left 0
bit_and-zero_below zero (suc n) h = absurd (omega arith)
bit_and-zero_below (suc k) (suc n) h =
    omega (arith, bit_and-digit (suc n) 0, bit_and-zero_below k (suc n / 2) (omega arith))

pub bit_and-zero : (n : ℕ) → bit_and n 0 ≡ 0
bit_and-zero n = bit_and-zero_below n n (omega arith)

bit_and-ones : (k r : ℕ) → r < 2 ^ k → bit_and r (2 ^ k - 1) ≡ r
bit_and-ones zero zero h = bit_and-zero_left 0
bit_and-ones zero (suc r) h = absurd (omega arith)
bit_and-ones (suc k) r h = ground (
  arith,
  pow-suc 2 k,
  one-le-pow k 2,
  bit_and-digit r (2 ^ suc k - 1),
  bit_and-ones k (r / 2) (omega (arith, pow-suc 2 k)),
)

-- A mask of `k` ones keeps the remainder by `2 ^ k`.
pub bit_and_mask : (k a : ℕ) → bit_and a (2 ^ k - 1) ≡ a % 2 ^ k
bit_and_mask k a =
    ap₂ bit_and parts (let e : 2 ^ k - 1 ≡ 0 * 2 ^ k + (2 ^ k - 1) = omega arith in e)
    ∙ bit_and-fields k (a / 2 ^ k) 0 (a % 2 ^ k) (2 ^ k - 1) small (omega (arith, one-le-pow k 2))
    ∙ ap₂ (λ (x y : ℕ). x * 2 ^ k + y) (bit_and-zero (a / 2 ^ k)) (bit_and-ones k (a % 2 ^ k) small)
    ∙ (let e : 0 * 2 ^ k + a % 2 ^ k ≡ a % 2 ^ k = omega arith in e)
  where
    small : a % 2 ^ k < 2 ^ k
    small = omega (arith, one-le-pow k 2)

    parts : a ≡ a / 2 ^ k * 2 ^ k + a % 2 ^ k
    parts = grind arith

pub bit_and_one : (a : ℕ) → bit_and a 1 ≡ a % 2
bit_and_one a = bit_and_mask 1 a

-- `x | y` where `y` has only bits below `k` and `x` none of them.
pub bit_or_low : (k q r : ℕ) → r < 2 ^ k → bit_or (q * 2 ^ k) r ≡ q * 2 ^ k + r
bit_or_low k q r h =
    ap₂ bit_or (let e : q * 2 ^ k ≡ q * 2 ^ k + 0 = omega arith in e)
      (let e : r ≡ 0 * 2 ^ k + r = omega arith in e)
    ∙ bit_or-fields k q 0 0 r (omega (arith, one-le-pow k 2)) h
    ∙ omega (arith, bit_or-zero_left r, ap (λ t. t * 2 ^ k) (bit_or-zero q))

-- The same with the fields the other way round.
pub bit_or_high : (k q r : ℕ) → r < 2 ^ k → bit_or r (q * 2 ^ k) ≡ q * 2 ^ k + r
bit_or_high k q r h =
    ap₂ bit_or (let e : r ≡ 0 * 2 ^ k + r = omega arith in e)
      (let e : q * 2 ^ k ≡ q * 2 ^ k + 0 = omega arith in e)
    ∙ bit_or-fields k 0 q r 0 h (omega (arith, one-le-pow k 2))
    ∙ omega (arith, bit_or-zero r, ap (λ t. t * 2 ^ k) (bit_or-zero_left q))

-- The mask 0x000ffffffffff000 keeps bits 12 to 51: the frame that a page-table entry names.
pub bit_and_frame : (e : ℕ) → bit_and e 0x000ffffffffff000 ≡ e / 4096 % 2 ^ 40 * 4096
bit_and_frame e =
    ap (λ t. bit_and t 0x000ffffffffff000)
      (let p : e ≡ e / 4096 * 2 ^ 12 + e % 4096 = omega arith in p)
    ∙ bit_and-fields 12 (e / 4096) (2 ^ 40 - 1) (e % 4096) 0 (omega arith) (omega arith)
    ∙ omega (arith, bit_and_mask 40 (e / 4096), bit_and-zero (e % 4096))

-- A frame address below 2 ^ 52 joined with flags that use none of bits 12 to 51.
pub bit_or_entry :
    (p f : ℕ) → p % 4096 ≡ 0 → p < 2 ^ 52 → f / 4096 % 2 ^ 40 ≡ 0 → bit_or p f ≡ p + f
bit_or_entry p f aligned small clear =
    ap₂ bit_or (let e : p ≡ p / 4096 * 2 ^ 12 + 0 = omega arith in e)
      (let e : f ≡ f / 2 ^ 52 * 2 ^ 40 * 2 ^ 12 + f % 4096 = omega arith in e)
    ∙ bit_or-fields 12 (p / 4096) (f / 2 ^ 52 * 2 ^ 40) 0 (f % 4096) (omega arith) (omega arith)
    ∙ omega
        (arith, bit_or_high 40 (f / 2 ^ 52) (p / 4096) (omega arith), bit_or-zero_left (f % 4096))
