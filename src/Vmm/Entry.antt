-- ===== src/Vmm/Entry.antt =====
-- Page-table entries and table pages of olive/src/mm/vmm.c: what an entry says, and what a write
-- to one entry and the zeroing of a page leave alone.
use fwp_athix.Prelude.{
  ℕ, ◌+◌, ◌*◌, ◌/◌, ◌%◌, ◌^◌, ◌<◌, ◌≡◌, ◌≢◌, refl, ap, ap₂, ◌∙◌, true, bit_and, bit_or, arith, u64,
  bit_and_one, bit_and_frame, bit_or_low, bit_or-fields, bit_or-zero,
}
use fwp_athix.Macros.{page_size}
use fwp_athix.Vmm.{slot, zero_page, is_present, frame_mask, table_entry}

-- The frame that an entry names.
abbrev pub frame_of : ℕ → ℕ
frame_of e = bit_and e frame_mask

pub frame_of_lem : (e : ℕ) → frame_of e ≡ e / 4096 % 2 ^ 40 * 4096
frame_of_lem e = bit_and_frame e

pub is_present_odd : (e : ℕ) → e % 2 ≡ 1 → is_present e ≡ true
is_present_odd e h = ground (arith, bit_and_one e)

pub odd_is_present : (e : ℕ) → is_present e ≡ true → e % 2 ≡ 1
odd_is_present e h = ground (arith, bit_and_one e)

-- A frame: page-aligned, within 52 bits, and reachable through the direct map at `h`.
pub record IsFrame (h p : ℕ) : Type 0 where
  pub aligned : p % page_size ≡ 0
  pub small : p < 2 ^ 52
  pub mapped : p + h < 2 ^ 64

pub table_entry-sum : (p : ℕ) → p % page_size ≡ 0 → table_entry p ≡ p + 7
table_entry-sum p aligned =
    ap₂ (λ a b. bit_or (bit_or (bit_or a 1) 2) b) (let e : p ≡ p / 4096 * 2 ^ 12 = omega arith in e)
      refl
    ∙ ap (λ a. bit_or (bit_or a 2) 4) (bit_or_low 12 (p / 4096) 1 (omega arith))
    ∙ ap (λ a. bit_or a 4) (join 1 2 (omega arith) (omega arith))
    ∙ join 3 4 (omega arith) (omega arith)
    ∙ omega arith
  where
    join :
        (a b : ℕ)
        → a < 4096
        → b < 4096
        → bit_or (p / 4096 * 2 ^ 12 + a) b ≡ p / 4096 * 2 ^ 12 + bit_or a b
    join a b ha hb =
        ap (bit_or (p / 4096 * 2 ^ 12 + a)) (let e : b ≡ 0 * 2 ^ 12 + b = omega arith in e)
        ∙ bit_or-fields 12 (p / 4096) 0 a b ha hb
        ∙ ap (λ q. q * 2 ^ 12 + bit_or a b) (bit_or-zero (p / 4096))

pub table_entry-present : (p : ℕ) → p % page_size ≡ 0 → is_present (table_entry p) ≡ true
table_entry-present p h = is_present_odd (table_entry p) (omega (arith, table_entry-sum p h))

pub table_entry-frame : (p : ℕ) → p % page_size ≡ 0 → p < 2 ^ 52 → frame_of (table_entry p) ≡ p
table_entry-frame p h small = frame_of_lem (table_entry p) ∙ omega (arith, table_entry-sum p h)

-- Entry `i` of the table in frame `t`.
abbrev pub entry : (ℕ → ℕ) → ℕ → ℕ → ℕ → ℕ
entry m h t i = m (slot (u64 (t + h)) i)

module _ {h : ℕ} (base : h % page_size ≡ 0) where
  -- Different entries stand at different addresses.
  pub slot_injective :
      {t u : ℕ} (i j : ℕ)
      → IsFrame h t
      → IsFrame h u
      → i < 512
      → j < 512
      → slot (u64 (t + h)) i ≡ slot (u64 (u + h)) j
      → (t ≡ u) × (i ≡ j)
  slot_injective i j ft fu hi hj e = omega arith

  pub zero_page_self :
      (m : ℕ → ℕ) {p : ℕ} (j : ℕ)
      → IsFrame h p
      → j < 512
      → entry (zero_page (u64 (p + h)) m) h p j ≡ 0
  zero_page_self m j f hj = ground arith

  pub zero_page_other :
      (m : ℕ → ℕ) {p q : ℕ} (j : ℕ)
      → IsFrame h p
      → IsFrame h q
      → q ≢ p
      → j < 512
      → entry (zero_page (u64 (p + h)) m) h q j ≡ entry m h q j
  zero_page_other m j fp fq ne hj = ground arith
