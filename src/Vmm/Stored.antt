-- ===== src/Vmm/Stored.antt =====
-- What `vmm_map` of olive/src/mm/vmm.c stores is what `virt2phys` finds.
use native.Mathlib.Nat.{pow-suc, mul_assoc, add-mul-mod_self_right, pow-le-pow_right}
use fwp_athix.Prelude.{
  ℕ, zero, suc, ◌+◌, ◌-◌, ◌*◌, ◌/◌, ◌%◌, ◌^◌, ◌≤◌, ◌<◌, ◌≡◌, sym, ap, ap₂, ◌∙◌, arith, u64, bit_or,
  bit_or_entry, some,
}
use fwp_athix.Outcome.{returned}
use fwp_athix.Vmm.{Vmm, virt2phys, pt_index}
use fwp_athix.Vmm.Tree.{Levels}
use fwp_athix.Vmm.Walk.{leaf, dest}
use fwp_athix.Vmm.Below.{Inv}
use fwp_athix.Vmm.Map.{indices}
use fwp_athix.Vmm.Lookup.{phys_at, virt2phys_lem}

pow-add : (a b : ℕ) → 2 ^ (a + b) ≡ 2 ^ a * 2 ^ b
pow-add zero b =
    ap (λ (n : ℕ). 2 ^ n) (let e : 0 + b ≡ b = omega arith in e)
    ∙ (let e : 2 ^ b ≡ 1 * 2 ^ b = omega arith in e)
pow-add (suc a) b = grind (arith, pow-suc 2 (a + b), pow-suc 2 a, pow-add a b)

-- Bits at and above 40 are cut off by a width of at most 40.
mod_high : (k a b : ℕ) → k ≤ 40 → (a + b * 2 ^ 40) % 2 ^ k ≡ a % 2 ^ k
mod_high k a b fits =
    ap (λ (t : ℕ). (a + t) % 2 ^ k) split ∙ add-mul-mod_self_right a (b * 2 ^ (40 - k)) (2 ^ k)
  where
    power : 2 ^ 40 ≡ 2 ^ (40 - k) * 2 ^ k
    power = ap (λ (n : ℕ). 2 ^ n) (let e : 40 ≡ 40 - k + k = omega arith in e) ∙ pow-add (40 - k) k

    split : b * 2 ^ 40 ≡ b * 2 ^ (40 - k) * 2 ^ k
    split = ap (λ (t : ℕ). b * t) power ∙ sym (mul_assoc b (2 ^ (40 - k)) (2 ^ k))

-- The frame that an entry names, cut to the width, is the one that was stored.
stored_frame :
    (k phys flags : ℕ)
    → k ≤ 40
    → phys % 4096 ≡ 0
    → phys / 4096 < 2 ^ k
    → flags / 4096 % 2 ^ 40 ≡ 0
    → bit_or phys flags / 4096 % 2 ^ k * 4096 ≡ phys
stored_frame k phys flags fits aligned small clear =
    let bounded : 2 ^ k ≤ 2 ^ 40 = pow-le-pow_right (let two : 0 < 2 = omega arith in two) fits in
    let sum : bit_or phys flags ≡ phys + flags =
      bit_or_entry phys flags aligned (omega (arith, bounded, small)) clear in
    let parts : bit_or phys flags / 4096 ≡ phys / 4096 + flags / 2 ^ 52 * 2 ^ 40 =
      omega (arith, sum, clear, aligned) in
    let cut : bit_or phys flags / 4096 % 2 ^ k ≡ phys / 4096 % 2 ^ k =
      ap (λ (t : ℕ). t % 2 ^ k) parts ∙ mod_high k (phys / 4096) (flags / 2 ^ 52) fits in
    let kept : phys / 4096 % 2 ^ k ≡ phys / 4096 = grind (arith, small) in
    omega (arith, cut, kept, aligned)

-- A physical address and flags that an entry can hold, when physical addresses have `width` bits.
pub record IsStorable (width phys flags : ℕ) : Type 0 where
  pub frame_bits : ℕ
  pub of_width : width ≡ frame_bits + 12
  pub fits : frame_bits ≤ 40
  pub aligned : phys % 4096 ≡ 0
  pub small : phys / 4096 < 2 ^ frame_bits
  pub clear : flags / 4096 % 2 ^ 40 ≡ 0

-- `virt2phys` of a page whose entry holds them.
pub virt2phys-stored :
    {lvl : Levels} {s : Vmm} (root virt phys flags width t : ℕ)
    → Inv lvl s
    → lvl root ≡ 4
    → s.physical_address_width ≡ width
    → IsStorable width phys flags
    → dest s.mem s.hhdm_offset root (indices virt) ≡ some (t, pt_index virt)
    → leaf s.mem s.hhdm_offset root (indices virt) ≡ bit_or phys flags
    → virt2phys (u64 (root + s.hhdm_offset)) virt s ≡ returned (phys + virt % 4096, s)
virt2phys-stored {s = s} root virt phys flags width t inv top same at table here =
    let k = at.frame_bits in
    virt2phys_lem root virt k inv top (same ∙ at.of_width) (omega (arith, at.fits))
    ∙ ap (λ a. returned (a, s))
        (ap₂ (λ d e. phys_at d e k virt) table here
          ∙ ap (λ (n : ℕ). n + virt % 4096)
              (stored_frame k phys flags at.fits at.aligned at.small at.clear))
