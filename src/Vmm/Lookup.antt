-- ===== src/Vmm/Lookup.antt =====
-- `pml4_to_pt` of olive/src/mm/vmm.c without `force`, and `virt2phys`, on page tables that form a
-- tree.
use native.Mathlib.Nat.{one-le-pow, pow-le-pow_right}
use native.Mathlib.Numerals.{towards_suc}
use fwp_athix.Prelude.{
  bit_and-fields, bit_and_mask, bit_and-zero, bit_or_low, ℕ, suc, ◌+◌, ◌-◌, ◌*◌, ◌/◌, ◌%◌, ◌^◌, ◌<◌,
  ◌≤◌, ◌≡◌, inl, inr, refl, ap, ap₂, ◌∙◌, true, false, Bool-cases, arith, u64, bit_and, bit_or,
  ◌==◌, ltb, Option, none, some, ne→==,
}
use fwp_athix.Outcome.{returned}
use fwp_athix.Vmm.{
  Vmm, is_present, get_below_pml, pml4_to_pt, pml4_index, pdpt_index, pd_index, pt_index, virt2phys,
}
use fwp_athix.Vmm.Entry.{frame_of, entry}
use fwp_athix.Vmm.Tree.{Levels}
use fwp_athix.Vmm.Walk.{leaf, dest, leaf-dest, dest_level}
use fwp_athix.Vmm.Below.{Inv}
use fwp_athix.Vmm.Map.{index_bits, indices, indices-AreIndices}

-- The table pointer that a walk returns: NULL where a table is missing.
abbrev pub pointer : ℕ → Option (ℕ × ℕ) → ℕ
pointer h none = 0
pointer h (some (t, i)) = u64 (t + h)

module _ {lvl : Levels} {s : Vmm} (inv : Inv lvl s) where
  below_on :
      (t i : ℕ)
      → is_present (entry s.mem s.hhdm_offset t i) ≡ true
      → get_below_pml (u64 (t + s.hhdm_offset)) i false s
        ≡ returned (u64 (frame_of (entry s.mem s.hhdm_offset t i) + s.hhdm_offset), s)
  unfolding get_below_pml
  below_on t i on = rw on refl

  below_off :
      (t i : ℕ)
      → is_present (entry s.mem s.hhdm_offset t i) ≡ false
      → get_below_pml (u64 (t + s.hhdm_offset)) i false s ≡ returned (0, s)
  unfolding get_below_pml
  below_off t i off = rw off refl

  nonzero :
      (t i : ℕ)
      → 1 < lvl t
      → i < 512
      → is_present (entry s.mem s.hhdm_offset t i) ≡ true
      → (u64 (frame_of (entry s.mem s.hhdm_offset t i) + s.hhdm_offset) == 0) ≡ false
  nonzero t i above within on =
      let frame =
        inv.tree.table (frame_of (entry s.mem s.hhdm_offset t i))
          (omega (arith, inv.tree.child t i above within on)) in
      ne→== (u64 (frame_of (entry s.mem s.hhdm_offset t i) + s.hhdm_offset)) 0
        (λ e. absurd (omega (arith, e, frame.mapped, inv.offset)))

  module _ (root virt : ℕ) (top : lvl root ≡ 4) where
    abbrev h : ℕ
    h = s.hhdm_offset

    abbrev t3 : ℕ
    t3 = frame_of (entry s.mem h root (pml4_index virt))

    abbrev t2 : ℕ
    t2 = frame_of (entry s.mem h t3 (pdpt_index virt))

    abbrev t1 : ℕ
    t1 = frame_of (entry s.mem h t2 (pd_index virt))

    -- On page tables that form a tree, the walk without `force` changes nothing, and returns the
    -- page table that the processor would use, or NULL.
    pub pml4_to_pt-dest :
        pml4_to_pt (u64 (root + h)) virt false s
        ≡ returned (pointer h (dest s.mem h root (indices virt)), s)
    unfolding pml4_to_pt dest
    pml4_to_pt-dest = elim (Bool-cases (is_present (entry s.mem h root (pml4_index virt)))) [
      | inr off ↦ rw (below_off root (pml4_index virt) off, off) refl
      | inl on ↦
          let b4 : pml4_index virt < 512 = omega (arith, index_bits 39 virt) in
          let b3 : pdpt_index virt < 512 = omega (arith, index_bits 30 virt) in
          let b2 : pd_index virt < 512 = omega (arith, index_bits 21 virt) in
          let l3 : suc (lvl t3) ≡ 4 =
            inv.tree.child root (pml4_index virt) (omega arith) b4 on ∙ top in
          rw
            (
              below_on root (pml4_index virt) on,
              nonzero root (pml4_index virt) (omega arith) b4 on,
              on,
            )
            (elim (Bool-cases (is_present (entry s.mem h t3 (pdpt_index virt)))) [
              | inr off ↦ rw (below_off t3 (pdpt_index virt) off, off) refl
              | inl on3 ↦
                  let l2 : suc (lvl t2) ≡ lvl t3 =
                    inv.tree.child t3 (pdpt_index virt) (omega arith) b3 on3 in
                  rw
                    (
                      below_on t3 (pdpt_index virt) on3,
                      nonzero t3 (pdpt_index virt) (omega arith) b3 on3,
                      on3,
                    )
                    (elim (Bool-cases (is_present (entry s.mem h t2 (pd_index virt)))) [
                      | inr off ↦ rw (below_off t2 (pd_index virt) off, off) refl
                      | inl on2 ↦
                          rw
                            (
                              below_on t2 (pd_index virt) on2,
                              nonzero t2 (pd_index virt) (omega arith) b2 on2,
                              on2,
                            )
                            refl
                    ])
            ])
    ]

-- A page table that a walk ends in has a pointer that is not NULL.
pub pointer-nonzero :
    {lvl : Levels} {s : Vmm} (root virt t i : ℕ)
    → Inv lvl s
    → lvl root ≡ 4
    → dest s.mem s.hhdm_offset root (indices virt) ≡ some (t, i)
    → (u64 (t + s.hhdm_offset) == 0) ≡ false
pointer-nonzero {s} root virt t i inv top ends =
    let low = dest_level inv.tree (indices virt) root t i top (indices-AreIndices virt) ends in
    let frame = inv.tree.table t (omega (arith, low)) in
    ne→== (u64 (t + s.hhdm_offset)) 0 (λ e. absurd (omega (arith, e, frame.mapped, inv.offset)))

-- The index of the entry is the last index of the address.
pub dest-index :
    (m : ℕ → ℕ) (h root virt t i : ℕ)
    → dest m h root (indices virt) ≡ some (t, i)
    → i ≡ pt_index virt
unfolding dest
dest-index m h root virt t i e = ground arith

-- `1 << width` for a width of at least 12.
two_pow_width : (k : ℕ) → 2 ^ (k + 12) ≡ 4096 * 2 ^ k
two_pow_width k =
    ap (λ n. 2 ^ n) (let e : k + 12 ≡ k + 4 + 8 = omega arith in e) ∙ simp towards_suc (omega arith)

-- The mask of `virt2phys` keeps bits 12 to `width - 1`.
width_mask :
    (k e : ℕ)
    → k ≤ 52
    → bit_and e (bit_and (2 ^ (k + 12) - 1) (2 ^ 64 - 4096)) ≡ e / 4096 % 2 ^ k * 4096
width_mask k e fits =
    ap₂ bit_and (let p : e ≡ e / 4096 * 2 ^ 12 + e % 4096 = omega arith in p) mask
    ∙ bit_and-fields 12 (e / 4096) (2 ^ k - 1) (e % 4096) 0 (omega arith) (omega arith)
    ∙ omega (arith, bit_and_mask k (e / 4096), bit_and-zero (e % 4096))
  where
    bounded : 2 ^ k ≤ 2 ^ 52
    bounded = pow-le-pow_right (let p : 0 < 2 = omega arith in p) fits

    mask : bit_and (2 ^ (k + 12) - 1) (2 ^ 64 - 4096) ≡ (2 ^ k - 1) * 2 ^ 12 + 0
    mask =
        ap₂ bit_and
          (let p : 2 ^ (k + 12) - 1 ≡ (2 ^ k - 1) * 2 ^ 12 + 4095 =
              omega (arith, two_pow_width k, one-le-pow k 2) in
            p)
          (let p : 2 ^ 64 - 4096 ≡ (2 ^ 52 - 1) * 2 ^ 12 + 0 = omega arith in p)
        ∙ bit_and-fields 12 (2 ^ k - 1) (2 ^ 52 - 1) 4095 0 (omega arith) (omega arith)
        ∙ omega (arith, bit_and_mask 52 (2 ^ k - 1), bit_and-zero 4095, bounded)

-- The physical address for offset `virt % 4096` in the page that `entry` names, cut to `k + 12`
-- bits; 0 where there is no entry.
abbrev pub phys_at : Option (ℕ × ℕ) → ℕ → ℕ → ℕ → ℕ
phys_at none e k virt = 0
phys_at (some d) e k virt = e / 4096 % 2 ^ k * 4096 + virt % 4096

virt2phys-dest :
    {lvl : Levels} {s : Vmm} (root virt k : ℕ) (o : Option (ℕ × ℕ))
    → Inv lvl s
    → lvl root ≡ 4
    → s.physical_address_width ≡ k + 12
    → k ≤ 51
    → dest s.mem s.hhdm_offset root (indices virt) ≡ o
    → virt2phys (u64 (root + s.hhdm_offset)) virt s
      ≡ returned (phys_at o (leaf s.mem s.hhdm_offset root (indices virt)) k virt, s)
unfolding virt2phys
virt2phys-dest root virt k none inv top width fits e =
    rw (pml4_to_pt-dest inv root virt top, e) refl
virt2phys-dest {s} root virt k (some (t, i)) inv top width fits e =
    rw
      (
        pml4_to_pt-dest inv root virt top,
        e,
        pointer-nonzero root virt t i inv top e,
        leaf-dest s.mem s.hhdm_offset root (indices virt) t i e,
        dest-index s.mem s.hhdm_offset root virt t i e,
        shift,
      )
      (ap (λ x. returned (x, s))
        (ap₂ bit_or
            (ap
                (λ w.
                  bit_and (entry s.mem s.hhdm_offset t (pt_index virt))
                    (bit_and (2 ^ w - 1) (2 ^ 64 - 4096)))
                width
              ∙ width_mask k (entry s.mem s.hhdm_offset t (pt_index virt)) (omega (arith, fits)))
            (bit_and_mask 12 virt)
          ∙ bit_or_low 12 (entry s.mem s.hhdm_offset t (pt_index virt) / 4096 % 2 ^ k) (virt % 4096)
              (omega arith)))
  where
    shift : ltb s.physical_address_width 64 ≡ true
    shift = ground (arith, width, fits)

-- On page tables that form a tree, with a width of physical addresses from 12 to 63 bits: where
-- there is a page table for `virt`, `virt2phys` joins the frame that its entry names, cut to
-- the width of physical addresses, with the offset in the page, and changes nothing. It does not
-- look at the present bit. Where a table is missing it returns 0.
pub virt2phys_lem :
    {lvl : Levels} {s : Vmm} (root virt k : ℕ)
    → Inv lvl s
    → lvl root ≡ 4
    → s.physical_address_width ≡ k + 12
    → k ≤ 51
    → virt2phys (u64 (root + s.hhdm_offset)) virt s
      ≡ returned (
        phys_at
            (dest s.mem s.hhdm_offset root (indices virt))
            (leaf s.mem s.hhdm_offset root (indices virt))
            k
            virt,
        s,
      )
virt2phys_lem {s} root virt k inv top width fits =
    virt2phys-dest root virt k (dest s.mem s.hhdm_offset root (indices virt)) inv top width fits
      refl
