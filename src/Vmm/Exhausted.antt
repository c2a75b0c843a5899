-- ===== src/Vmm/Exhausted.antt =====
-- `pml4_to_pt` and `vmm_map` of olive/src/mm/vmm.c when no page is free for a table.
use fwp_athix.Prelude.{
  ℕ, ◌+◌, ◌≡◌, refl, sym, ap, ◌∙◌, true, false, Bool-cases, inl, inr, none, bit_and, u64, ◌==◌,
  if◌then◌else◌,
}
use fwp_athix.Outcome.{Outcome, returned, ◌>>=◌}
use fwp_athix.Lock.{spinlock_init}
use fwp_athix.Pmm.{request_pages}
use fwp_athix.Vmm.{
  Vmm, slot, is_present, frame_mask, get_below_pml, pml4_index, pdpt_index, pd_index, pml4_to_pt,
  vmm_map,
}
use fwp_athix.Vmm.Tree.{Levels}
use fwp_athix.Vmm.Walk.{dest}
use fwp_athix.Vmm.Below.{Inv}
use fwp_athix.Vmm.Map.{indices}
use fwp_athix.Vmm.Translate.{lock_taken, taken-Inv}
use fwp_athix.Vmm.Lookup.{pml4_to_pt-dest}

module _ (s : Vmm) (empty : s.pmm.stack_idx ≡ 0) where
  below-same : (pml i : ℕ) → (p : ℕ) × (get_below_pml pml i false s ≡ returned (p, s))
  unfolding get_below_pml
  below-same pml i = elim (Bool-cases (is_present (s.mem (slot pml i)))) [
    | inl on ↦ (u64 (bit_and (s.mem (slot pml i)) frame_mask + s.hhdm_offset), rw (on) refl)
    | inr off ↦ (0, rw (off) refl)
  ]

  below-exhausted : (pml i : ℕ) → get_below_pml pml i true s ≡ get_below_pml pml i false s
  unfolding get_below_pml request_pages
  below-exhausted pml i = elim (Bool-cases (is_present (s.mem (slot pml i)))) [
    | inl on ↦ rw (on) refl
    | inr off ↦ rw (off, empty) refl
  ]

  -- A step of the walk, and what follows it.
  step-exhausted :
      (pml i : ℕ) (next next' : ℕ × Vmm → Outcome (ℕ × Vmm))
      → ((p : ℕ) → next (p, s) ≡ next' (p, s))
      → (get_below_pml pml i true s >>= next) ≡ (get_below_pml pml i false s >>= next')
  step-exhausted pml i next next' same =
      let (p, e) = below-same pml i in
      ap (λ o. o >>= next) (below-exhausted pml i ∙ e) ∙ same p ∙ ap (λ o. o >>= next') (sym e)

  -- The walk ends as the one without `force`.
  pub pml4_to_pt-exhausted :
      (pml4 virt : ℕ) → pml4_to_pt pml4 virt true s ≡ pml4_to_pt pml4 virt false s
  unfolding pml4_to_pt
  pml4_to_pt-exhausted pml4 virt = step-exhausted pml4 (pml4_index virt) _ _ (λ pdpt.
      ap (λ o. if pdpt == 0 then returned (0, s) else o)
        (step-exhausted pdpt (pdpt_index virt) _ _ (λ pd.
          ap (λ o. if pd == 0 then returned (0, s) else o)
            (step-exhausted pd (pd_index virt) _ _ (λ pt. refl)))))

-- On page tables that form a tree, with the lock free, no free page and no page table for the address:
-- `vmm_map` returns, and everything is as before.
pub vmm_map-exhausted :
    {lvl : Levels} {s : Vmm} (root virt phys flags : ℕ)
    → Inv lvl s
    → lvl root ≡ 4
    → s.map_lock ≡ spinlock_init
    → s.pmm.stack_idx ≡ 0
    → dest s.mem s.hhdm_offset root (indices virt) ≡ none
    → vmm_map (u64 (root + s.hhdm_offset)) virt phys flags s ≡ returned s
unfolding vmm_map
vmm_map-exhausted {s = s} root virt phys flags inv top open_lock empty e =
    rw
      (
        open_lock,
        pml4_to_pt-exhausted (lock_taken s) empty (u64 (root + s.hhdm_offset)) virt,
        pml4_to_pt-dest (taken-Inv inv) root virt top,
        e,
      )
      refl
