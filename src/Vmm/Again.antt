-- ===== src/Vmm/Again.antt =====
-- `vmm_map` of olive/src/mm/vmm.c where the page table of the address is there already: no page is
-- taken. So the pages of one region of 2 MiB share one table.
use fwp_athix.Prelude.{
  ℕ, suc, ◌/◌, ◌<◌, ◌≡◌, refl, sym, ap, ap₂, ◌∙◌, inl, inr, true, Bool-cases, arith, List, [], ◌∷◌,
  some,
}
use fwp_athix.Lock.{spinlock_init}
use fwp_athix.Vmm.{Vmm, is_present, pml4_index, pdpt_index, pd_index, pt_index}
use fwp_athix.Vmm.Entry.{frame_of, entry}
use fwp_athix.Vmm.Tree.{Levels}
use fwp_athix.Vmm.Walk.{dest}
use fwp_athix.Vmm.Below.{Inv, Found, Found-present}
use fwp_athix.Vmm.Map.{indices, index_bits, Reached, chain-Reached, dest-three}
use fwp_athix.Vmm.Translate.{page_number, Mapped, final-Mapped, lock_taken, taken-Inv}

-- The region of 2 MiB that an address lies in
abbrev pub region : ℕ → ℕ
region v = page_number v / 512

-- The three links to a page table.
record Linked (m : ℕ → ℕ) (h q i1 i2 i3 t : ℕ) : Type 0 where
  pub on1 : is_present (entry m h q i1) ≡ true
  pub on2 : is_present (entry m h (frame_of (entry m h q i1)) i2) ≡ true
  pub on3 : is_present (entry m h (frame_of (entry m h (frame_of (entry m h q i1)) i2)) i3) ≡ true
  pub table : frame_of (entry m h (frame_of (entry m h (frame_of (entry m h q i1)) i2)) i3) ≡ t

dest-Linked :
    (m : ℕ → ℕ) (h q i1 i2 i3 i4 t j : ℕ)
    → dest m h q (i1 ∷ i2 ∷ i3 ∷ i4 ∷ []) ≡ some (t, j)
    → Linked m h q i1 i2 i3 t
unfolding dest
dest-Linked m h q i1 i2 i3 i4 t j e = elim (Bool-cases (is_present (entry m h q i1))) [
  | inr off ↦ cc (rw (off) at e)
  | inl on1 ↦
      let q2 = frame_of (entry m h q i1) in
      elim (Bool-cases (is_present (entry m h q2 i2))) [
        | inr off ↦ cc (rw (on1, off) at e)
        | inl on2 ↦
            let q3 = frame_of (entry m h q2 i2) in
            elim (Bool-cases (is_present (entry m h q3 i3))) [
              | inr off ↦ cc (rw (on1, on2, off) at e)
              | inl on3 ↦ record {
                on1 = on1;
                on2 = on2;
                on3 = on3;
                table = cc (rw (on1, on2, on3) at e);
              }
            ]
      ]
]

-- The state has a page table for the address `v`.
abbrev pub HasTable : Vmm → ℕ → ℕ → Type 0
HasTable s root v = (t : ℕ) × (dest s.mem s.hhdm_offset root (indices v) ≡ some (t, pt_index v))

-- It then has one for each address of the region.
pub HasTable-region :
    (s : Vmm) (root v w : ℕ) → region v ≡ region w → HasTable s root v → HasTable s root w
HasTable-region s root v w same (t, e) =
    let links =
      dest-Linked s.mem s.hhdm_offset root (pml4_index v) (pdpt_index v) (pd_index v) (pt_index v) t
        (pt_index v) e in
    let i1 : pml4_index v ≡ pml4_index w = omega (arith, same, index_bits 39 v, index_bits 39 w) in
    let i2 : pdpt_index v ≡ pdpt_index w = omega (arith, same, index_bits 30 v, index_bits 30 w) in
    let i3 : pd_index v ≡ pd_index w = omega (arith, same, index_bits 21 v, index_bits 21 w) in
    (
      t,
      ap₂ (λ a (is : List ℕ). dest s.mem s.hhdm_offset root (a ∷ is)) (sym i1)
            (ap₂ (λ b (is : List ℕ). b ∷ is) (sym i2) (ap (λ c. c ∷ pt_index w ∷ []) (sym i3)))
          ∙ dest-three s.mem s.hhdm_offset root _ _ t (pml4_index v) (pdpt_index v) (pd_index v)
              (pt_index w) (links.on1) refl (links.on2) refl (links.on3) (links.table),
    )

module _ {lvl : Levels} {s : Vmm} (root virt : ℕ) (inv : Inv lvl s) (top : lvl root ≡ 4)
    (has : HasTable s root virt) where
  links :
      Linked s.mem s.hhdm_offset root (pml4_index virt) (pdpt_index virt) (pd_index virt) (has.0)
  links = dest-Linked s.mem s.hhdm_offset root _ _ _ (pt_index virt) (has.0) (pt_index virt) (has.1)

  -- The walk finds its table, and changes nothing.
  pml4_to_pt-there : (r : Reached lvl s root virt) × (r.pmm ≡ s.pmm)
  unfolding Found-present chain-Reached
  pml4_to_pt-there =
      let q1 = frame_of (entry s.mem s.hhdm_offset root (pml4_index virt)) in
      let q2 = frame_of (entry s.mem s.hhdm_offset q1 (pdpt_index virt)) in
      let b1 : pml4_index virt < 512 = omega (arith, index_bits 39 virt) in
      let b2 : pdpt_index virt < 512 = omega (arith, index_bits 30 virt) in
      let b3 : pd_index virt < 512 = omega (arith, index_bits 21 virt) in
      let l1 : suc (lvl q1) ≡ 4 =
        inv.tree.child root (pml4_index virt) (omega arith) b1 (links.on1) ∙ top in
      let l2 : suc (lvl q2) ≡ lvl q1 =
        inv.tree.child q1 (pdpt_index virt) (omega arith) b2 (links.on2) in
      let f1 : Found lvl s root (pml4_index virt) =
        Found-present inv (omega arith) b1 (links.on1) in
      let f2 : Found lvl s q1 (pdpt_index virt) = Found-present inv (omega arith) b2 (links.on2) in
      let f3 : Found lvl s q2 (pd_index virt) = Found-present inv (omega arith) b3 (links.on3) in
      (chain-Reached inv root virt top f1 f2 f3, refl)

-- On page tables that form a tree, with the lock free and a page table for the address, `vmm_map`
-- does all it does elsewhere, and takes no page.
pub vmm_map-again :
    {lvl : Levels} {s : Vmm} (root virt phys flags : ℕ)
    → Inv lvl s
    → lvl root ≡ 4
    → s.map_lock ≡ spinlock_init
    → HasTable s root virt
    → (m : Mapped s root virt phys flags) × (m.out.pmm ≡ s.pmm)
vmm_map-again {lvl} {s} root virt phys flags inv top open_lock has =
    let (r, kept) =
      pml4_to_pt-there {lvl = lvl} {s = lock_taken s} root virt (taken-Inv inv) top has in
    let (m, same) = final-Mapped root virt phys flags inv top open_lock r in (m, same ∙ kept)
