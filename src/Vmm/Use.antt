-- ===== src/Vmm/Use.antt =====
-- Page tables in use: `vmm_map`, `vmm_unmap` and `virt2phys` of olive/src/mm/vmm.c one after another.
use fwp_athix.Prelude.{ℕ, ◌+◌, ◌%◌, ◌≡◌, ◌∙◌, List, u64, bit_or}
use fwp_athix.Outcome.{returned}
use fwp_athix.Vmm.{Vmm, vmm_map, virt2phys}
use fwp_athix.Vmm.Translate.{translation}
use fwp_athix.Vmm.Stored.{IsStorable}
use fwp_athix.Vmm.Mapper.{IsReady, vmm_mapper}
use fwp_athix.Vmm.Changes.{
  Change, mapping, set_page, space_after, pages_for, make_changes, make_changes-refines,
  apply_change-cong, set_page-translation,
}

-- On page tables that form a tree, with the lock free, three pages for each `vmm_map` made and a width
-- of physical addresses from 12 to 52 bits: any series of calls of `vmm_map` and `vmm_unmap` without
-- `free_phys`, in any order, and then a `vmm_map` of one more page, return; `virt2phys` then finds for
-- that page the physical address that was given with the offset in the page, and the processor finds
-- for every address what the calls say when each replaces the entry of its page. The physical address
-- is page-aligned and within the width, and the flags are outside the frame's bits.
pub virt2phys-changes :
    {h width root : ℕ} {s : Vmm} (cs : List Change) (virt phys flags : ℕ)
    → IsReady h width root s (pages_for cs + 3)
    → IsStorable width phys flags
    → let pml4 = u64 (root + h) in
      (t u : Vmm) × (make_changes (vmm_mapper h width root) cs s ≡ returned t)
      × (vmm_map pml4 virt phys flags t ≡ returned u)
      × (virt2phys pml4 virt u ≡ returned (phys + virt % 4096, u))
      × ((w : ℕ)
          → translation u root w
            ≡ set_page virt (bit_or phys flags) (space_after cs (translation s root)) w)
virt2phys-changes {h} {width} {root} {s} cs virt phys flags start at =
    let m = vmm_mapper h width root in
    let (t, runs, ready, space) = make_changes-refines m cs 3 s start in
    let (u, maps, ready', has, here, elsewhere) = m.maps t 0 virt phys flags ready in
    (
      t,
      u,
      runs,
      maps,
      m.fetches u 0 virt phys flags ready' has at here,
      λ w.
          set_page-translation m t u virt (bit_or phys flags) w here elsewhere
          ∙ apply_change-cong (mapping virt phys flags) _ _ w space,
    )
