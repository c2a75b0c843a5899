-- ===== src/Vmm/Translate.antt =====
-- What `vmm_map` of olive/src/mm/vmm.c does to address translation: the page that is mapped, and
-- every other page.
use fwp_athix.Prelude.{
  ℕ, ◌+◌, ◌/◌, ◌%◌, ◌^◌, ◌<◌, ◌≤◌, ◌≡◌, ◌≢◌, refl, ap, ◌∙◌, arith, u64, bit_or, get_or, some,
}
use fwp_athix.Outcome.{returned}
use fwp_athix.Lock.{spinlock_init}
use fwp_athix.Vmm.{Vmm, slot, write, pt_index, vmm_map}
use fwp_athix.Vmm.Tree.{Levels}
use fwp_athix.Vmm.Walk.{leaf, dest_level, dest_unique, dest}
use fwp_athix.Vmm.Leaf.{write-IsTree, leaf-write_self, leaf-write_other, dest-write}
use fwp_athix.Vmm.Below.{Inv}
use fwp_athix.Vmm.Map.{index_bits, indices, indices-AreIndices, Reached, pml4_to_pt-Reached}

-- The number of the virtual page, in a 48-bit address space.
abbrev pub page_number : ℕ → ℕ
page_number virt = virt / 4096 % 2 ^ 36

pub page_number-indices : (v w : ℕ) → indices v ≡ indices w → page_number v ≡ page_number w
page_number-indices v w e =
    let d4 = ap (λ is. get_or is 0 0) e in
    let d3 = ap (λ is. get_or is 1 0) e in
    let d2 = ap (λ is. get_or is 2 0) e in
    let d1 = ap (λ is. get_or is 3 0) e in
    omega (
      arith,
      d4,
      d3,
      d2,
      d1,
      index_bits 39 v,
      index_bits 30 v,
      index_bits 21 v,
      index_bits 12 v,
      index_bits 39 w,
      index_bits 30 w,
      index_bits 21 w,
      index_bits 12 w,
    )

-- The entry that the processor finds for `virt` under the PML4 in frame `root`; 0 if there is no
-- page table.
abbrev pub translation : Vmm → ℕ → ℕ → ℕ
translation s root virt = leaf s.mem s.hhdm_offset root (indices virt)

-- What `vmm_map` has done: the new translation is `phys | flags`, no other has changed, the
-- tables still form a tree, the TLB has been flushed once, and the lock is free.
pub record Mapped (s : Vmm) (root virt phys flags : ℕ) : Type 0 where
  pub lvl' : Levels
  pub out : Vmm
  pub runs : vmm_map (u64 (root + s.hhdm_offset)) virt phys flags s ≡ returned out
  pub inv : Inv lvl' out
  pub top : lvl' root ≡ 4
  pub here : translation out root virt ≡ bit_or phys flags
  pub elsewhere :
      (w : ℕ) → page_number w ≢ page_number virt → translation out root w ≡ translation s root w
  pub unlocked : out.map_lock ≡ spinlock_init
  pub flushed : out.flushes ≡ s.flushes + 1
  pub left : s.pmm.stack_idx ≤ 3 + out.pmm.stack_idx
  pub same_offset : out.hhdm_offset ≡ s.hhdm_offset
  pub same_width : out.physical_address_width ≡ s.physical_address_width
  -- The page table of `virt` stays.
  pub pt : ℕ
  pub table : dest out.mem out.hhdm_offset root (indices virt) ≡ some (pt, pt_index virt)

abbrev pub lock_taken : Vmm → Vmm
lock_taken s = record s { map_lock = record { locked = 1 } }

pub taken-Inv : {lvl : Levels} {s : Vmm} → Inv lvl s → Inv lvl (lock_taken s)
taken-Inv inv = record {
  tree = inv.tree;
  offset = inv.offset;
  valid = inv.valid;
  distinct = inv.distinct;
  spare = inv.spare;
}

module _ {lvl : Levels} {s : Vmm} (root virt phys flags : ℕ) (inv : Inv lvl s) (top : lvl root ≡ 4)
    (open_lock : s.map_lock ≡ spinlock_init) (r : Reached lvl (lock_taken s) root virt) where
  abbrev final : Vmm
  final = record s {
    mem = write r.mem (slot (u64 (r.pt + s.hhdm_offset)) (pt_index virt)) (bit_or phys flags);
    pmm = r.pmm;
    map_lock = spinlock_init;
    flushes = s.flushes + 1;
  }

  final-runs : vmm_map (u64 (root + s.hhdm_offset)) virt phys flags s ≡ returned final
  unfolding vmm_map
  final-runs = rw (open_lock, r.runs, r.nonzero) refl

  top' : r.lvl' root ≡ 4
  top' = r.grown.keeps root (omega arith) ∙ top

  low : (r.lvl' r.pt ≡ 1) × (pt_index virt < 512)
  low =
      dest_level r.grown.inv.tree (indices virt) root r.pt (pt_index virt) top'
        (indices-AreIndices virt) r.ends

  final-Inv : Inv r.lvl' final
  final-Inv = record {
    tree = write-IsTree r.grown.inv.tree (bit_or phys flags) low.0 low.1;
    offset = inv.offset;
    valid = r.grown.inv.valid;
    distinct = r.grown.inv.distinct;
    spare = r.grown.inv.spare;
  }

  final-elsewhere :
      (w : ℕ) → page_number w ≢ page_number virt → translation final root w ≡ translation s root w
  final-elsewhere w ne =
      leaf-write_other r.grown.inv.tree (bit_or phys flags) low.0 low.1 (indices w) root top'
        (indices-AreIndices w)
        (λ e. ne (
          page_number-indices w virt
            (dest_unique r.grown.inv.tree (indices w) (indices virt) root root (r.pt, pt_index virt)
              top' top' refl (indices-AreIndices w) (indices-AreIndices virt) e r.ends).1))
      ∙ r.grown.walks (indices w) root top (indices-AreIndices w)

  -- No more pages have left than for the tables.
  pub final-Mapped : (m : Mapped s root virt phys flags) × (m.out.pmm ≡ r.pmm)
  final-Mapped = (
    record {
      lvl' = r.lvl';
      out = final;
      runs = final-runs;
      inv = final-Inv;
      top = top';
      here =
          leaf-write_self r.grown.inv.tree (bit_or phys flags) low.0 low.1 (indices virt) root top'
            (indices-AreIndices virt) r.ends;
      elsewhere = final-elsewhere;
      unlocked = refl;
      flushed = refl;
      left = r.grown.left;
      same_offset = refl;
      same_width = refl;
      pt = r.pt;
      table =
          dest-write r.grown.inv.tree (bit_or phys flags) low.0 low.1 (indices virt) root top'
            (indices-AreIndices virt)
          ∙ r.ends;
    },
    refl,
  )

-- On page tables that form a tree, with the lock free and three pages to spare, `vmm_map` returns,
-- whatever tables are missing. The processor then finds `phys | flags` for the mapped page and
-- what it found before for every other page; the tables still form a tree, the lock is free, the
-- TLB was flushed, and at most three pages have left the free list.
pub vmm_map-Mapped :
    {lvl : Levels} {s : Vmm} (root virt phys flags : ℕ)
    → Inv lvl s
    → lvl root ≡ 4
    → s.map_lock ≡ spinlock_init
    → 3 ≤ s.pmm.stack_idx
    → Mapped s root virt phys flags
vmm_map-Mapped {s} root virt phys flags inv top open_lock spare =
    (final-Mapped root virt phys flags inv top open_lock
      (pml4_to_pt-Reached root virt (taken-Inv inv) top spare)).0
