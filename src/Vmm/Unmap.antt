-- ===== src/Vmm/Unmap.antt =====
-- `vmm_unmap` of olive/src/mm/vmm.c, and `virt2phys` afterwards, on page tables that form a tree.
use fwp_athix.Prelude.{
  ℕ, ◌+◌, ◌*◌, ◌/◌, ◌%◌, ◌^◌, ◌<◌, ◌≤◌, ◌≡◌, ◌≢◌, refl, sym, ap, ap₂, ◌∙◌, true, false, Bool, arith,
  u64, bit_and, none, some,
}
use fwp_athix.Outcome.{returned, halt}
use fwp_athix.Lock.{spinlock_init}
use fwp_athix.Pmm.{free_pages}
use fwp_athix.Vmm.{Vmm, slot, write, pt_index, vmm_unmap, virt2phys, frame_mask}
use fwp_athix.Vmm.Entry.{frame_of, entry}
use fwp_athix.Vmm.Tree.{Levels}
use fwp_athix.Vmm.Walk.{dest, leaf-dest, dest_level, dest_unique}
use fwp_athix.Vmm.Leaf.{write-IsTree, leaf-write_self, leaf-write_other, dest-write}
use fwp_athix.Vmm.Below.{Inv}
use fwp_athix.Vmm.Map.{indices, indices-AreIndices}
use fwp_athix.Vmm.Translate.{page_number, page_number-indices, translation, taken-Inv}
use fwp_athix.Vmm.Lookup.{pml4_to_pt-dest, pointer-nonzero, phys_at, virt2phys_lem}

-- On page tables that form a tree, with the lock free: where `vmm_unmap` finds a missing table it
-- returns false, and changes nothing.
pub vmm_unmap-missing :
    {lvl : Levels} {s : Vmm} (root virt : ℕ) (free_phys : Bool)
    → Inv lvl s
    → lvl root ≡ 4
    → s.map_lock ≡ spinlock_init
    → dest s.mem s.hhdm_offset root (indices virt) ≡ none
    → vmm_unmap (u64 (root + s.hhdm_offset)) virt free_phys s
      ≡ returned (false, record s { map_lock = spinlock_init })
unfolding vmm_unmap
vmm_unmap-missing root virt free_phys inv top open_lock e =
    rw (open_lock, pml4_to_pt-dest (taken-Inv inv) root virt top, e) refl

-- What `vmm_unmap` without `free_phys` has done: nothing is found for the page any more, every
-- other translation and the page allocator are as before, the tables form a tree, the TLB has
-- been flushed once, and the lock is free.
pub record Unmapped (lvl : Levels) (s : Vmm) (root virt : ℕ) : Type 0 where
  pub out : Vmm
  pub runs : vmm_unmap (u64 (root + s.hhdm_offset)) virt false s ≡ returned (true, out)
  pub inv : Inv lvl out
  pub here : translation out root virt ≡ 0
  pub elsewhere :
      (w : ℕ) → page_number w ≢ page_number virt → translation out root w ≡ translation s root w
  pub kept_table :
      dest out.mem s.hhdm_offset root (indices virt) ≡ dest s.mem s.hhdm_offset root (indices virt)
  pub rest : out ≡ record s { mem = out.mem; map_lock = spinlock_init; flushes = s.flushes + 1 }

module _ {lvl : Levels} {s : Vmm} (root virt t : ℕ) (inv : Inv lvl s) (top : lvl root ≡ 4)
    (open_lock : s.map_lock ≡ spinlock_init)
    (ends : dest s.mem s.hhdm_offset root (indices virt) ≡ some (t, pt_index virt)) where
  abbrev final : Vmm
  final = record s {
    mem = write s.mem (slot (u64 (t + s.hhdm_offset)) (pt_index virt)) 0;
    map_lock = spinlock_init;
    flushes = s.flushes + 1;
  }

  final-runs : vmm_unmap (u64 (root + s.hhdm_offset)) virt false s ≡ returned (true, final)
  unfolding vmm_unmap
  final-runs =
      rw
        (
          open_lock,
          pml4_to_pt-dest (taken-Inv inv) root virt top,
          ends,
          pointer-nonzero root virt t (pt_index virt) inv top ends,
        )
        refl

  low : (lvl t ≡ 1) × (pt_index virt < 512)
  low = dest_level inv.tree (indices virt) root t (pt_index virt) top (indices-AreIndices virt) ends

  final-Inv : Inv lvl final
  final-Inv = record {
    tree = write-IsTree inv.tree 0 low.0 low.1;
    offset = inv.offset;
    valid = inv.valid;
    distinct = inv.distinct;
    spare = inv.spare;
  }

  -- On page tables that form a tree, with the lock free and a page table for the page, `vmm_unmap`
  -- without `free_phys` returns true. Then nothing is found for the page, every other translation
  -- is as before, the tables form a tree, the TLB was flushed, and the lock is free.
  pub vmm_unmap-Unmapped : Unmapped lvl s root virt
  vmm_unmap-Unmapped = record {
    out = final;
    runs = final-runs;
    inv = final-Inv;
    here =
        leaf-write_self inv.tree 0 low.0 low.1 (indices virt) root top (indices-AreIndices virt)
          ends;
    elsewhere = λ w ne.
        leaf-write_other inv.tree 0 low.0 low.1 (indices w) root top (indices-AreIndices w) (λ e.
          ne (
            page_number-indices w virt
              (dest_unique inv.tree (indices w) (indices virt) root root (t, pt_index virt) top top
                refl (indices-AreIndices w) (indices-AreIndices virt) e ends).1));
    kept_table =
        dest-write inv.tree 0 low.0 low.1 (indices virt) root top (indices-AreIndices virt);
    rest = refl;
  }

  -- On such tables, with the lock free and with `free_phys`, a page table entry that names no
  -- frame, as after an earlier `vmm_unmap`, fails the assertion of `pmm_free_pages`: the kernel
  -- halts.
  pub vmm_unmap-halt :
      frame_of (translation s root virt) ≡ 0
      → vmm_unmap (u64 (root + s.hhdm_offset)) virt true s ≡ halt
  unfolding vmm_unmap free_pages
  vmm_unmap-halt none_named =
      let named : bit_and (entry s.mem s.hhdm_offset t (pt_index virt)) frame_mask ≡ 0 =
        ap frame_of (sym (leaf-dest s.mem s.hhdm_offset root (indices virt) t (pt_index virt) ends))
        ∙ none_named in
      rw
        (
          open_lock,
          pml4_to_pt-dest (taken-Inv inv) root virt top,
          ends,
          pointer-nonzero root virt t (pt_index virt) inv top ends,
          named,
        )
        refl

  -- On such tables, with the lock free and a width of physical addresses from 12 to 63 bits: after
  -- `vmm_unmap` has removed a page, `virt2phys` still answers for it: it returns the offset
  -- of the address in its page, not 0.
  pub virt2phys-unmap :
      (k : ℕ)
      → s.physical_address_width ≡ k + 12
      → k ≤ 51
      → (out : Vmm) × (vmm_unmap (u64 (root + s.hhdm_offset)) virt false s ≡ returned (true, out))
        × (virt2phys (u64 (root + s.hhdm_offset)) virt out ≡ returned (virt % 4096, out))
  virt2phys-unmap k width fits = (
    final,
    final-runs,
    virt2phys_lem root virt k final-Inv top width fits
        ∙ ap (λ a. returned (a, final))
            (ap₂ (λ d e. phys_at d e k virt)
                (dest-write inv.tree 0 low.0 low.1 (indices virt) root top (indices-AreIndices virt)
                  ∙ ends)
                (leaf-write_self inv.tree 0 low.0 low.1 (indices virt) root top
                  (indices-AreIndices virt) ends)
              ∙ empty k),
  )
    where
      empty : (k : ℕ) → 0 / 4096 % 2 ^ k * 4096 + virt % 4096 ≡ virt % 4096
      empty k = grind arith
