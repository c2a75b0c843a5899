-- ===== src/Vmm/Init/Total.antt =====
-- `vmm_init` of olive/src/mm/vmm.c as a whole.
use fwp_athix.Prelude.{
  ℕ, ◌+◌, ◌≤◌, ◌≡◌, ◌≢◌, refl, ◌∙◌, arith, List, All, length, u64, bit_and, ◌>>>◌, ne→==,
}
use fwp_athix.Outcome.{Outcome, returned}
use fwp_athix.Cpu.{Registers, get_cpuid}
use fwp_athix.Macros.{Entry}
use fwp_athix.Pmm.{request_pages}
use fwp_athix.Vmm.{Vmm, tlb_flush, vmm_set_pm}
use fwp_athix.Vmm.Translate.{translation}
use fwp_athix.Vmm.Interface.{assign, assign-cong}
use fwp_athix.Vmm.Mapper.{IsReady}
use fwp_athix.Vmm.Init.{Sections, KernelMap, vmm_init}
use fwp_athix.Vmm.Init.Plan.{IsBounded}
use fwp_athix.Vmm.Init.Fresh.{IsFresh, cleared, cleared-empty, granted, cleared-IsReady}
use fwp_athix.Vmm.Init.Loops.{AreBounded, init_plan, init_cost, loops-Looped}

-- What `vmm_init` leaves: its page map is at the virtual address of frame `root`, which CR3 names,
-- the tables form a tree, the lock is free, `n` pages are left, the width of physical addresses is
-- the one that CPUID returned, and the processor finds for every address what the plan says, and
-- nothing where the plan has no request.
pub record IsBuilt (b : Sections) (cpuid : ℕ → Registers) (es : List Entry)
    (kernel_virt kernel_phys root : ℕ) (k : KernelMap) (n : ℕ) : Type 0 where
  pub out : KernelMap
  pub runs : vmm_init b cpuid es kernel_virt kernel_phys k ≡ returned (0, out)
  pub kernel_pm : out.kernel_pm.pml4 ≡ u64 (root + k.vmm.hhdm_offset)
  pub cr3 : out.vmm.cr3 ≡ root
  pub ready :
      IsReady k.vmm.hhdm_offset (bit_and (get_cpuid cpuid 0x80000008).1.eax 0xFF) root out.vmm n
  pub space :
      (w : ℕ)
      → translation (out.vmm) root w
        ≡ assign (init_plan (k.vmm.hhdm_offset) es b kernel_virt kernel_phys) (λ v. 0) w

-- The widths that CPUID returned have been stored.
abbrev pub with_widths : ℕ → Vmm → Vmm
with_widths eax s = record s {
  physical_address_width = bit_and eax 0xFF;
  linear_address_width = bit_and (eax >>> 8) 0xFF;
}

-- `vmm_init` builds the address space of its plan, and returns 0: when the kernel's addresses are
-- not 0, the free pages are distinct, page-aligned and in the direct map, there are three of them
-- for each region of 2 MiB that a loop enters, one more and `n` others, and no loop reaches the end
-- of the address space.
pub vmm_init-IsBuilt :
    (b : Sections) (cpuid : ℕ → Registers) (es : List Entry) (kernel_virt kernel_phys root : ℕ)
    (k : KernelMap) (xs : List ℕ) (n : ℕ)
    → IsFresh (k.vmm) xs root
    → kernel_virt ≢ 0
    → kernel_phys ≢ 0
    → All IsBounded es
    → AreBounded b
    → init_cost (k.vmm.hhdm_offset) es b kernel_virt kernel_phys + n ≤ length xs
    → IsBuilt b cpuid es kernel_virt kernel_phys root k n
unfolding vmm_init vmm_set_pm
vmm_init-IsBuilt b cpuid es kernel_virt kernel_phys root k xs n fresh virt phys bounded ends
      enough =
    let s0 = with_widths (get_cpuid cpuid 0x80000008).1.eax (k.vmm) in
    let fresh0 : IsFresh s0 xs root = record {
      base = fresh.base;
      offset = fresh.offset;
      valid = fresh.valid;
      pages = fresh.pages;
      distinct = fresh.distinct;
      frames = fresh.frames;
      frame = fresh.frame;
      unlocked = fresh.unlocked;
    } in
    let h = k.vmm.hhdm_offset in
    let pml4 = u64 (root + h) in
    let pmm = (granted fresh0).out in
    let got : request_pages 1 s0.pmm ≡ returned (root, pmm) = (granted fresh0).runs in
    let loops =
      loops-Looped b h s0.physical_address_width root es kernel_virt kernel_phys
        (cleared s0 root pmm) n bounded ends (cleared-IsReady fresh0 _ enough) in
    let final : Vmm → Outcome (ℕ × KernelMap) = λ s.
      returned
        (0, record { vmm = tlb_flush (vmm_set_pm pml4 s); kernel_pm = record { pml4 = pml4 } }) in
    record {
      out = record {
        vmm = tlb_flush (vmm_set_pm pml4 loops.out);
        kernel_pm = record { pml4 = pml4 };
      };
      runs =
          rw (ne→== kernel_virt 0 virt, ne→== kernel_phys 0 phys, got, ne→== root 0 (fresh.frame.1))
            (loops.runs final);
      kernel_pm = refl;
      cr3 = omega (arith, loops.ready.offset, fresh.frame.0.mapped);
      ready = record {
        lvl = loops.ready.lvl;
        inv = record {
          tree = loops.ready.inv.tree;
          offset = loops.ready.inv.offset;
          valid = loops.ready.inv.valid;
          distinct = loops.ready.inv.distinct;
          spare = loops.ready.inv.spare;
        };
        top = loops.ready.top;
        unlocked = loops.ready.unlocked;
        offset = loops.ready.offset;
        same_width = loops.ready.same_width;
        spare = loops.ready.spare;
      };
      space = λ w.
          loops.space w
          ∙ assign-cong (init_plan h es b kernel_virt kernel_phys) _ _ w (cleared-empty fresh0 pmm);
    }
