-- ===== src/Tests/Space.antt =====
-- `vmm_init` of olive/src/mm/vmm.c on a memory map with one usable page, and seven free pages.
use fwp_athix.Prelude.{ℕ, ◌%◌, ◌<◌, ◌≡◌, refl, List, [], ◌∷◌, ◌++◌, arith}
use fwp_athix.Macros.{Entry, EntryType, align_up, align_down}
use fwp_athix.Cpu.{Registers}
use fwp_athix.Lock.{spinlock_init}
use fwp_athix.Vmm.Entry.{IsFrame}
use fwp_athix.Vmm.Translate.{translation}
use fwp_athix.Vmm.Init.{Sections, KernelMap, vmm_init}
use fwp_athix.Vmm.Init.Starved.{vmm_init-starved}
use fwp_athix.Vmm.Init.Fresh.{IsFresh}
use fwp_athix.Vmm.Init.Total.{IsBuilt, vmm_init-IsBuilt}
use fwp_athix.Outcome.{returned}

abbrev offset : ℕ
offset = 0xffff800000000000

abbrev pages : List ℕ
pages = 0x1000 ∷ 0x2000 ∷ 0x3000 ∷ 0x4000 ∷ 0x5000 ∷ 0x6000 ∷ []

abbrev kernel : KernelMap
kernel = record {
  vmm = record {
    mem = λ a. 0;
    pmm = record {
      stack = pages ++ (0x7000 ∷ []);
      stack_idx = 7;
      free_pages = 7;
      used_pages = 0;
      total_pages = 7;
    };
    hhdm_offset = offset;
    map_lock = spinlock_init;
    cr3 = 0;
    flushes = 0;
    physical_address_width = 0;
    linear_address_width = 0;
  };
  kernel_pm = record { pml4 = 0 };
}

abbrev bounds : Sections
bounds = record {
  text_start = 0;
  text_end = 0;
  rodata_start = 0;
  rodata_end = 0;
  data_start = 0;
  data_end = 0;
}

abbrev cpuid : ℕ → Registers
cpuid leaf = record { eax = 0x3028; ebx = 0; ecx = 0; edx = 0 }

-- One usable page at 0x9000
abbrev memory : List Entry
memory = record { base = 0x9000; size = 0x1000; kind = EntryType.usable } ∷ []

frame : (p : ℕ) → p % 4096 ≡ 0 → p < 0x100000 → IsFrame offset p
frame p aligned small = record { aligned = aligned; small = omega arith; mapped = omega arith }

kernel-IsFresh : IsFresh kernel.vmm pages 0x7000
kernel-IsFresh = record {
  base = refl;
  offset = omega arith;
  valid = record { counted = refl; room = omega arith; fits = omega arith; small = omega arith };
  pages = refl;
  distinct = (
    (omega arith, (omega arith, (omega arith, (omega arith, (omega arith, (omega arith, tt)))))),
    (
      (omega arith, (omega arith, (omega arith, (omega arith, (omega arith, tt))))),
      (
        (omega arith, (omega arith, (omega arith, (omega arith, tt)))),
        (
          (omega arith, (omega arith, (omega arith, tt))),
          ((omega arith, (omega arith, tt)), ((omega arith, tt), (tt, tt))),
        ),
      ),
    ),
  );
  frames = (
    (frame 0x1000 refl (omega arith), omega arith),
    (
      (frame 0x2000 refl (omega arith), omega arith),
      (
        (frame 0x3000 refl (omega arith), omega arith),
        (
          (frame 0x4000 refl (omega arith), omega arith),
          (
            (frame 0x5000 refl (omega arith), omega arith),
            ((frame 0x6000 refl (omega arith), omega arith), tt),
          ),
        ),
      ),
    ),
  );
  frame = (frame 0x7000 refl (omega arith), omega arith);
  unlocked = refl;
}

vmm_init-IsBuilt_example : IsBuilt bounds cpuid memory 1 2 0x7000 kernel 3
unfolding align_up align_down
vmm_init-IsBuilt_example =
    vmm_init-IsBuilt bounds cpuid memory 1 2 0x7000 kernel pages 3 kernel-IsFresh (omega arith)
      (omega arith) ((omega arith, omega arith), tt)
      (record { text = omega arith; rodata = omega arith; data' = omega arith }) (omega arith)

-- The same with one free page.
abbrev poor : KernelMap
poor = record kernel {
  vmm = record (kernel.vmm) {
    pmm = record {
      stack = 0x7000 ∷ [];
      stack_idx = 1;
      free_pages = 1;
      used_pages = 0;
      total_pages = 1;
    };
  };
}

poor-IsFresh : IsFresh poor.vmm [] 0x7000
poor-IsFresh = record {
  base = refl;
  offset = omega arith;
  valid = record { counted = refl; room = omega arith; fits = omega arith; small = omega arith };
  pages = refl;
  distinct = (tt, tt);
  frames = tt;
  frame = (frame 0x7000 refl (omega arith), omega arith);
  unlocked = refl;
}

vmm_init-starved_example :
    (out : KernelMap) × (vmm_init bounds cpuid memory 1 2 poor ≡ returned (0, out))
    × (out.vmm.cr3 ≡ 0x7000)
    × ((w : ℕ) → translation out.vmm 0x7000 w ≡ 0)
unfolding align_up align_down
vmm_init-starved_example =
    vmm_init-starved bounds cpuid memory 1 2 0x7000 poor poor-IsFresh (omega arith) (omega arith)
      ((omega arith, omega arith), tt)
      (record { text = omega arith; rodata = omega arith; data' = omega arith })
