-- ===== src/Tests/Start.antt =====
-- The start of the kernel, olive/src/olive.c, with a memory map that is missing.
use fwp_athix.Prelude.{
  zero, suc, get_or, inr, ℕ, ◌%◌, ◌<◌, ◌≡◌, ◌≢◌, refl, arith, true, false, none, some, List, [],
  ◌∷◌, ℤ, pos, replicate, length-replicate,
}
use fwp_athix.Outcome.{Outcome, returned, halt}
use fwp_athix.Cpu.{Registers}
use fwp_athix.Lock.{spinlock_init}
use fwp_athix.Pmm.Init.Success.{zeroed}
use fwp_athix.Vmm.Init.{Sections, KernelMap, vmm_init}
use fwp_athix.Console.Output.{IsFormatter}
use fwp_athix.Log.{Line, default_build}
use fwp_athix.Macros.{Entry, EntryType, align_up, align_down}
use fwp_athix.Pmm.Init.{Physical, pmm_init, no_entry, stack_size, locate}
use fwp_athix.Vmm.Init.Fresh.{IsFree}
use fwp_athix.Log.Message.{Message}
use fwp_athix.Boot.{Requests, Kernel, LogSources, share, test_heap, olive_entry}
use fwp_athix.Boot.Banner.{Text}
use fwp_athix.Boot.Logs.{start_text}
use fwp_athix.Boot.Started.{olive_entry-refused}
use fwp_athix.Boot.Hidden.{page_stack-unmapped}
use fwp_athix.Vmm.Init.Unlisted.{direct_map, IsApart}
use fwp_athix.Vmm.Translate.{translation}
use fwp_athix.Boot.Complete.{IsBootable, Booted, olive_entry-Booted}

abbrev requests : Requests
requests = record {
  base_revision_supported = true;
  framebuffers = some 1;
  memmap = none;
  hhdm = some 0xffff800000000000;
  kernel_address = some (0xffffffff80000000, 0x200000);
}

abbrev kernel : Kernel ℕ
kernel = record {
  segments = none;
  idt = record { entries = []; limit = 0; irq_handlers = []; loaded = none };
  physical = zeroed;
  map = record {
    vmm = record {
      mem = λ a. 0;
      pmm = zeroed.pmm;
      hhdm_offset = 0;
      map_lock = spinlock_init;
      cr3 = 0;
      flushes = 0;
      physical_address_width = 0;
      linear_address_width = 0;
    };
    kernel_pm = record { pml4 = 0 };
  };
  console = record { lock = spinlock_init; ft_ctx = false; bus = []; screen = [] };
}

abbrev bounds : Sections
bounds = record {
  text_start = 0;
  text_end = 0;
  rodata_start = 0;
  rodata_end = 0;
  data_start = 0;
  data_end = 0;
}

abbrev cpuid : ℕ → Registers
cpuid leaf = record { eax = 0x3028; ebx = 0; ecx = 0; edx = 0 }

abbrev kmalloc : ℕ → KernelMap → Outcome (ℕ × KernelMap)
kmalloc size k = returned (0x1000, k)

abbrev kfree : ℕ → KernelMap → Outcome KernelMap
kfree a k = returned k

-- A formatter that prints a `*` for each line
abbrev star : ℕ → Line Text → ℤ × List ℕ
star size line = (pos 1, replicate 1024 42)

star-IsFormatter : IsFormatter star
star-IsFormatter f = length-replicate {A = ℕ} 1024 42

-- The same for the log of the other files
abbrev plain : ℕ → Line Message → ℤ × List ℕ
plain size line = (pos 1, replicate 1024 42)

plain-IsFormatter : IsFormatter plain
plain-IsFormatter f = length-replicate {A = ℕ} 1024 42

abbrev sources : LogSources
sources = record {
  npf = plain;
  gdt_file = "src/sys/gdt.c";
  idt_file = "src/sys/idt.c";
  pmm_file = "src/mm/pmm.c";
  vmm_file = "src/mm/vmm.c";
  gdt_entries = 0xffffffff80010000;
  idt_entries = 0xffffffff80011000;
}

olive_entry-refused_example :
    olive_entry star default_build "src/olive.c" sources true
      (λ v. 0)
      bounds
      cpuid
      kmalloc
      kfree
      requests
      kernel
    ≡ halt
olive_entry-refused_example =
    olive_entry-refused star default_build "src/olive.c" sources plain-IsFormatter true (λ v. 0)
      bounds cpuid kmalloc kfree star-IsFormatter requests kernel refl refl

-- A memory map with six usable pages: one for the page stack, one for the PML4.
abbrev entries : List Entry
entries =
    record { base = 0; size = 0x1000; kind = EntryType.other }
    ∷ record { base = 0x1000; size = 0x6000; kind = EntryType.usable }
    ∷ []

abbrev answers : Requests
answers = record requests { memmap = some entries }

frame : (p : ℕ) → p % 4096 ≡ 0 → p < 0x100000 → p ≢ 0 → IsFree 0xffff800000000000 p
frame p aligned small ne =
    (record { aligned = aligned; small = omega arith; mapped = omega arith }, ne)

answers-IsBootable :
    IsBootable answers bounds entries 1 (0x1000 ∷ 0x2000 ∷ 0x3000 ∷ 0x4000 ∷ []) 0x5000 0
unfolding locate stack_size align_up align_down
answers-IsBootable = record {
  supported = refl;
  framebuffer = refl;
  entries = refl;
  memmap = refl;
  offset = omega arith;
  base = refl;
  whole = (
    λ other. cc other,
    (λ kind. record { base_aligned = refl; size_aligned = refl; below = omega arith }, tt),
  );
  few = omega arith;
  located = refl;
  pages = refl;
  distinct = (
    (omega arith, (omega arith, (omega arith, (omega arith, tt)))),
    (
      (omega arith, (omega arith, (omega arith, tt))),
      ((omega arith, (omega arith, tt)), ((omega arith, tt), (tt, tt))),
    ),
  );
  frames = (
    frame 0x1000 refl (omega arith) (omega arith),
    (
      frame 0x2000 refl (omega arith) (omega arith),
      (
        frame 0x3000 refl (omega arith) (omega arith),
        (frame 0x4000 refl (omega arith) (omega arith), tt),
      ),
    ),
  );
  frame = frame 0x5000 refl (omega arith) (omega arith);
  virt = omega arith;
  phys = omega arith;
  bounded = ((omega arith, omega arith), ((omega arith, omega arith), tt));
  sections = record { text = omega arith; rodata = omega arith; data' = omega arith };
  enough = omega arith;
}

olive_entry-Booted_example :
    Booted answers bounds entries 1 0x5000 0
      (olive_entry star default_build "src/olive.c" sources true
        (λ v. 0)
        bounds
        cpuid
        kmalloc
        kfree
        answers
        kernel)
      (test_heap star default_build "src/olive.c" kmalloc kfree)
      (start_text star default_build sources plain-IsFormatter)
      kernel
      cpuid
      (λ v. 0)
olive_entry-Booted_example =
    olive_entry-Booted star default_build "src/olive.c" sources (λ v. 0) bounds cpuid kmalloc kfree
      star-IsFormatter plain-IsFormatter kernel answers-IsBootable refl refl refl

-- The page stack is the last page of entry 1, at 0x6000.
page_stack-unmapped_example :
    (p : Physical) × (k : KernelMap) × (pmm_init (some entries) 0xffff800000000000 zeroed
      ≡ returned (0, p))
    × (vmm_init bounds cpuid p.memmap 0xffffffff80000000 0x200000 (share p kernel.map)
        ≡ returned (0, k))
    × (translation k.vmm k.vmm.cr3 (direct_map 0xffff800000000000 0x6000) ≡ 0)
unfolding stack_size align_up align_down
page_stack-unmapped_example =
    page_stack-unmapped cpuid answers-IsBootable kernel.map 0x6000 refl
      (record { from = omega arith; to = omega arith; aligned = refl }) (omega arith) others tt
  where
    others : (i : ℕ) → i < 2 → i ≢ 1 → IsApart 0xffff800000000000 0x6000 (get_or entries i no_entry)
    others zero lt ne = record {
      kind = inr refl;
      base_aligned = refl;
      size_aligned = refl;
      fits = omega arith;
      apart = inr (omega arith);
    }
    others (suc i) lt ne = absurd (omega (arith, lt, ne))
