-- ===== src/Boot.antt =====
-- `olive_entry` of olive/src/olive.c: the order in which the kernel starts. What the bootloader
-- answered, whether the terminal could be made, the formatter, and liballoc's `kmalloc` and `kfree`
-- are parameters. The write of 'A' to the test byte is not kept, and what it prints is.
pub mod Banner
pub mod Logs
pub mod Started
pub mod Complete
pub mod Hidden
use Prim.Native.String.{String}
use fwp_athix.Prelude.{
  ℕ, ◌≡◌, refl, Bool, true, false, not, ◌&&◌, ◌||◌, ℤ, Option, none, some, List, ltb, length, ◌==◌,
  if◌then◌else◌, Bool-cases, inl, inr,
}
use fwp_athix.Outcome.{Outcome, returned, halt, ◌>>=◌}
use fwp_athix.Cpu.{Registers}
use fwp_athix.Macros.{Entry}
use fwp_athix.Console.{Console}
use fwp_athix.Log.{Build, Line, text, fatal, info}
use fwp_athix.Boot.Banner.{Text, message, allocated, banner}
use fwp_athix.Log.Message.{Message}
use fwp_athix.Gdt.{Segments}
use fwp_athix.Gdt.Logged.{init_gdt_on_console}
use fwp_athix.Idt.Init.{Idt}
use fwp_athix.Idt.Logged.{init_idt_on_console}
use fwp_athix.Pmm.Init.{Physical}
use fwp_athix.Pmm.Init.Logged.{init_on_console}
use fwp_athix.Vmm.Init.{Sections, KernelMap}
use fwp_athix.Vmm.Init.Logged.{vmm_init_logged}

-- The responses to the requests; `none` is a null response. `framebuffers` is the count.
pub record Requests : Type 0 where
  pub base_revision_supported : Bool
  pub framebuffers : Option ℕ
  pub memmap : Option (List Entry)
  pub hhdm : Option ℕ
  pub kernel_address : Option (ℕ × ℕ)

-- What the kernel consists of. The state of vmm.c has the page allocator's in it.
pub record Kernel (H : Type 0) : Type 0 where
  pub segments : Option Segments
  pub idt : Idt H
  pub physical : Physical
  pub map : KernelMap
  pub console : Console

abbrev pub has_framebuffer : Requests → Bool
has_framebuffer r = elim (r.framebuffers) [ none ↦ false | some n ↦ not (ltb n 1) ]

abbrev pub has_memmap : Requests → Bool
has_memmap r = elim (r.memmap) [ none ↦ false | some es ↦ not (length es == 0) ]

abbrev pub offset_of : Requests → ℕ
offset_of r = elim (r.hhdm) [ none ↦ 0 | some h ↦ h ]

abbrev pub kernel_of : Requests → ℕ × ℕ
kernel_of r = elim (r.kernel_address) [ none ↦ (0, 0) | some a ↦ a ]

-- `if (!ok) hcf();`
abbrev pub require : Bool → Outcome Bool
require ok = if ok then returned ok else halt

-- vmm.c works on the globals of pmm.c.
abbrev pub share : Physical → KernelMap → KernelMap
share p k = record k { vmm = record (k.vmm) { pmm = p.pmm; hhdm_offset = p.hhdm_offset } }

-- `if (!ok) { FATAL(...); hcf(); }`
unfoldable pub check :
    (ℕ → Line Text → ℤ × List ℕ) → Build → String → Bool → String → Console → Outcome Console
unfolding fatal
check npf build file ok msg c =
    if ok then returned c else (do c' ← fatal npf build file (text (message msg)) c; halt)

-- What the log of the initialisers needs: a formatter for their formats, the names of their files and
-- the addresses of the tables.
pub record LogSources : Type 0 where
  pub npf : ℕ → Line Message → ℤ × List ℕ
  pub gdt_file : String
  pub idt_file : String
  pub pmm_file : String
  pub vmm_file : String
  pub gdt_entries : ℕ
  pub idt_entries : ℕ

-- The end of `olive_entry`, once all parts have started: a byte from liballoc and back.
unfoldable pub test_heap :
    {H : Type 0}
    → (ℕ → Line Text → ℤ × List ℕ)
    → Build
    → String
    → (ℕ → KernelMap → Outcome (ℕ × KernelMap))
    → (ℕ → KernelMap → Outcome KernelMap)
    → Segments
    → Idt H
    → Physical
    → KernelMap
    → Console
    → Outcome (Kernel H)
unfolding check
test_heap npf build file kmalloc kfree segments idt physical map c = do
  (a, m2) ← kmalloc 1 map
  c1 ←
      check npf build file (not (a == 0))
        "Failed to allocate memory for test malloc, failed to use liballoc\n" c
  c2 ← info npf build file (text (allocated a 65)) c1
  m3 ← kfree a m2
  returned (record {
    segments = some segments;
    idt = idt;
    physical = record physical { pmm = m3.vmm.pmm };
    map = m3;
    console = c2;
  })

module _ {H : Type 0} (npf : ℕ → Line Text → ℤ × List ℕ) (build : Build) (file : String)
    (sources : LogSources) (terminal : Bool) (isr : ℕ → ℕ) (bounds : Sections)
    (cpuid : ℕ → Registers) (kmalloc : ℕ → KernelMap → Outcome (ℕ × KernelMap))
    (kfree : ℕ → KernelMap → Outcome KernelMap) where
  -- The state in which the final `hlt` is reached.
  unfoldable pub olive_entry : Requests → Kernel H → Outcome (Kernel H)
  unfolding check test_heap
  olive_entry r k = do
    supported ← require (r.base_revision_supported)
    framebuffer ← require (has_framebuffer r)
    context ← require terminal
    let c0 = record (k.console) { ft_ctx = true }
    ((gdt_code, segments), g1) ←
        init_gdt_on_console sources.npf build sources.gdt_file sources.gdt_entries c0
    c1 ← check npf build file (gdt_code == 0) "Failed to initialize GDT\n" g1
    ((idt_code, idt), i1) ←
        init_idt_on_console sources.npf build sources.idt_file sources.idt_entries isr k.idt c1
    c2 ← check npf build file (idt_code == 0) "Failed to initialize IDT\n" i1
    c3 ← banner npf build c2
    c4 ← check npf build file (has_memmap r) "No memory map available\n" c3
    c5 ← check npf build file (not (offset_of r == 0)) "No HHDM offset available\n" c4
    ((pmm_code, physical), p1) ←
        init_on_console sources.npf build sources.pmm_file r.memmap (offset_of r) k.physical c5
    c6 ← check npf build file (pmm_code == 0) "Failed to initialize Physical Memory Manager\n" p1
    let (kernel_virt, kernel_phys) = kernel_of r
    c7 ←
        check npf build file (not ((kernel_virt == 0) || (kernel_phys == 0)))
          "Failed to get kernel address (virt and phys)\n" c6
    ((vmm_code, m1), v1) ←
        vmm_init_logged sources.npf build sources.pmm_file sources.vmm_file bounds cpuid
          physical.memmap kernel_virt kernel_phys (share physical k.map) c7
    c8 ← check npf build file (vmm_code == 0) "Failed to initialize Virtual Memory Manager\n" v1
    test_heap npf build file kmalloc kfree segments idt physical m1 c8
