-- ===== src/Boot/Complete.antt =====
-- The start of the kernel as a whole: pmm_init, vmm_init and `olive_entry` of olive/src/olive.c
-- together, from the bootloader's answers to the use of liballoc.
use Prim.Native.String.{String}
use fwp_athix.Prelude.{
  ℕ, ◌+◌, ◌%◌, ◌^◌, ◌≤◌, ◌≡◌, ◌≢◌, refl, subst, ◌∙◌, true, ℤ, some, List, [], ◌∷◌, ◌++◌, All,
  length, arith,
}
use fwp_athix.Outcome.{Outcome}
use fwp_athix.Macros.{page_size, Entry}
use fwp_athix.Cpu.{Registers}
use fwp_athix.Lock.{spinlock_init}
use fwp_athix.Console.Output.{after, IsFormatter}
use fwp_athix.Log.{Build, Line}
use fwp_athix.Log.Message.{Message}
use fwp_athix.Log.Quiet.{FileCall}
use fwp_athix.Console.{Console}
use fwp_athix.Gdt.{Segments, gdt_init}
use fwp_athix.Idt.Init.{Idt, idt_init}
use fwp_athix.Pmm.Spec.{Distinct}
use fwp_athix.Pmm.Init.{Physical, stack_size, locate}
use fwp_athix.Pmm.Init.Load.{page_count, usable_pages, IsWholeMap}
use fwp_athix.Pmm.Init.Success.{zeroed, carved, Ready, pmm_init-Ready}
use fwp_athix.Vmm.Init.{Sections, KernelMap}
use fwp_athix.Vmm.Init.Plan.{IsBounded}
use fwp_athix.Vmm.Init.Fresh.{IsFree, IsFresh}
use fwp_athix.Vmm.Init.Loops.{AreBounded, init_plan, init_cost}
use fwp_athix.Vmm.Init.Total.{IsBuilt, vmm_init-IsBuilt}
use fwp_athix.Vmm.Translate.{translation}
use fwp_athix.Vmm.Interface.{assign}
use fwp_athix.Boot.{
  Requests, Kernel, LogSources, has_framebuffer, has_memmap, offset_of, kernel_of, share, test_heap,
  olive_entry,
}
use fwp_athix.Boot.Banner.{Text}
use fwp_athix.Boot.Logs.{start_text}
use fwp_athix.Boot.Started.{olive_entry-started}

-- What the bootloader answers, with the memory map `es`, of which entry `j` is the first with room
-- for the page stack: the usable pages that are left end with `root`, are distinct and in the
-- direct map, and are enough for the page tables and `n` more.
pub record IsBootable (r : Requests) (bounds : Sections) (es : List Entry) (j : ℕ) (xs : List ℕ)
    (root n : ℕ) : Type 0 where
  pub supported : r.base_revision_supported ≡ true
  pub framebuffer : has_framebuffer r ≡ true
  pub entries : has_memmap r ≡ true
  pub memmap : r.memmap ≡ some es
  pub offset : offset_of r ≢ 0
  pub base : offset_of r % page_size ≡ 0
  pub whole : IsWholeMap es
  pub few : page_count es ≤ 2 ^ 52
  pub located : locate (stack_size (page_count es)) (length es) es ≡ some j
  pub pages : usable_pages (carved (stack_size (page_count es)) j es) ≡ xs ++ (root ∷ [])
  pub distinct : Distinct (xs ++ (root ∷ []))
  pub frames : All (IsFree (offset_of r)) xs
  pub frame : IsFree (offset_of r) root
  pub virt : (kernel_of r).0 ≢ 0
  pub phys : (kernel_of r).1 ≢ 0
  pub bounded : All IsBounded (carved (stack_size (page_count es)) j es)
  pub sections : AreBounded bounds
  pub enough :
      init_cost
          (offset_of r)
          (carved (stack_size (page_count es)) j es)
          bounds
          (kernel_of r).0
          (kernel_of r).1
        + n
      ≤ length xs

module _ {r : Requests} {bounds : Sections} {es : List Entry} {j : ℕ} {xs : List ℕ} {root n : ℕ}
    (cpuid : ℕ → Registers) (b : IsBootable r bounds es j xs root n) (map : KernelMap)
    (unlocked : map.vmm.map_lock ≡ spinlock_init) where
  abbrev pub loaded : Ready es (offset_of r) j
  loaded = pmm_init-Ready es (offset_of r) j (b.offset) (b.whole) (b.few) (b.located)

  loaded-IsFresh : IsFresh (share (loaded.out) map).vmm xs root
  loaded-IsFresh = record {
    base = rw (loaded.hhdm_offset) (b.base);
    offset = omega (arith, loaded.hhdm_offset, b.offset);
    valid = loaded.valid;
    pages = loaded.pages ∙ b.pages;
    distinct = b.distinct;
    frames = rw (loaded.hhdm_offset) (b.frames);
    frame = rw (loaded.hhdm_offset) (b.frame);
    unlocked = unlocked;
  }

  pub loaded-IsBuilt :
      IsBuilt bounds cpuid
        (loaded.out.memmap)
        (kernel_of r).0
        (kernel_of r).1
        root
        (share (loaded.out) map)
        n
  loaded-IsBuilt =
      vmm_init-IsBuilt bounds cpuid (loaded.out.memmap) (kernel_of r).0 (kernel_of r).1 root
        (share (loaded.out) map) xs n loaded-IsFresh (b.virt) (b.phys)
        (rw (loaded.memmap) (b.bounded)) (b.sections)
        (rw (loaded.memmap, loaded.hhdm_offset) (b.enough))

-- What the start leaves when it comes to its use of liballoc, which is `rest`: the page allocator and
-- the address space as pmm_init and vmm_init promise them; the banner has been printed, and the log
-- of the parts.
pub record Booted {H : Type 0} (r : Requests) (bounds : Sections) (es : List Entry) (j root n : ℕ)
    (outcome : Outcome (Kernel H))
    (rest : Segments → Idt H → Physical → KernelMap → Console → Outcome (Kernel H))
    (str : List (FileCall Message)
      → List (FileCall Message)
      → List (FileCall Message)
      → List (FileCall Message)
      → List ℕ)
    (k : Kernel H) (cpuid : ℕ → Registers) (isr : ℕ → ℕ) : Type 0 where
  pub loaded : Ready es (offset_of r) j
  pub built :
      IsBuilt bounds cpuid loaded.out.memmap
        (kernel_of r).0
        (kernel_of r).1
        root
        (share loaded.out k.map)
        n
  pub space :
      (w : ℕ)
      → translation built.out.vmm root w
        ≡ assign
            (init_plan
              (offset_of r)
              (carved (stack_size (page_count es)) j es)
              bounds
              (kernel_of r).0
              (kernel_of r).1)
            (λ v. 0)
            w
  -- The log calls of gdt_init, idt_init, pmm_init and vmm_init
  pub gdt_log : List (FileCall Message)
  pub idt_log : List (FileCall Message)
  pub pmm_log : List (FileCall Message)
  pub vmm_log : List (FileCall Message)
  pub runs :
      outcome
      ≡ rest gdt_init.1
          (idt_init isr k.idt).1
          loaded.out
          built.out
          (after (str gdt_log idt_log pmm_log vmm_log) k.console.bus k.console.screen)

module _ {H : Type 0} (npf : ℕ → Line Text → ℤ × List ℕ) (build : Build) (file : String)
    (sources : LogSources) (isr : ℕ → ℕ) (bounds : Sections) (cpuid : ℕ → Registers)
    (kmalloc : ℕ → KernelMap → Outcome (ℕ × KernelMap)) (kfree : ℕ → KernelMap → Outcome KernelMap)
    (size : IsFormatter npf) (messages : IsFormatter sources.npf) where
  -- When the bootloader answers all requests, with kernel addresses and an HHDM offset that are not
  -- 0 and a memory map of whole usable pages, distinct and in the direct map, that has room for the
  -- page stack, for the page tables and for `n` pages more, and whose loops end before the end of the
  -- address space, `olive_entry` comes to its use of liballoc, whatever liballoc does: the segments
  -- and the interrupt table are loaded, the page allocator has the usable pages, and CR3 names
  -- an address space that has what the memory map and the sections of the kernel ask for and
  -- nothing else, with `n` pages left. The banner has been printed, with lines of log before and
  -- after it, and the console's lock is free. The console's and the page map's locks are free at the
  -- start and the globals of pmm.c are zero, there is a terminal, and the formatters stay within
  -- their buffer.
  pub olive_entry-Booted :
      {r : Requests} {es : List Entry} {j : ℕ} {xs : List ℕ} {root n : ℕ} (k : Kernel H)
      → IsBootable r bounds es j xs root n
      → k.console.lock ≡ spinlock_init
      → k.map.vmm.map_lock ≡ spinlock_init
      → k.physical ≡ zeroed
      → Booted r bounds es j root n
          (olive_entry npf build file sources true isr bounds cpuid kmalloc kfree r k)
          (test_heap npf build file kmalloc kfree)
          (start_text npf build sources messages)
          k
          cpuid
          isr
  olive_entry-Booted {r} {es} {j} {xs} {root} k b lock map_lock zero =
      let physical = loaded cpuid b (k.map) map_lock in
      let built = loaded-IsBuilt cpuid b (k.map) map_lock in
      record {
        loaded = physical;
        built = built;
        space = λ w.
            subst
              (λ es'.
                translation (built.out.vmm) root w
                ≡ assign (init_plan (offset_of r) es' bounds (kernel_of r).0 (kernel_of r).1)
                    (λ v. 0) w)
              (physical.memmap) (rw⁻¹ (physical.hhdm_offset) (built.space w));
        gdt_log = _;
        idt_log = _;
        pmm_log = _;
        vmm_log = _;
        runs =
            olive_entry-started npf build file sources messages true isr bounds cpuid kmalloc kfree
              size r k (physical.out) (built.out) lock (b.supported) (b.framebuffer) refl
              (b.entries) (b.offset) (rw (b.memmap, zero) (physical.runs)) (b.virt) (b.phys)
              (built.runs);
      }
