-- ===== src/Boot/Started.antt =====
-- When `olive_entry` of olive/src/olive.c halts, and what it leaves when it does not.
use Prim.Native.String.{String}
use fwp_athix.Prelude.{
  ℕ, ◌≡◌, ◌≢◌, refl, ap, ◌∙◌, Bool, true, false, not, ◌&&◌, ℤ, List, ◌++◌, ◌==◌, Bool-cases, inl,
  inr, ne→==,
}
use fwp_athix.Outcome.{Outcome, returned, halt, ◌>>=◌}
use fwp_athix.Cpu.{Registers}
use fwp_athix.Lock.{spinlock_init}
use fwp_athix.Ports.{Bus}
use fwp_athix.Console.Output.{ready, after, after-append, sent, IsFormatter}
use fwp_athix.Log.{Build, Line, text, fatal}
use fwp_athix.Log.Lines.{log-ready}
use fwp_athix.Boot.Banner.{Text, message, banner_text, banner-Prints}
use fwp_athix.Log.Quiet.{printed}
use fwp_athix.Gdt.{gdt_init}
use fwp_athix.Idt.Init.{idt_init}
use fwp_athix.Pmm.Init.{Physical, pmm_init}
use fwp_athix.Vmm.Init.{Sections, KernelMap, vmm_init}
use fwp_athix.Boot.{
  Requests, Kernel, LogSources, has_framebuffer, has_memmap, offset_of, kernel_of, share, check,
  test_heap, olive_entry,
}
use fwp_athix.Boot.Logs.{gdt_log, idt_log, pmm_log, vmm_log, start_text}

halts : {A B : Type 0} {o : Outcome A} (g : A → Outcome B) → o ≡ halt → (o >>= g) ≡ halt
halts g e = ap (λ o. o >>= g) e

module _ (npf : ℕ → Line Text → ℤ × List ℕ) (build : Build) (file : String)
    (size : IsFormatter npf) where
  -- With the lock free, the message is printed, and the kernel halts.
  check-failed :
      (msg : String) (bus : Bus) (screen : List ℕ)
      → check npf build file false msg (ready bus screen) ≡ halt
  unfolding check fatal
  check-failed msg bus screen =
      ap (λ o. o >>= (λ c. halt))
        (log-ready npf build file size "FATAL" (text (message msg)) bus screen)

module _ {H : Type 0} (npf : ℕ → Line Text → ℤ × List ℕ) (build : Build) (file : String)
    (sources : LogSources) (messages : IsFormatter sources.npf) (terminal : Bool) (isr : ℕ → ℕ)
    (bounds : Sections) (cpuid : ℕ → Registers) (kmalloc : ℕ → KernelMap → Outcome (ℕ × KernelMap))
    (kfree : ℕ → KernelMap → Outcome KernelMap) (size : IsFormatter npf) where
  -- With the lock of the console free and formatters that stay within their buffer, the kernel
  -- halts unless the base revision is supported, there is a
  -- framebuffer and a terminal on it, the memory map has an entry and the HHDM offset is not 0.
  pub olive_entry-refused :
      (r : Requests) (k : Kernel H)
      → k.console.lock ≡ spinlock_init
      → (r.base_revision_supported
          && has_framebuffer r
          && terminal
          && has_memmap r
          && not (offset_of r == 0))
        ≡ false
      → olive_entry npf build file sources terminal isr bounds cpuid kmalloc kfree r k ≡ halt
  unfolding olive_entry gdt_init idt_init
  olive_entry-refused r k unlocked missing =
      let bus0 = k.console.bus in
      let screen0 = k.console.screen in
      let out = printed sources.npf build messages in
      let first = gdt_log build sources messages in
      let bus1 = bus0 ++ sent (out first.lines) in
      let screen1 = screen0 ++ (out first.lines) in
      let second = idt_log build sources messages isr k.idt in
      let bus = bus1 ++ sent (out second.lines) in
      let screen = screen1 ++ (out second.lines) in
      let failed = λ (msg : String).
        check-failed npf build file size msg (bus ++ sent (banner_text npf build))
          (screen ++ banner_text npf build) in
      elim (Bool-cases (r.base_revision_supported)) [
        | inr off ↦ rw (off) refl
        | inl on1 ↦ elim (Bool-cases (has_framebuffer r)) [
          | inr off ↦ rw (on1, off) refl
          | inl on2 ↦ elim (Bool-cases terminal) [
            | inr off ↦ rw (on1, on2, off) refl
            | inl on3 ↦ elim (Bool-cases (has_memmap r)) [
              | inr off ↦
                  rw
                    (
                      on1,
                      on2,
                      on3,
                      off,
                      unlocked,
                      first.runs bus0 screen0,
                      second.runs bus1 screen1,
                      (banner-Prints npf size build).runs bus screen,
                    )
                    (halts _ (failed "No memory map available\n"))
              | inl on4 ↦ elim (Bool-cases (not (offset_of r == 0))) [
                | inr off ↦
                    rw
                      (
                        on1,
                        on2,
                        on3,
                        on4,
                        off,
                        unlocked,
                        first.runs bus0 screen0,
                        second.runs bus1 screen1,
                        (banner-Prints npf size build).runs bus screen,
                      )
                      (halts _ (failed "No HHDM offset available\n"))
                | inl on5 ↦ cc (rw (on1, on2, on3, on4, on5) at missing)
              ]
            ]
          ]
        ]
      ]

  -- With the lock of the console free and formatters that stay within their buffer, when the
  -- bootloader has answered all requests and no initialiser fails, the kernel comes to its use of
  -- liballoc, in the state that they leave, with the lock free, and has printed the banner, with the
  -- log of the initialisers before and after it.
  pub olive_entry-started :
      (r : Requests) (k : Kernel H) (physical : Physical) (m1 : KernelMap)
      → k.console.lock ≡ spinlock_init
      → r.base_revision_supported ≡ true
      → has_framebuffer r ≡ true
      → terminal ≡ true
      → has_memmap r ≡ true
      → offset_of r ≢ 0
      → pmm_init r.memmap (offset_of r) k.physical ≡ returned (0, physical)
      → (kernel_of r).0 ≢ 0
      → (kernel_of r).1 ≢ 0
      → vmm_init bounds cpuid physical.memmap (kernel_of r).0 (kernel_of r).1 (share physical k.map)
        ≡ returned (0, m1)
      → olive_entry npf build file sources terminal isr bounds cpuid kmalloc kfree r k
        ≡ test_heap npf build file kmalloc kfree gdt_init.1 (idt_init isr k.idt).1 physical m1 (
            after
              (start_text npf build sources messages
                (gdt_log build sources messages).lines
                (idt_log build sources messages isr k.idt).lines
                (pmm_log build sources messages r.memmap (offset_of r) k.physical).lines
                (vmm_log build sources messages bounds cpuid physical.memmap
                  (kernel_of r).0
                  (kernel_of r).1
                  (share physical k.map)).lines)
              k.console.bus
              k.console.screen)
  unfolding olive_entry gdt_init idt_init check
  olive_entry-started r k physical m1 unlocked on1 on2 on3 on4 on5 pmm v p vmm =
      let bus0 = k.console.bus in
      let screen0 = k.console.screen in
      let out = printed sources.npf build messages in
      let first = gdt_log build sources messages in
      let bus1 = bus0 ++ sent (out first.lines) in
      let screen1 = screen0 ++ (out first.lines) in
      let second = idt_log build sources messages isr k.idt in
      let bus2 = bus1 ++ sent (out second.lines) in
      let screen2 = screen1 ++ (out second.lines) in
      let str = banner_text npf build in
      let bus3 = bus2 ++ sent str in
      let screen3 = screen2 ++ str in
      let third = pmm_log build sources messages r.memmap (offset_of r) k.physical in
      let bus4 = bus3 ++ sent (out third.lines) in
      let screen4 = screen3 ++ (out third.lines) in
      let fourth =
        vmm_log build sources messages bounds cpuid physical.memmap (kernel_of r).0 (kernel_of r).1
          (share physical k.map) in
      rw
        (
          on1,
          on2,
          on3,
          on4,
          unlocked,
          first.runs bus0 screen0,
          second.runs bus1 screen1,
          (banner-Prints npf size build).runs bus2 screen2,
          ne→== (offset_of r) 0 on5,
          third.runs bus3 screen3,
          pmm,
          ne→== _ 0 v,
          ne→== _ 0 p,
          fourth.runs bus4 screen4,
          vmm,
        )
        (ap (test_heap npf build file kmalloc kfree gdt_init.1 (idt_init isr k.idt).1 physical m1) (
          after-append (out third.lines) (out fourth.lines) bus3 screen3
          ∙ after-append str ((out third.lines) ++ (out fourth.lines)) bus2 screen2
          ∙ after-append (out second.lines) (str ++ ((out third.lines) ++ (out fourth.lines))) bus1
              screen1
          ∙ after-append (out first.lines)
              ((out second.lines) ++ (str ++ ((out third.lines) ++ (out fourth.lines)))) bus0
              screen0))
