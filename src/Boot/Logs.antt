-- ===== src/Boot/Logs.antt =====
-- What the initialisers that `olive_entry` of olive/src/olive.c calls log.
use fwp_athix.Prelude.{ℕ, ℤ, Option, List, ◌++◌}
use fwp_athix.Outcome.{returned}
use fwp_athix.Cpu.{Registers}
use fwp_athix.Console.Output.{IsFormatter}
use fwp_athix.Log.{Build, Line}
use fwp_athix.Boot.Banner.{Text, banner_text}
use fwp_athix.Log.Message.{Message}
use fwp_athix.Log.Quiet.{FileCall, printed, Logged, Logged-result}
use fwp_athix.Macros.{Entry}
use fwp_athix.Gdt.{gdt_init}
use fwp_athix.Gdt.Logged.{init_gdt_on_console, init_gdt-Logged}
use fwp_athix.Idt.Logged.{init_idt_on_console, init_idt-Logged}
use fwp_athix.Pmm.Init.Logged.{init_on_console, init_on_console-EndsAs}
use fwp_athix.Vmm.Init.Logged.{vmm_init_logged}
use fwp_athix.Vmm.Init.Quiet.{vmm_init-Logged}
use fwp_athix.Idt.Init.{Idt, idt_init}
use fwp_athix.Pmm.Init.{Physical, pmm_init}
use fwp_athix.Vmm.Init.{Sections, KernelMap, vmm_init}
use fwp_athix.Boot.{LogSources}

module _ (build : Build) (sources : LogSources) (messages : IsFormatter sources.npf) where
  abbrev pub gdt_log :
      Logged sources.npf build messages
        (returned gdt_init)
        (init_gdt_on_console sources.npf build sources.gdt_file sources.gdt_entries)
  gdt_log = init_gdt-Logged sources.npf build sources.gdt_file messages sources.gdt_entries

  abbrev pub idt_log :
      {H : Type 0} (isr : ℕ → ℕ) (s : Idt H)
      → Logged sources.npf build messages
          (returned (idt_init isr s))
          (init_idt_on_console sources.npf build sources.idt_file sources.idt_entries isr s)
  idt_log isr s =
      init_idt-Logged sources.npf build sources.idt_file messages sources.idt_entries isr s

  abbrev pub pmm_log :
      (map : Option (List Entry)) (hhdm : ℕ) (s : Physical)
      → Logged sources.npf build messages
          (pmm_init map hhdm s)
          (init_on_console sources.npf build sources.pmm_file map hhdm s)
  pmm_log map hhdm s =
      Logged-result sources.npf build messages sources.pmm_file _ _
        (init_on_console-EndsAs sources.npf build sources.pmm_file messages map hhdm s)

  abbrev pub vmm_log :
      (bounds : Sections) (cpuid : ℕ → Registers) (es : List Entry) (virt phys : ℕ) (k : KernelMap)
      → Logged sources.npf build messages (vmm_init bounds cpuid es virt phys k) (
          vmm_init_logged sources.npf build sources.pmm_file sources.vmm_file bounds cpuid es virt
            phys k)
  vmm_log bounds cpuid es virt phys k =
      vmm_init-Logged sources.npf build sources.pmm_file sources.vmm_file messages bounds cpuid es
        virt phys k

-- What the start prints: the log of gdt_init and idt_init, the banner, the log of pmm_init and vmm_init.
module _ (npf : ℕ → Line Text → ℤ × List ℕ) (build : Build) (sources : LogSources)
    (messages : IsFormatter sources.npf) where
  abbrev pub start_text :
      List (FileCall Message)
      → List (FileCall Message)
      → List (FileCall Message)
      → List (FileCall Message)
      → List ℕ
  start_text gdt idt pmm vmm =
      let out = printed sources.npf build messages in
      out gdt ++ (out idt ++ (banner_text npf build ++ (out pmm ++ out vmm)))
