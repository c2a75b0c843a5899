-- ===== src/Tests/Interrupts.antt =====
-- The interrupts of olive/src/sys/idt.c and the segments of gdt.c, on empty tables. A handler is a
-- number here, and disables itself.
use fwp_athix.Prelude.{
  ℤ, List, [], ◌∷◌, negsuc, ℕ, ◌*◌, ◌<◌, ◌≡◌, refl, true, Option, none, some, ◌++◌, arith,
  length-replicate, replicate, pos, get_or, if◌then◌else◌, ltb, ◌==◌,
}
use fwp_athix.Outcome.{Outcome, returned, hang}
use fwp_athix.Idt.Exceptions.{exception_info, is_fatal}
use fwp_athix.Idt.Frames.{IntFrame, Chain, last, link}
use fwp_athix.Console.{Console}
use fwp_athix.Console.Output.{ready, after, IsFormatter}
use fwp_athix.Log.{Line, default_build}
use fwp_athix.Log.Series.{texts_of}
use fwp_athix.Log.Message.{Message}
use fwp_athix.Idt.Print.{all_lines, halted, handle_on_console}
use fwp_athix.Idt.Printed.{handle_on_console-fatal, handle_on_console-locked}
use fwp_athix.Idt.Gate.{gate}
use fwp_athix.Idt.Numbers.{numbers_of, dumped}
use fwp_athix.Idt.Handle.{detail_of, report, handle_irq, idt_handler}
use fwp_athix.Idt.Registry.{Call, register, deregister, make_calls, idt_handler-Registry}
use fwp_athix.Idt.Dispatch.{trace_of}
use fwp_athix.Idt.Init.{Idt, no_gate, IsSized, idt_init, idt_init_lem, irq_count}
use fwp_athix.Gdt.{Names, IsKernelCode, IsKernelData, gdt_init, gate-IsKernelCode}

abbrev idle : Idt ℕ
idle = record {
  entries = replicate 256 no_gate;
  limit = 0;
  irq_handlers = replicate 16 none;
  loaded = none;
}

idle-IsSized : IsSized idle
idle-IsSized = record {
  entries = length-replicate 256 no_gate;
  handlers = length-replicate {A = Option ℕ} 16 none;
}

abbrev invoke : ℕ → IntFrame → Idt ℕ → Outcome (Idt ℕ)
invoke h frame s = returned (record s { irq_handlers = [] })

-- Interrupt `vector`, with error code 3
abbrev interrupt : ℕ → IntFrame
interrupt vector = record {
  ds = 0;
  cr2 = 0;
  cr3 = 0;
  r15 = 0;
  r14 = 0;
  r13 = 0;
  r12 = 0;
  r11 = 0;
  r10 = 0;
  r9 = 0;
  r8 = 0;
  rbp = 0x100;
  rdi = 0;
  rsi = 0;
  rdx = 0;
  rcx = 0;
  rbx = 0;
  rax = 0;
  vector = vector;
  err = 3;
  rip = 0x4000;
  cs = 8;
  rflags = 2;
  rsp = 0x80;
  ss = 0x10;
}

-- A frame at 0x100 whose caller's frame at 0x200 is the last one
abbrev memory : ℕ → ℕ
memory a = if a == 0x100 then 0x200 else if a == 0x108 then 0x4444 else 0

chain : Chain memory 0x100 (0x4444 ∷ [])
chain = link 0x100 [] (omega arith) (omega arith) (last 0x200 refl)

idt_init_lem_example :
    let t = (idt_init (λ v. v * 16) idle).1 in
    ((v : ℕ)
      → get_or t.entries v no_gate
        ≡ (if ltb v 48 then gate (v * 16) 0x08 0x8E else get_or idle.entries v no_gate))
    × ((i : ℕ) → i < irq_count → get_or t.irq_handlers i none ≡ none)
    × (t.loaded ≡ some (record { limit = 4095; base = t.entries }))
    × IsSized t
idt_init_lem_example = idt_init_lem (λ v. v * 16) idle idle-IsSized

page_fault : is_fatal 14 ≡ true
unfolding is_fatal exception_info
page_fault = refl

gate-IsKernelCode_example :
    let g = gdt_init.1 in
    let selector = (get_or (idt_init (λ v. v * 16) idle).1.entries 14 no_gate).selector in
    (selector ≡ g.cs) × Names g selector IsKernelCode × Names g g.data_segments IsKernelData
gate-IsKernelCode_example = gate-IsKernelCode (λ v. v * 16) idle 14 idle-IsSized (omega arith)

-- IRQ 1 gets a handler, a number that is no IRQ is tried, and IRQ 1 gets another handler.
abbrev calls : List (Call ℕ)
calls = register (pos 1) 7 ∷ register (pos 16) 8 ∷ deregister (negsuc 0) ∷ register (pos 1) 9 ∷ []

idt_handler-Registry_example :
    (t : Idt ℕ) × (make_calls calls idle ≡ returned t)
    × (idt_handler invoke 0 memory 0x100 (interrupt 33) t
        ≡ handle_irq invoke 1 (some 9) (interrupt 33) t)
idt_handler-Registry_example =
    idt_handler-Registry memory 0x100 invoke 0 1 calls (interrupt 33) idle idle-IsSized
      (omega arith) refl

-- A formatter that prints a `*` for each line
abbrev star : ℕ → Line Message → ℤ × List ℕ
star size line = (pos 1, replicate 1024 42)

star-IsFormatter : IsFormatter star
star-IsFormatter f = length-replicate {A = ℕ} 1024 42

handle_on_console-fatal_example :
    let calls = all_lines (report (interrupt 14) ++ trace_of memory 0x100 0x4000 (0x4444 ∷ [])) in
    (handle_on_console star default_build "src/sys/idt.c" invoke 1 memory 0x100
        (interrupt 14)
        idle
        (ready [] [])
      ≡ returned (
          halted
            (after (texts_of star default_build "src/sys/idt.c" star-IsFormatter calls) [] [])))
    × (numbers_of calls ≡ dumped (interrupt 14) ++ (3 ∷ 0x4000 ∷ 0 ∷ 0x4444 ∷ []))
unfolding detail_of
handle_on_console-fatal_example =
    handle_on_console-fatal star default_build "src/sys/idt.c" invoke 1 memory 0x100
      star-IsFormatter (0x4444 ∷ []) (interrupt 14) idle [] [] (omega arith) page_fault chain
      (omega arith)

-- The console while another call of `printf` has its lock.
abbrev printing : Console
printing = record { lock = record { locked = 1 }; ft_ctx = true; bus = []; screen = [] }

handle_on_console-locked_example :
    handle_on_console star default_build "src/sys/idt.c" invoke 1 memory 0x100
      (interrupt 14)
      idle
      printing
    ≡ hang
handle_on_console-locked_example =
    handle_on_console-locked star default_build "src/sys/idt.c" invoke 1 memory 0x100 (interrupt 14)
      idle printing (omega arith) (omega arith) (omega arith)
