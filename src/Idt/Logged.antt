-- ===== src/Idt/Logged.antt =====
-- `idt_set_gate`, `idt_init`, `idt_irq_register` and `idt_irq_deregister` of olive/src/sys/idt.c with
-- their log, on the console.
use Prim.Native.String.{String}
use fwp_athix.Prelude.{ℕ, zero, suc, ◌+◌, ◌-◌, ◌*◌, ℤ, Option, none, some, List, [], ◌∷◌}
use fwp_athix.Outcome.{Outcome, returned, ◌>>=◌}
use fwp_athix.Console.{Console}
use fwp_athix.Console.Output.{IsFormatter}
use fwp_athix.Log.{Build, Line, error_level, debug_level, trace_level}
use fwp_athix.Log.Series.{LogCall, log_all}
use fwp_athix.Log.Quiet.{Logged, Logged-returned, Logged-silent, Logged-bind, Logged-log}
use fwp_athix.Log.Message.{Message, number, integer, word, call}
use fwp_athix.Idt.Exceptions.{mnemonic_of, message_of}
use fwp_athix.Idt.Gate.{IdtEntry, idt_set_gate}
use fwp_athix.Idt.Init.{
  Idt, idt_entry_count, irq_base, irq_count, clear_handlers, set_gates, idt_load, idt_init,
  irq_index, idt_irq_register, idt_irq_deregister,
}

abbrev pub gate_lines : ℕ → ℕ → ℕ → ℕ → List (LogCall Message)
gate_lines num base sel flags =
    call trace_level "Set IDT entry %d: base=0x%lx, selector=0x%x, flags=0x%x\n"
      (number num ∷ number base ∷ number sel ∷ number flags ∷ [])
    ∷ []

unfoldable pub exception_lines : ℕ → List (LogCall Message)
unfolding mnemonic_of message_of
exception_lines i =
    call trace_level "Initialized IDT entry for exception %d (%s): %s\n"
      (number i ∷ word (mnemonic_of i) ∷ word (message_of i) ∷ [])
    ∷ []

abbrev pub irq_lines : ℕ → List (LogCall Message)
irq_lines i =
    call trace_level "Initialized IDT entry for IRQ %d\n" (number (i - irq_base) ∷ []) ∷ []

abbrev pub loaded_lines : ℕ → ℕ → List (LogCall Message)
loaded_lines base limit =
    call debug_level "IDT loaded with base=0x%lx, limit=%u\n" (number base ∷ number limit ∷ []) ∷ []

-- What a call with the IRQ `irq` logs: `done` when it is in range, else `invalid`.
abbrev pub range_lines : Option ℕ → ℤ → String → String → List (LogCall Message)
range_lines none irq done invalid = call error_level invalid (integer irq ∷ []) ∷ []
range_lines (some i) irq done invalid = call debug_level done (integer irq ∷ []) ∷ []

module _ (npf : ℕ → Line Message → ℤ × List ℕ) (build : Build) (file : String) where
  unfoldable pub set_gate_on_console :
      List IdtEntry → ℕ → ℕ → ℕ → ℕ → Console → Outcome (List IdtEntry × Console)
  unfolding idt_set_gate log_all
  set_gate_on_console es num base sel flags c = do
    c' ← log_all npf build file (gate_lines num base sel flags) c
    returned (idt_set_gate es num base sel flags, c')

  -- A loop over gates, whose round for the gate `i` ends with the log `lines i`.
  unfoldable pub gates_on_console :
      (ℕ → List (LogCall Message))
      → (ℕ → ℕ)
      → ℕ
      → ℕ
      → List IdtEntry
      → Console
      → Outcome (List IdtEntry × Console)
  unfolding set_gate_on_console log_all
  gates_on_console lines isr_table i zero es c = returned (es, c)
  gates_on_console lines isr_table i (suc left) es c = do
    (fs, c1) ← set_gate_on_console es i (isr_table i) 0x08 0x8E c
    c2 ← log_all npf build file (lines i) c1
    gates_on_console lines isr_table (i + 1) left fs c2

  -- `address` is `&idt_entries`.
  unfoldable pub init_idt_on_console :
      {H : Type 0} → ℕ → (ℕ → ℕ) → Idt H → Console → Outcome ((ℕ × Idt H) × Console)
  unfolding gates_on_console clear_handlers exception_lines log_all
  init_idt_on_console address isr_table s c = do
    let limit = 16 * idt_entry_count - 1
    let handlers = clear_handlers 0 irq_count s.irq_handlers
    (exceptions, c1) ← gates_on_console exception_lines isr_table 0 32 s.entries c
    (entries, c2) ← gates_on_console irq_lines isr_table irq_base irq_count exceptions c1
    let t =
        idt_load (record { limit = limit; base = entries })
          (record s { entries = entries; limit = limit; irq_handlers = handlers })
    c3 ← log_all npf build file (loaded_lines address limit) c2
    returned ((0, t), c3)

  unfoldable pub register_on_console :
      {H : Type 0} → ℤ → H → Idt H → Console → Outcome (Idt H × Console)
  unfolding idt_irq_register log_all
  register_on_console irq handler s c = do
    c' ←
        log_all npf build file
          (range_lines (irq_index irq) irq "Registered IRQ handler for IRQ %d\n"
            "Attempted to register invalid IRQ: %d\n")
          c
    t ← idt_irq_register irq handler s
    returned (t, c')

  unfoldable pub deregister_on_console :
      {H : Type 0} → ℤ → Idt H → Console → Outcome (Idt H × Console)
  unfolding idt_irq_deregister log_all
  deregister_on_console irq s c = do
    c' ←
        log_all npf build file
          (range_lines (irq_index irq) irq "Deregistered IRQ handler for IRQ %d\n"
            "Attempted to deregister invalid IRQ: %d\n")
          c
    t ← idt_irq_deregister irq s
    returned (t, c')

module _ (npf : ℕ → Line Message → ℤ × List ℕ) (build : Build) (file : String)
    (size : IsFormatter npf) where
  pub set_gate-Logged :
      (es : List IdtEntry) (num base sel flags : ℕ)
      → Logged npf build size
          (returned (idt_set_gate es num base sel flags))
          (set_gate_on_console npf build file es num base sel flags)
  unfolding set_gate_on_console
  set_gate-Logged es num base sel flags =
      Logged-log npf build size file (gate_lines num base sel flags)
        (Logged-returned npf build size _)

  gates-Logged :
      (lines : ℕ → List (LogCall Message)) (isr : ℕ → ℕ) (i n : ℕ) (es : List IdtEntry)
      → Logged npf build size
          (returned (set_gates isr i n es))
          (gates_on_console npf build file lines isr i n es)
  unfolding gates_on_console set_gates
  gates-Logged lines isr i zero es = Logged-returned npf build size es
  gates-Logged lines isr i (suc n) es =
      Logged-bind npf build size {f = λ fs. returned (set_gates isr (i + 1) n fs)} _
        (set_gate-Logged es i (isr i) 0x08 0x8E)
        (λ fs. Logged-log npf build size file (lines i) (gates-Logged lines isr (i + 1) n fs))

  pub init_idt-Logged :
      {H : Type 0} (address : ℕ) (isr : ℕ → ℕ) (s : Idt H)
      → Logged npf build size
          (returned (idt_init isr s))
          (init_idt_on_console npf build file address isr s)
  unfolding init_idt_on_console idt_init
  init_idt-Logged {H} address isr s =
      Logged-bind npf build size
        {f = λ exceptions. returned (set_gates isr irq_base irq_count exceptions) >>= ended} _
        (gates-Logged exception_lines isr 0 32 s.entries)
        (λ exceptions.
          Logged-bind npf build size {f = ended} _
            (gates-Logged irq_lines isr irq_base irq_count exceptions)
            (λ entries.
              Logged-log npf build size file (loaded_lines address (16 * idt_entry_count - 1))
                (Logged-returned npf build size _)))
    where
      ended : List IdtEntry → Outcome (ℕ × Idt H)
      ended entries = returned (
        0,
        idt_load (record { limit = 16 * idt_entry_count - 1; base = entries })
            (record s {
              entries = entries;
              limit = 16 * idt_entry_count - 1;
              irq_handlers = clear_handlers 0 irq_count s.irq_handlers;
            }),
      )

  pub register-Logged :
      {H : Type 0} (irq : ℤ) (h : H) (s : Idt H)
      → Logged npf build size
          (idt_irq_register irq h s)
          (register_on_console npf build file irq h s)
  unfolding register_on_console
  register-Logged irq h s =
      Logged-log npf build size file
        (range_lines (irq_index irq) irq "Registered IRQ handler for IRQ %d\n"
          "Attempted to register invalid IRQ: %d\n")
        (Logged-silent npf build size (idt_irq_register irq h s))

  pub deregister-Logged :
      {H : Type 0} (irq : ℤ) (s : Idt H)
      → Logged npf build size
          (idt_irq_deregister irq s)
          (deregister_on_console npf build file irq s)
  unfolding deregister_on_console
  deregister-Logged irq s =
      Logged-log npf build size file
        (range_lines (irq_index irq) irq "Deregistered IRQ handler for IRQ %d\n"
          "Attempted to deregister invalid IRQ: %d\n")
        (Logged-silent npf build size (idt_irq_deregister irq s))
