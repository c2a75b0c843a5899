-- ===== src/Idt/Interface.antt =====
-- The declarations of olive/include/sys/idt.h as the kernel uses them.
use fwp_athix.Prelude.{ℕ, ◌^◌, ◌<◌, ◌≡◌, ◌≢◌, Option, none, some, List, ℤ, length, get_or}
use fwp_athix.Outcome.{Outcome, returned}
use fwp_athix.Idt.Gate.{IdtEntry, target}
use fwp_athix.Idt.Init.{IdtPointer, no_gate}
use fwp_athix.Idt.Registry.{Registry, update}

-- The address that an interrupt with vector `v` goes to.
abbrev pub stub_at : List IdtEntry → ℕ → ℕ
stub_at es v = target (get_or es v no_gate)

-- `IsSound s` says that the state `s` is one that the functions work on, `handler s` is the registry
-- of IRQ handlers, `H` stands for `idt_handler_t` and `isr` for the stubs.
pub record Interrupts (H : Type 0) (isr : ℕ → ℕ) : Type 1 where
  pub State : Type 0
  pub IsSound : State → Type 0
  pub handler : State → Registry H
  pub loaded : State → Option IdtPointer
  pub idt_entries : State → List IdtEntry
  pub idt_init : State → Outcome (ℕ × State)
  pub idt_load : IdtPointer → State → State
  pub idt_set_gate : List IdtEntry → ℕ → ℕ → ℕ → ℕ → State → Outcome (List IdtEntry × State)
  pub idt_irq_register : ℤ → H → State → Outcome State
  pub idt_irq_deregister : ℤ → State → Outcome State
  pub starts :
      (s : State)
      → IsSound s
      → (t : State) × (idt_init s ≡ returned (0, t))
        × IsSound t
        × ((i : ℕ) → i < 16 → handler t i ≡ none)
        × (loaded t ≡ some (record { limit = 4095; base = idt_entries t }))
        × ((v : ℕ) → v < 48 → isr v < 2 ^ 64 → stub_at (idt_entries t) v ≡ isr v)
  pub loads : (p : IdtPointer) (s : State) → loaded (idt_load p s) ≡ some p
  pub sets :
      (es : List IdtEntry) (num base sel flags : ℕ) (s : State)
      → IsSound s
      → num < length es
      → base < 2 ^ 64
      → (fs : List IdtEntry) × (t : State) × (idt_set_gate es num base sel flags s
          ≡ returned (fs, t))
        × IsSound t
        × (stub_at fs num ≡ base)
        × ((v : ℕ) → v ≢ num → stub_at fs v ≡ stub_at es v)
  pub registers :
      (irq : ℤ) (h : H) (s : State)
      → IsSound s
      → (t : State) × (idt_irq_register irq h s ≡ returned t)
        × IsSound t
        × (idt_entries t ≡ idt_entries s)
        × (loaded t ≡ loaded s)
        × ((i : ℕ) → i < 16 → handler t i ≡ update irq (some h) (handler s) i)
  pub deregisters :
      (irq : ℤ) (s : State)
      → IsSound s
      → (t : State) × (idt_irq_deregister irq s ≡ returned t)
        × IsSound t
        × (idt_entries t ≡ idt_entries s)
        × (loaded t ≡ loaded s)
        × ((i : ℕ) → i < 16 → handler t i ≡ update irq none (handler s) i)
