-- ===== src/Idt/Tables.antt =====
-- olive/src/sys/idt.c with its log, on a console that can print, as the interrupt tables of
-- olive/include/sys/idt.h.
use Prim.Native.String.{String}
use fwp_athix.Prelude.{
  ℕ, ◌^◌, ◌<◌, ◌≡◌, ◌≢◌, refl, sym, ap, ◌∙◌, arith, none, some, List, ℤ, length, get_or,
  get_or-set_self, get_or-set_ne,
}
use fwp_athix.Idt.Gate.{IdtEntry, gate, idt_set_gate, target, target-gate}
use fwp_athix.Idt.Init.{
  Idt, idt_init, idt_load, idt_irq_register, idt_irq_deregister, no_gate, IsSized, idt_init_lem,
}
use fwp_athix.Idt.Registry.{handlers_of, store_handler-Stored}
use fwp_athix.Idt.Interface.{Interrupts, stub_at}
use fwp_athix.Idt.Logged.{
  set_gate_on_console, init_idt_on_console, register_on_console, deregister_on_console,
  set_gate-Logged, init_idt-Logged, register-Logged, deregister-Logged,
}
use fwp_athix.Outcome.{returned, ◌>>=◌}
use fwp_athix.Console.{Console}
use fwp_athix.Console.Output.{IsFormatter, IsReady}
use fwp_athix.Log.{Build, Line}
use fwp_athix.Log.Quiet.{Logged-IsReady}
use fwp_athix.Log.Message.{Message}

pub init-starts :
    {H : Type 0} (isr : ℕ → ℕ) (s : Idt H)
    → IsSized s
    → ((i : ℕ) → i < 16 → handlers_of (idt_init isr s).1 i ≡ none)
      × ((idt_init isr s).1.loaded
          ≡ some (record { limit = 4095; base = (idt_init isr s).1.entries }))
      × IsSized (idt_init isr s).1
init-starts isr s z =
    let (gates, empty, table, sized) = idt_init_lem isr s z in (empty, table, sized)

pub init-stubs :
    {H : Type 0} (isr : ℕ → ℕ) (s : Idt H) (v : ℕ)
    → IsSized s
    → v < 48
    → isr v < 2 ^ 64
    → stub_at (idt_init isr s).1.entries v ≡ isr v
init-stubs isr s v z lt wide =
    let at : get_or (idt_init isr s).1.entries v no_gate ≡ gate (isr v) 0x08 0x8E =
      ground (arith, (idt_init_lem isr s z).0 v) in
    ap target at ∙ (target-gate (isr v) 0x08 0x8E wide).0

pub set_gate-sets :
    (es : List IdtEntry) (num base sel flags : ℕ)
    → num < length es
    → base < 2 ^ 64
    → (stub_at (idt_set_gate es num base sel flags) num ≡ base)
      × ((v : ℕ) → v ≢ num → stub_at (idt_set_gate es num base sel flags) v ≡ stub_at es v)
unfolding idt_set_gate
set_gate-sets es num base sel flags lt wide = (
  ap target (get_or-set_self es num (gate base sel flags) no_gate lt)
      ∙ (target-gate base sel flags wide).0,
  λ v ne. ap target (get_or-set_ne es num v (gate base sel flags) no_gate (λ e. ne (sym e))),
)

-- The functions of idt.c, on arrays of their declared sizes; `address` is `&idt_entries`.
module _ (npf : ℕ → Line Message → ℤ × List ℕ) (build : Build) (file : String)
    (size : IsFormatter npf) (address : ℕ) where
  unfoldable pub olive_interrupts : {H : Type 0} → (isr : ℕ → ℕ) → Interrupts H isr
  unfolding idt_irq_register idt_irq_deregister idt_init
  olive_interrupts {H} isr = record {
    State = Idt H × Console;
    IsSound = λ s. IsSized s.0 × IsReady s.1;
    handler = λ s. handlers_of s.0;
    loaded = λ s. s.0.loaded;
    idt_entries = λ s. s.0.entries;
    idt_init = λ s.
        init_idt_on_console npf build file address isr s.0 s.1
        >>= (λ r. returned (r.0.0, (r.0.1, r.1)));
    idt_load = λ p s. (idt_load p s.0, s.1);
    idt_set_gate = λ es num base sel flags s.
        set_gate_on_console npf build file es num base sel flags s.1
        >>= (λ r. returned (r.0, (s.0, r.1)));
    idt_irq_register = λ irq h s. register_on_console npf build file irq h s.0 s.1;
    idt_irq_deregister = λ irq s. deregister_on_console npf build file irq s.0 s.1;
    starts = λ s z.
        let (empty, table, sized) = init-starts isr s.0 z.0 in
        let (d, runs, ready) =
          Logged-IsReady npf build size (init_idt_on_console npf build file address isr s.0) s.1
            (init_idt-Logged npf build file size address isr s.0) refl z.1 in
        (
          ((idt_init isr s.0).1, d),
          rw (runs) refl,
          (sized, ready),
          empty,
          table,
          λ v. init-stubs isr s.0 v z.0,
        );
    loads = λ p s. refl;
    sets = λ es num base sel flags s z lt wide.
        let (at, others) = set_gate-sets es num base sel flags lt wide in
        let (d, runs, ready) =
          Logged-IsReady npf build size (set_gate_on_console npf build file es num base sel flags)
            s.1 (set_gate-Logged npf build file size es num base sel flags) refl z.1 in
        (idt_set_gate es num base sel flags, (s.0, d), rw (runs) refl, (z.0, ready), at, others);
    registers = λ irq h s z.
        let one = store_handler-Stored irq (some h) s.0 z.0 in
        let (d, runs, ready) =
          Logged-IsReady npf build size (register_on_console npf build file irq h s.0) s.1
            (register-Logged npf build file size irq h s.0) one.runs z.1 in
        ((one.out, d), runs, (one.sized, ready), one.entries, one.loaded, one.registry);
    deregisters = λ irq s z.
        let one = store_handler-Stored irq none s.0 z.0 in
        let (d, runs, ready) =
          Logged-IsReady npf build size (deregister_on_console npf build file irq s.0) s.1
            (deregister-Logged npf build file size irq s.0) one.runs z.1 in
        ((one.out, d), runs, (one.sized, ready), one.entries, one.loaded, one.registry);
  }
