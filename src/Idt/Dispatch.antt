-- ===== src/Idt/Dispatch.antt =====
-- Who gets an interrupt: proofs about `idt_handler`, `idt_irq_register` and `idt_irq_deregister`.
use fwp_athix.Prelude.{
  ℕ, ◌+◌, ◌-◌, ◌≤◌, ◌<◌, ◌≡◌, refl, ap, true, false, ◌&&◌, ◌⊎◌, not, none, some, List, [], ◌∷◌,
  ◌++◌, ◌==◌, if◌then◌else◌, arith, length, get_or, Bool-cases, inl, inr,
}
use fwp_athix.Outcome.{Outcome, returned, halt}
use fwp_athix.Idt.Exceptions.{is_fatal}
use fwp_athix.Idt.Frames.{
  IntFrame, Event, trace_start, no_trace, trace_end, caller_lines, _backtrace, Chain, trace_lines,
  trace_frames-Chain,
}
use fwp_athix.Idt.Handle.{report, handle_exception, handle_irq, idt_handler}
use fwp_athix.Idt.Init.{Idt}

-- What `_backtrace` prints for the frames with the return addresses `rips`.
unfoldable pub trace_of : (ℕ → ℕ) → ℕ → ℕ → List ℕ → List Event
trace_of mem rbp rip rips =
    if not (rbp == 0) && (mem rbp == 0)
    then trace_start ∷ no_trace ∷ []
    else (trace_start ∷ caller_lines rip) ++ (trace_lines 0 rips ++ (trace_end ∷ []))

_backtrace-Chain :
    {mem : ℕ → ℕ} {rbp : ℕ} {rips : List ℕ} (fuel rip : ℕ)
    → Chain mem rbp rips
    → length rips ≤ fuel
    → _backtrace fuel mem rbp rip ≡ some (trace_of mem rbp rip rips)
unfolding _backtrace trace_of
_backtrace-Chain {mem} {rbp} fuel rip c h =
    rw (trace_frames-Chain fuel 0 c h) (elim (Bool-cases (not (rbp == 0) && (mem rbp == 0))) [
      | inl alone ↦ rw (alone) refl
      | inr more ↦ rw (more) refl
    ])

-- A fatal exception is logged with its register dump, the detail of its vector and the whole chain
-- of stack frames, and the processor halts, when the chain ends and the fuel covers its frames.
pub idt_handler-fatal :
    {H : Type 0} (mem : ℕ → ℕ) (rbp : ℕ) (rips : List ℕ)
    (invoke : H → IntFrame → Idt H → Outcome (Idt H)) (fuel : ℕ) (frame : IntFrame) (s : Idt H)
    → frame.vector < 32
    → is_fatal frame.vector ≡ true
    → Chain mem rbp rips
    → length rips ≤ fuel
    → idt_handler invoke fuel mem rbp frame s
      ≡ (report frame ++ trace_of mem rbp frame.rip rips, halt)
unfolding idt_handler handle_exception
idt_handler-fatal mem rbp rips invoke fuel frame s lt fatal c h =
    ground (arith, fatal, _backtrace-Chain fuel frame.rip c h)

-- Every vector outside the IRQs that is no fatal exception leaves the tables as they are and
-- returns to the interrupted code.
idt_handler-returned :
    {H : Type 0} (mem : ℕ → ℕ) (rbp : ℕ) (invoke : H → IntFrame → Idt H → Outcome (Idt H))
    (fuel : ℕ) (frame : IntFrame) (s : Idt H)
    → (frame.vector < 32 → is_fatal frame.vector ≡ false)
    → (frame.vector < 32) ⊎ (48 ≤ frame.vector)
    → (idt_handler invoke fuel mem rbp frame s).1 ≡ returned s
unfolding idt_handler handle_exception
idt_handler-returned mem rbp invoke fuel frame s mild (inl lt) = ground (arith, mild lt)
idt_handler-returned mem rbp invoke fuel frame s mild (inr ge) = ground arith

pub idt_handler-irq :
    {H : Type 0} (mem : ℕ → ℕ) (rbp : ℕ) (invoke : H → IntFrame → Idt H → Outcome (Idt H))
    (fuel i : ℕ) (frame : IntFrame) (s : Idt H)
    → frame.vector ≡ 32 + i
    → i < 16
    → idt_handler invoke fuel mem rbp frame s
      ≡ handle_irq invoke i (get_or s.irq_handlers i none) frame s
unfolding idt_handler
idt_handler-irq mem rbp invoke fuel i frame s at lt =
    let index : frame.vector - 32 ≡ i = omega arith in
    ground (arith, ap (λ k. handle_irq invoke k (get_or s.irq_handlers k none) frame s) index)
