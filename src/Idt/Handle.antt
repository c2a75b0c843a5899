-- ===== src/Idt/Handle.antt =====
-- `idt_handler` of olive/src/sys/idt.c.
use fwp_athix.Prelude.{
  ℕ, ◌+◌, ◌-◌, Bool, ◌&&◌, not, Option, none, some, List, [], ◌∷◌, ◌++◌, ◌==◌, if◌then◌else◌, leb,
  ltb, get_or, bit_and, ◌>>>◌,
}
use fwp_athix.Outcome.{Outcome, returned, halt, hang}
use fwp_athix.Idt.Exceptions.{is_fatal, message_of}
use fwp_athix.Idt.Frames.{
  IntFrame, SegmentFault, invalid_tss, not_present, stack_segment, protection, control_protection,
  vmm_communication, security, Detail, double_fault, segment, page_fault, alignment, code_only,
  no_detail, Event, received_exception, registers, details, breakpoint, non_fatal, received_irq,
  invoking, executed, no_handler, system_call, unknown_vector, _backtrace,
}
use fwp_athix.Idt.Init.{Idt, irq_base, irq_count}

-- `err & m` as a condition
abbrev pub flag : ℕ → ℕ → Bool
flag err m = not (bit_and err m == 0)

-- The lines that the four faults on a segment selector share.
abbrev pub segment_of : SegmentFault → ℕ → Detail
segment_of fault err = segment fault err (flag err 1) (bit_and (err >>> 3) 0x1FFF) (flag err 4)

-- The `switch` of the fatal exceptions
unfoldable pub detail_of : ℕ → ℕ → Detail
detail_of vector err =
    if vector == 8
    then double_fault
    else if vector == 10
    then segment_of invalid_tss err
    else if vector == 11
    then segment_of not_present err
    else if vector == 12
    then segment_of stack_segment err
    else if vector == 13
    then segment_of protection err
    else if vector == 14
    then page_fault err (flag err 1) (flag err 2) (flag err 4) (flag err 8) (flag err 16)
    else if vector == 17
    then alignment err (flag err 1)
    else if vector == 21
    then code_only control_protection err
    else if vector == 29
    then code_only vmm_communication err
    else if vector == 30
    then code_only security err
    else no_detail

-- The log of a fatal exception, before its trace.
unfoldable pub report : IntFrame → List Event
unfolding detail_of
report frame =
    received_exception frame.vector
    ∷ registers frame
    ∷ details (detail_of frame.vector frame.err)
    ∷ []

-- The trace of a fatal exception, then `hcf`; or a trace that never ends.
abbrev pub traced : {A : Type 0} → List Event → Option (List Event) → List Event × Outcome A
traced es none = (es, hang)
traced es (some fs) = (es ++ fs, halt)

-- A vector below 32
unfoldable pub handle_exception :
    {H : Type 0} → ℕ → (ℕ → ℕ) → ℕ → IntFrame → Idt H → List Event × Outcome (Idt H)
unfolding report _backtrace is_fatal message_of
handle_exception fuel mem rbp frame s =
    if is_fatal frame.vector then traced (report frame) (_backtrace fuel mem rbp frame.rip) else (
      received_exception frame.vector
          ∷ (if frame.vector == 3
              then breakpoint frame.rip
              else non_fatal (message_of frame.vector))
          ∷ [],
      returned s,
    )

-- What is logged once a handler returns.
abbrev pub after_handler : {A : Type 0} → ℕ → Outcome A → List Event × Outcome A
after_handler irq (returned s) = (received_irq irq ∷ invoking irq ∷ executed irq ∷ [], returned s)
after_handler irq o = (received_irq irq ∷ invoking irq ∷ [], o)

-- `irq_handlers[irq](&frame)`, where `invoke` is what a handler does.
unfoldable pub handle_irq :
    {H : Type 0}
    → (H → IntFrame → Idt H → Outcome (Idt H))
    → ℕ
    → Option H
    → IntFrame
    → Idt H
    → List Event × Outcome (Idt H)
handle_irq invoke irq none frame s = (received_irq irq ∷ no_handler irq ∷ [], returned s)
handle_irq invoke irq (some h) frame s = after_handler irq (invoke h frame s)

-- `rbp` is the frame pointer of `_backtrace`, `mem` the memory it reads, and `fuel` bounds its
-- loop.
unfoldable pub idt_handler :
    {H : Type 0}
    → (H → IntFrame → Idt H → Outcome (Idt H))
    → ℕ
    → (ℕ → ℕ)
    → ℕ
    → IntFrame
    → Idt H
    → List Event × Outcome (Idt H)
unfolding handle_exception handle_irq
idt_handler invoke fuel mem rbp frame s =
    if ltb frame.vector 32
    then handle_exception fuel mem rbp frame s
    else if leb irq_base frame.vector && ltb frame.vector (irq_base + irq_count)
    then handle_irq invoke (frame.vector - irq_base)
        (get_or s.irq_handlers (frame.vector - irq_base) none) frame s
    else if frame.vector == 0x80
    then (system_call ∷ [], returned s)
    else (unknown_vector frame.vector ∷ [], returned s)
