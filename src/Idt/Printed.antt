-- ===== src/Idt/Printed.antt =====
-- What an exception prints on the console: proofs about olive/src/sys/idt.c with
-- olive/src/lib/printf.c.
use Prim.Native.String.{String}
use fwp_athix.Prelude.{
  ℕ, ◌≤◌, ◌<◌, ◌≡◌, ◌≢◌, refl, ap, ◌∙◌, arith, true, Bool-cases, inl, inr, ℤ, Option, none, some,
  List, [], ◌∷◌, ◌++◌, length, ltb,
}
use fwp_athix.Outcome.{Outcome, returned, hang, ◌>>=◌}
use fwp_athix.Ports.{Bus}
use fwp_athix.Console.{Console}
use fwp_athix.Console.Output.{ready, after, IsFormatter}
use fwp_athix.Log.{Build, Line, fatal, debug_level, log_at}
use fwp_athix.Log.Locked.{Shows, log-locked}
use fwp_athix.Log.Series.{LogCall, log_all, texts_of, log_all-ready}
use fwp_athix.Idt.Exceptions.{is_fatal, message_of, mnemonic_of}
use fwp_athix.Idt.Frames.{IntFrame, Event, received_exception, Chain, _backtrace}
use fwp_athix.Idt.Init.{Idt}
use fwp_athix.Idt.Handle.{detail_of, report, traced, idt_handler, handle_exception}
use fwp_athix.Idt.Dispatch.{trace_of, idt_handler-fatal}
use fwp_athix.Log.Message.{Message, number, word, call}
use fwp_athix.Idt.Numbers.{numbers_of, dumped, detail_numbers, trace_numbers, report-numbers}
use fwp_athix.Idt.Print.{plain, lines_of, all_lines, halted, ended, handle_on_console}

traced-first :
    (A : Type 0) (e : Event) (es : List Event) (o : Option (List Event))
    → (fs : List Event) × ((traced {A = A} (e ∷ es) o).0 ≡ e ∷ fs)
traced-first A e es none = (es, refl)
traced-first A e es (some fs) = (es ++ fs, refl)

module _ {H : Type 0} (npf : ℕ → Line Message → ℤ × List ℕ) (build : Build) (file : String)
    (invoke : H → IntFrame → Idt H → Outcome (Idt H)) (fuel : ℕ) (mem : ℕ → ℕ) (rbp : ℕ) where
  -- With the console's lock free, a terminal and a formatter that stays within its buffer, every
  -- interrupt has its log calls printed in order, the lock is free again, and it ends as
  -- `idt_handler` does: the log neither hangs nor changes it.
  handle_on_console-ready :
      (size : IsFormatter npf) (frame : IntFrame) (s : Idt H) (bus : Bus) (screen : List ℕ)
      → let r = idt_handler invoke fuel mem rbp frame s in
        handle_on_console npf build file invoke fuel mem rbp frame s (ready bus screen)
        ≡ ended r.1 (after (texts_of npf build file size (all_lines r.0)) bus screen)
  unfolding handle_on_console
  handle_on_console-ready size frame s bus screen =
      let r = idt_handler invoke fuel mem rbp frame s in
      ap (λ o. o >>= ended r.1) (log_all-ready npf build file size (all_lines r.0) bus screen)

  pub handle_on_console-fatal :
      (size : IsFormatter npf) (rips : List ℕ) (frame : IntFrame) (s : Idt H) (bus : Bus)
      (screen : List ℕ)
      → frame.vector < 32
      → is_fatal frame.vector ≡ true
      → Chain mem rbp rips
      → length rips ≤ fuel
      → let calls = all_lines (report frame ++ trace_of mem rbp frame.rip rips) in
        (handle_on_console npf build file invoke fuel mem rbp frame s (ready bus screen)
          ≡ returned (halted (after (texts_of npf build file size calls) bus screen)))
        × (numbers_of calls
            ≡ dumped frame
              ++ (detail_numbers (detail_of frame.vector frame.err)
                  ++ trace_numbers mem rbp frame.rip rips))
  handle_on_console-fatal size rips frame s bus screen lt fatal c h = (
    handle_on_console-ready size frame s bus screen
        ∙ ap
            (λ (r : List Event × Outcome (Idt H)).
              ended r.1 (after (texts_of npf build file size (all_lines r.0)) bus screen))
            (idt_handler-fatal mem rbp rips invoke fuel frame s lt fatal c h),
    report-numbers mem rbp rips frame,
  )

  -- The events of an exception begin with its reception.
  first_event :
      (frame : IntFrame) (s : Idt H)
      → (es : List Event) × ((handle_exception fuel mem rbp frame s).0
          ≡ received_exception frame.vector ∷ es)
  unfolding handle_exception report
  first_event frame s = elim (Bool-cases (is_fatal frame.vector)) [
    | inl dies ↦ rw (dies) (traced-first (Idt H) _ _ (_backtrace fuel mem rbp frame.rip))
    | inr goes_on ↦ rw (goes_on) (_, refl)
  ]

  -- The log calls of an exception begin with the same one.
  first_line :
      (frame : IntFrame) (s : Idt H)
      → frame.vector < 32
      → (ls : List (LogCall Message)) × (all_lines (idt_handler invoke fuel mem rbp frame s).0
          ≡ plain "\n" ∷ ls)
  unfolding all_lines lines_of idt_handler
  first_line frame s lt =
      let (es, e) = first_event frame s in
      let an_exception : ltb frame.vector 32 ≡ true = ground arith in
      (
        call debug_level "Received exception %d (%s): %s\n" (
              number frame.vector
              ∷ word (mnemonic_of frame.vector)
              ∷ word (message_of frame.vector)
              ∷ [])
            ∷ all_lines es,
        rw (an_exception) (ap all_lines e),
      )

  -- While the console's lock is taken, and when the tag prints anything, every exception hangs in its
  -- first log call: a fatal one does not halt the kernel, and a breakpoint does not return.
  pub handle_on_console-locked :
      (frame : IntFrame) (s : Idt H) (c : Console)
      → frame.vector < 32
      → c.lock.locked ≢ 0
      → Shows npf build file "FATAL"
      → handle_on_console npf build file invoke fuel mem rbp frame s c ≡ hang
  unfolding handle_on_console log_all log_at fatal
  handle_on_console-locked frame s c lt taken shows =
      let (ls, e) = first_line frame s lt in
      let r = idt_handler invoke fuel mem rbp frame s in
      ap (λ ls. log_all npf build file ls c >>= ended r.1) e
      ∙ ap (λ o. o >>= log_all npf build file ls >>= ended r.1)
          (log-locked npf build file "FATAL" (plain "\n").line c taken shows)
