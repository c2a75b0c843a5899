-- ===== src/Idt/Numbers.antt =====
-- What numbers the report of a fatal exception of olive/src/sys/idt.c has.
use mathlib.Core.List.{append_assoc}
use fwp_athix.Prelude.{
  ℕ, ◌+◌, ◌≡◌, refl, sym, ap, ap₂, ◌∙◌, Bool-cases, inl, inr, not, ◌&&◌, List, [], ◌∷◌, ◌++◌, ◌==◌,
  if◌then◌else◌,
}
use fwp_athix.Log.{Line, text}
use fwp_athix.Log.Series.{LogCall}
use fwp_athix.Log.Message.{Message, Argument, number, integer, word}
use fwp_athix.Idt.Frames.{
  IntFrame, stack_segment, Detail, double_fault, segment, page_fault, alignment, code_only,
  no_detail, Event, received_exception, registers, details, trace_end, trace_lines,
}
use fwp_athix.Idt.Handle.{report, detail_of}
use fwp_athix.Idt.Print.{dump, detail_lines, lines_of, all_lines}
use fwp_athix.Idt.Dispatch.{trace_of}

-- The numbers among the arguments, in order
abbrev pub numbers_among : List Argument → List ℕ
numbers_among [] = []
numbers_among (number n ∷ rest) = n ∷ numbers_among rest
numbers_among (integer i ∷ rest) = numbers_among rest
numbers_among (word w ∷ rest) = numbers_among rest

abbrev pub numbers_in : Line Message → List ℕ
numbers_in (text m) = numbers_among m.arguments
numbers_in other_line = []

-- The numbers that a series of log calls prints
abbrev pub numbers_of : List (LogCall Message) → List ℕ
numbers_of [] = []
numbers_of (c ∷ cs) = numbers_in c.line ++ numbers_of cs

-- The vector, and the registers in the order of the dump
abbrev pub dumped : IntFrame → List ℕ
dumped f =
    f.vector ∷ f.rip ∷ f.rax ∷ f.rbx ∷ f.rcx ∷ f.rdx ∷ f.rsi ∷ f.rdi ∷ f.rbp ∷ f.rsp ∷ f.r8 ∷ f.r9
    ∷ f.r10 ∷ f.r11 ∷ f.r12 ∷ f.r13 ∷ f.r14 ∷ f.r15 ∷ f.rip ∷ f.rflags ∷ f.cr2 ∷ f.cr3 ∷ f.cs ∷ f.ss
    ∷ f.err ∷ f.vector ∷ []

-- The error code of a detail, with the index of the descriptor for a segment fault
abbrev pub detail_numbers : Detail → List ℕ
detail_numbers double_fault = []
detail_numbers (segment kind err external index local) = err ∷ index ∷ []
detail_numbers (page_fault err present write user reserved fetch) = err ∷ []
detail_numbers (alignment err user) = err ∷ []
detail_numbers (code_only kind err) = err ∷ []
detail_numbers no_detail = []

-- The return addresses of the loop of `_backtrace`, each after its number
abbrev pub counted : ℕ → List ℕ → List ℕ
counted i [] = []
counted i (rip ∷ rips) = i ∷ rip ∷ counted (i + 1) rips

abbrev pub interrupted : ℕ → List ℕ → List ℕ
interrupted rip ns = if rip == 0 then ns else rip ∷ ns

-- The interrupted address, if it is not 0, and the return addresses, unless there is no frame but the first
abbrev pub trace_numbers : (ℕ → ℕ) → ℕ → ℕ → List ℕ → List ℕ
trace_numbers mem rbp rip rips =
    if not (rbp == 0) && (mem rbp == 0) then [] else interrupted rip (counted 0 rips)

numbers_of-append :
    (cs ds : List (LogCall Message)) → numbers_of (cs ++ ds) ≡ numbers_of cs ++ numbers_of ds
numbers_of-append [] ds = refl
numbers_of-append (c ∷ cs) ds =
    ap (λ ns. numbers_in c.line ++ ns) (numbers_of-append cs ds)
    ∙ sym (append_assoc (numbers_in c.line) (numbers_of cs) (numbers_of ds))

-- The numbers of a series of events
abbrev pub event_numbers : List Event → List ℕ
event_numbers es = numbers_of (all_lines es)

event_numbers-cons :
    (e : Event) (es : List Event)
    → event_numbers (e ∷ es) ≡ numbers_of (lines_of e) ++ event_numbers es
unfolding all_lines
event_numbers-cons e es = numbers_of-append (lines_of e) (all_lines es)

detail_lines-numbers : (d : Detail) → numbers_of (lines_of (details d)) ≡ detail_numbers d
unfolding lines_of detail_lines
detail_lines-numbers double_fault = refl
detail_lines-numbers (segment stack_segment err external index local) = refl
detail_lines-numbers (segment kind err external index local) = refl
detail_lines-numbers (page_fault err present write user reserved fetch) = refl
detail_lines-numbers (alignment err user) = refl
detail_lines-numbers (code_only kind err) = refl
detail_lines-numbers no_detail = refl

loop-numbers :
    (i : ℕ) (rips : List ℕ)
    → event_numbers (trace_lines i rips ++ (trace_end ∷ [])) ≡ counted i rips
unfolding trace_lines all_lines lines_of
loop-numbers i [] = refl
loop-numbers i (rip ∷ rips) = ap (λ ns. i ∷ rip ∷ ns) (loop-numbers (i + 1) rips)

trace-numbers :
    (mem : ℕ → ℕ) (rbp rip : ℕ) (rips : List ℕ)
    → event_numbers (trace_of mem rbp rip rips) ≡ trace_numbers mem rbp rip rips
unfolding trace_of all_lines lines_of
trace-numbers mem rbp rip rips = elim (Bool-cases (not (rbp == 0) && (mem rbp == 0))) [
  | inl alone ↦ rw (alone) refl
  | inr more ↦ elim (Bool-cases (rip == 0)) [
    | inl null ↦ rw (more, null) (loop-numbers 0 rips)
    | inr given ↦ rw (more, given) (ap (λ ns. rip ∷ ns) (loop-numbers 0 rips))
  ]
]

dump-numbers :
    (f : IntFrame) (ns : List ℕ)
    → numbers_of (lines_of (received_exception f.vector))
        ++ (numbers_of (lines_of (registers f)) ++ ns)
      ≡ dumped f ++ ns
unfolding lines_of dump
dump-numbers f ns = refl

-- The report of an exception with its backtrace has the vector, every register, the error code and
-- the return addresses.
pub report-numbers :
    (mem : ℕ → ℕ) (rbp : ℕ) (rips : List ℕ) (f : IntFrame)
    → event_numbers (report f ++ trace_of mem rbp f.rip rips)
      ≡ dumped f ++ (detail_numbers (detail_of f.vector f.err) ++ trace_numbers mem rbp f.rip rips)
unfolding report
report-numbers mem rbp rips f =
    let trace = trace_of mem rbp f.rip rips in
    let d = detail_of f.vector f.err in
    event_numbers-cons (received_exception f.vector) (registers f ∷ details d ∷ trace)
    ∙ ap (λ ns. numbers_of (lines_of (received_exception f.vector)) ++ ns)
        (event_numbers-cons (registers f) (details d ∷ trace)
          ∙ ap (λ ns. numbers_of (lines_of (registers f)) ++ ns)
              (event_numbers-cons (details d) trace
                ∙ ap₂ (λ (ns ms : List ℕ). ns ++ ms) (detail_lines-numbers d)
                    (trace-numbers mem rbp f.rip rips)))
    ∙ dump-numbers f _
