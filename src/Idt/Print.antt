-- ===== src/Idt/Print.antt =====
-- The log calls of `idt_handler` and `_backtrace` of olive/src/sys/idt.c, as formats with their
-- arguments, and the handler with the console that they go to.
use Prim.Native.String.{String}
use fwp_athix.Prelude.{ℕ, Bool, ℤ, List, [], ◌∷◌, ◌++◌, if◌then◌else◌}
use fwp_athix.Outcome.{Outcome, returned, halt, hang, fault, ◌>>=◌}
use fwp_athix.Console.{Console}
use fwp_athix.Log.{Build, Line, fatal_level, debug_level, alert_level, warn_level}
use fwp_athix.Log.Series.{LogCall, log_all}
use fwp_athix.Log.Message.{Message, number, word, call}
use fwp_athix.Idt.Exceptions.{message_of, mnemonic_of}
use fwp_athix.Idt.Frames.{
  IntFrame, SegmentFault, invalid_tss, not_present, stack_segment, protection, CodeFault,
  control_protection, vmm_communication, security, Detail, double_fault, segment, page_fault,
  alignment, code_only, no_detail, Event, received_exception, registers, details, trace_start,
  no_trace, caller, trace_line, trace_end, breakpoint, non_fatal, received_irq, invoking, executed,
  no_handler, system_call, unknown_vector,
}
use fwp_athix.Idt.Init.{Idt}
use fwp_athix.Idt.Handle.{idt_handler}

abbrev pub plain : String → LogCall Message
plain format = call fatal_level format []

abbrev pub three_registers : String → ℕ → ℕ → ℕ → LogCall Message
three_registers format a b c = call fatal_level format (number a ∷ number b ∷ number c ∷ [])

abbrev pub two_registers : String → ℕ → ℕ → LogCall Message
two_registers format a b = call fatal_level format (number a ∷ number b ∷ [])

-- `FATAL("\t - %s\n", condition ? holding : otherwise)`
abbrev pub choice : Bool → String → String → LogCall Message
choice condition holding otherwise =
    call fatal_level "\t - %s\n" (word (if condition then holding else otherwise) ∷ [])

-- The register dump
unfoldable pub dump : IntFrame → List (LogCall Message)
unfolding message_of mnemonic_of
dump f =
    plain "--- INTERRUPT INFORMATION ---\n"
    ∷ call fatal_level " - %s (%s) @ 0x%.16llx on CPU %s\n" (
        word (mnemonic_of f.vector)
        ∷ word (message_of f.vector)
        ∷ number f.rip
        ∷ word "<unknown>"
        ∷ [])
    ∷ plain " - Register Dump:\n"
    ∷ three_registers "\tRAX: 0x%.16llx  RBX:    0x%.16llx  RCX: 0x%.16llx\n" f.rax f.rbx f.rcx
    ∷ three_registers "\tRDX: 0x%.16llx  RSI:    0x%.16llx  RDI: 0x%.16llx\n" f.rdx f.rsi f.rdi
    ∷ two_registers "\tRBP: 0x%.16llx  RSP:    0x%.16llx  -----------------------\n" f.rbp f.rsp
    ∷ three_registers "\tR8:  0x%.16llx  R9:     0x%.16llx  R10: 0x%.16llx\n" f.r8 f.r9 f.r10
    ∷ three_registers "\tR11: 0x%.16llx  R12:    0x%.16llx  R13: 0x%.16llx\n" f.r11 f.r12 f.r13
    ∷ two_registers "\tR14: 0x%.16llx  R15:    0x%.16llx  -----------------------\n" f.r14 f.r15
    ∷ two_registers "\tRIP: 0x%.16llx  RFLAGS: 0x%.16llx  -----------------------\n" f.rip f.rflags
    ∷ two_registers "\tCR2: 0x%.16llx  CR3:    0x%.16llx  -----------------------\n" f.cr2 f.cr3
    ∷ two_registers "\tCS:  0x%.16llx  SS:     0x%.16llx  -----------------------\n" f.cs f.ss
    ∷ two_registers "\tERR: 0x%.16llx  VECTOR: 0x%.16llx  -----------------------\n" f.err f.vector
    ∷ []

abbrev pub segment_title : SegmentFault → String
segment_title invalid_tss = " - Invalid TSS Details:\n"
segment_title not_present = " - Segment Not Present Details:\n"
segment_title stack_segment = " - Stack-Segment Fault Details:\n"
segment_title protection = " - General Protection Fault Details:\n"

-- The last format of the four: one has no line feed.
abbrev pub table_format : SegmentFault → String
table_format stack_segment = "\t - %s"
table_format other_fault = "\t - %s\n"

abbrev pub code_title : CodeFault → String
code_title control_protection = " - Control Protection Exception Details:\n"
code_title vmm_communication = " - VMM Communication Exception Details:\n"
code_title security = " - Security Exception Details:\n"

abbrev pub error_code : ℕ → LogCall Message
error_code err = call fatal_level "\tError Code: 0x%.16llx\n" (number err ∷ [])

-- The calls of one case of the `switch`.
unfoldable pub detail_lines : Detail → List (LogCall Message)
detail_lines double_fault = plain " - Double Fault: No additional error information.\n" ∷ []
detail_lines (segment kind err external index local) =
    plain (segment_title kind)
    ∷ error_code err
    ∷ choice external "External event caused error" "Descriptor caused error"
    ∷ call fatal_level "\t - Index: 0x%.16llx\n" (number index ∷ [])
    ∷ call fatal_level (table_format kind)
        (word (if local then "LDT segment" else "GDT segment") ∷ [])
    ∷ []
detail_lines (page_fault err present write user reserved fetch) =
    plain " - Page Fault Details:\n"
    ∷ error_code err
    ∷ choice present "Protection violation" "Non-present page"
    ∷ choice write "Write access" "Read access"
    ∷ choice user "User mode" "Supervisor mode"
    ∷ choice reserved "Reserved bit set" "No reserved bit violation"
    ∷ choice fetch "Instruction fetch" "Data access"
    ∷ []
detail_lines (alignment err user) =
    plain " - Alignment Check Details:\n"
    ∷ error_code err
    ∷ choice user "User mode" "Supervisor mode"
    ∷ []
detail_lines (code_only kind err) = plain (code_title kind) ∷ error_code err ∷ []
detail_lines no_detail = plain " - No detailed information for this exception.\n" ∷ []

-- The log calls of an event.
unfoldable pub lines_of : Event → List (LogCall Message)
unfolding dump detail_lines message_of mnemonic_of
lines_of (received_exception vector) =
    plain "\n"
    ∷ call debug_level "Received exception %d (%s): %s\n"
        (number vector ∷ word (mnemonic_of vector) ∷ word (message_of vector) ∷ [])
    ∷ []
lines_of (registers frame) = dump frame
lines_of (details d) = detail_lines d ++ (plain "-------------------------------\n" ∷ [])
lines_of trace_start = plain "--- BACKTRACE START ----\n" ∷ []
lines_of no_trace = plain "No stack trace available-\n" ∷ []
lines_of (caller rip) =
    call fatal_level " - [caller] %-24s @ %.16llx\n" (word "<unkown>" ∷ number rip ∷ []) ∷ []
lines_of (trace_line i rip) =
    call fatal_level " - [%06d] %-24s @ %.16llx\n" (number i ∷ word "<unkown>" ∷ number rip ∷ [])
    ∷ []
lines_of trace_end = plain "-----------------------\n" ∷ []
lines_of (breakpoint rip) = call alert_level "BREAKPOINT @ 0x%p\n" (number rip ∷ []) ∷ []
lines_of (non_fatal message) = call warn_level "Non-fatal exception: %s\n" (word message ∷ []) ∷ []
lines_of (received_irq irq) = call debug_level "Received IRQ %d\n" (number irq ∷ []) ∷ []
lines_of (invoking irq) = call debug_level "Invoking handler for IRQ %d\n" (number irq ∷ []) ∷ []
lines_of (executed irq) =
    call debug_level "Executed IRQ handler for IRQ %d\n" (number irq ∷ []) ∷ []
lines_of (no_handler irq) =
    call warn_level "No handler registered for IRQ %d, interrupt ignored\n" (number irq ∷ []) ∷ []
lines_of system_call =
    call warn_level "Received system call interrupt, processing skipped\n" [] ∷ []
lines_of (unknown_vector vector) =
    call warn_level "Received unknown interrupt vector: %d, no action taken\n" (number vector ∷ [])
    ∷ []

unfoldable pub all_lines : List Event → List (LogCall Message)
unfolding lines_of
all_lines [] = []
all_lines (e ∷ es) = lines_of e ++ all_lines es

-- How an interrupt ends: the interrupted code goes on, or the processor has halted. Both leave what
-- is on the console.
pub data Handled (H : Type 0) : Type 0 where
  resumed : Idt H → Console → Handled H
  halted : Console → Handled H

abbrev pub ended : {H : Type 0} → Outcome (Idt H) → Console → Outcome (Handled H)
ended (returned s) c = returned (resumed s c)
ended halt c = returned (halted c)
ended hang c = hang
ended fault c = fault

-- `idt_handler` with the console. What a registered handler prints itself is not on it.
unfoldable pub handle_on_console :
    {H : Type 0}
    → (ℕ → Line Message → ℤ × List ℕ)
    → Build
    → String
    → (H → IntFrame → Idt H → Outcome (Idt H))
    → ℕ
    → (ℕ → ℕ)
    → ℕ
    → IntFrame
    → Idt H
    → Console
    → Outcome (Handled H)
unfolding all_lines log_all idt_handler
handle_on_console npf build file invoke fuel mem rbp frame s c =
    let r = idt_handler invoke fuel mem rbp frame s in
    do c' ← log_all npf build file (all_lines r.0) c; ended r.1 c'
