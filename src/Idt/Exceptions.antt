-- ===== src/Idt/Exceptions.antt =====
-- The table `exception_info` of olive/src/sys/idt.c.
use Prim.Native.String.{String}
use fwp_athix.Prelude.{ℕ, Bool, true, false, List, [], ◌∷◌, get_or}

pub record ExceptionInfo : Type 0 where
  pub message : String
  pub mnemonic : String
  pub fatal : Bool

abbrev info : String → String → Bool → ExceptionInfo
info message mnemonic fatal = record { message = message; mnemonic = mnemonic; fatal = fatal }

abbrev reserved : ExceptionInfo
reserved = info "Reserved" "-" false

unfoldable pub exception_info : List ExceptionInfo
exception_info =
    info "Division By Zero" "#DE" true
    ∷ info "Debug" "#DB" false
    ∷ info "Non-maskable Interrupt" "-" true
    ∷ info "Breakpoint" "#BP" false
    ∷ info "Overflow" "#OF" true
    ∷ info "Bound Range Exceeded" "#BR" true
    ∷ info "Invalid Opcode" "#UD" true
    ∷ info "Device Not Available" "#NM" true
    ∷ info "Double Fault" "#DF" true
    ∷ info "Coprocessor Segment Overrun" "-" true
    ∷ info "Invalid TSS" "#TS" true
    ∷ info "Segment Not Present" "#NP" true
    ∷ info "Stack Segment Fault" "#SS" true
    ∷ info "General Protection Fault" "#GP" true
    ∷ info "Page Fault" "#PF" true
    ∷ reserved
    ∷ info "x87 FPU Error" "#MF" true
    ∷ info "Alignment Check" "#AC" true
    ∷ info "Machine Check" "#MC" true
    ∷ info "SIMD Floating-Point Exception" "#XM/#XF" false
    ∷ info "Virtualization Exception" "#VE" false
    ∷ info "Control Protection Exception" "#CP" false
    ∷ reserved
    ∷ reserved
    ∷ reserved
    ∷ reserved
    ∷ reserved
    ∷ reserved
    ∷ info "Hypervisor Injection Exception" "#HV" false
    ∷ info "VMM Communication Exception" "#VC" false
    ∷ info "Security Exception" "#SX" true
    ∷ reserved
    ∷ []

-- `exception_info[vector].fatal`, for a vector below 32.
unfoldable pub is_fatal : ℕ → Bool
unfolding exception_info
is_fatal vector = (get_or exception_info vector reserved).fatal

-- `exception_info[vector].mnemonic`
unfoldable pub mnemonic_of : ℕ → String
unfolding exception_info
mnemonic_of vector = (get_or exception_info vector reserved).mnemonic

-- `exception_info[vector].message`
unfoldable pub message_of : ℕ → String
unfolding exception_info
message_of vector = (get_or exception_info vector reserved).message
