-- ===== src/Idt/Frames.antt =====
-- `int_frame_t` of olive/include/sys/idt.h, and `stack_frame_t` and `_backtrace` of
-- olive/src/sys/idt.c. The messages are values: a constructor for each call of a log macro.
use Prim.Native.String.{String}
use fwp_athix.Prelude.{
  ℕ, zero, suc, ◌+◌, ◌≤◌, ◌≡◌, ◌≢◌, refl, Bool, false, ◌&&◌, not, Option, none, some, List, [], ◌∷◌,
  ◌++◌, ◌==◌, if◌then◌else◌, arith, length,
}

pub record IntFrame : Type 0 where
  pub ds : ℕ
  pub cr2 : ℕ
  pub cr3 : ℕ
  pub r15 : ℕ
  pub r14 : ℕ
  pub r13 : ℕ
  pub r12 : ℕ
  pub r11 : ℕ
  pub r10 : ℕ
  pub r9 : ℕ
  pub r8 : ℕ
  pub rbp : ℕ
  pub rdi : ℕ
  pub rsi : ℕ
  pub rdx : ℕ
  pub rcx : ℕ
  pub rbx : ℕ
  pub rax : ℕ
  pub vector : ℕ
  pub err : ℕ
  pub rip : ℕ
  pub cs : ℕ
  pub rflags : ℕ
  pub rsp : ℕ
  pub ss : ℕ

-- The faults on a segment selector.
pub data SegmentFault : Type 0 where
  invalid_tss : SegmentFault
  not_present : SegmentFault
  stack_segment : SegmentFault
  protection : SegmentFault

-- The faults of which only the error code is printed.
pub data CodeFault : Type 0 where
  control_protection : CodeFault
  vmm_communication : CodeFault
  security : CodeFault

-- What the `switch` of a fatal exception prints.
pub data Detail : Type 0 where
  double_fault : Detail
  -- Error code, external event, index, LDT
  segment : SegmentFault → ℕ → Bool → ℕ → Bool → Detail
  -- Error code, protection violation, write, user mode, reserved bit, instruction fetch
  page_fault : ℕ → Bool → Bool → Bool → Bool → Bool → Detail
  -- Error code, user mode
  alignment : ℕ → Bool → Detail
  -- Error code
  code_only : CodeFault → ℕ → Detail
  no_detail : Detail

pub data Event : Type 0 where
  received_exception : ℕ → Event
  -- The register dump
  registers : IntFrame → Event
  details : Detail → Event
  trace_start : Event
  no_trace : Event
  caller : ℕ → Event
  -- A number and the address it belongs to
  trace_line : ℕ → ℕ → Event
  trace_end : Event
  breakpoint : ℕ → Event
  non_fatal : String → Event
  received_irq : ℕ → Event
  invoking : ℕ → Event
  executed : ℕ → Event
  no_handler : ℕ → Event
  system_call : Event
  unknown_vector : ℕ → Event

-- Lines in front of those of a loop that ends.
abbrev pub preceded : List Event → Option (List Event) → Option (List Event)
preceded es none = none
preceded es (some fs) = some (es ++ fs)

-- And the line after them.
abbrev pub closed : Option (List Event) → Option (List Event)
closed none = none
closed (some es) = some (es ++ (trace_end ∷ []))

-- `for (int i = 0; frame && frame->rbp != NULL; i++)`. A frame is two words of memory: `rbp` at
-- its address, `rip` after it. `none`: the fuel is spent and the loop still runs.
unfoldable pub trace_frames : ℕ → (ℕ → ℕ) → ℕ → ℕ → Option (List Event)
trace_frames zero mem i frame = if not (frame == 0) && not (mem frame == 0) then none else some []
trace_frames (suc fuel) mem i frame =
    let rest = trace_frames fuel mem (i + 1) (mem frame) in
    if not (frame == 0) && not (mem frame == 0)
    then preceded (trace_line i (mem (frame + 8)) ∷ []) rest
    else some []

abbrev pub caller_lines : ℕ → List Event
caller_lines rip = if rip == 0 then [] else caller rip ∷ []

-- `_backtrace`, started with `frame` in the register rbp.
unfoldable pub _backtrace : ℕ → (ℕ → ℕ) → ℕ → ℕ → Option (List Event)
unfolding trace_frames
_backtrace fuel mem frame rip =
    if not (frame == 0) && (mem frame == 0)
    then some (trace_start ∷ no_trace ∷ [])
    else preceded (trace_start ∷ caller_lines rip) (closed (trace_frames fuel mem 0 frame))

-- The frames that the source's loop visits: `rips` are their return addresses. The chain ends at a
-- null pointer or at a frame without a caller.
pub data Chain (mem : ℕ → ℕ) : ℕ → List ℕ → Type 0 where
  null : Chain mem 0 []
  last : (frame : ℕ) → mem frame ≡ 0 → Chain mem frame []
  link :
      (frame : ℕ) (rips : List ℕ)
      → frame ≢ 0
      → mem frame ≢ 0
      → Chain mem (mem frame) rips
      → Chain mem frame (mem (frame + 8) ∷ rips)

-- The lines of a trace that starts at number `i`.
unfoldable pub trace_lines : ℕ → List ℕ → List Event
trace_lines i [] = []
trace_lines i (rip ∷ rips) = trace_line i rip ∷ trace_lines (i + 1) rips

-- A loop that stops at once
trace_frames-stop :
    (fuel : ℕ) (mem : ℕ → ℕ) (i frame : ℕ)
    → not (frame == 0) && not (mem frame == 0) ≡ false
    → trace_frames fuel mem i frame ≡ some []
unfolding trace_frames
trace_frames-stop zero mem i frame h = rw (h)
trace_frames-stop (suc fuel) mem i frame h = rw (h)

-- With fuel for each frame, the loop prints the chain's return addresses in order, numbered from
-- `i`, and stops.
pub trace_frames-Chain :
    {mem : ℕ → ℕ} {frame : ℕ} {rips : List ℕ} (fuel i : ℕ)
    → Chain mem frame rips
    → length rips ≤ fuel
    → trace_frames fuel mem i frame ≡ some (trace_lines i rips)
unfolding trace_frames trace_lines
trace_frames-Chain {mem} fuel i null h = trace_frames-stop fuel mem i 0 refl
trace_frames-Chain {mem} fuel i (last frame at) h =
    trace_frames-stop fuel mem i frame (ground (arith, at))
trace_frames-Chain zero i (link frame rips a b c) h = ground (arith, h)
trace_frames-Chain {mem} (suc fuel) i (link frame rips a b c) h =
    ground (arith, trace_frames-Chain fuel (i + 1) c (omega arith))
