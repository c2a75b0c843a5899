-- ===== src/Cpu/Halt.antt =====
-- `hcf` and `hlt` of olive/src/sys/cpu.c with their log, and olive/include/sys/cpu.h as the kernel
-- sees it. Elsewhere in this model `hcf` is the outcome `halt`.
use Prim.Native.String.{String}
use fwp_athix.Prelude.{
  ℕ, ◌≡◌, ◌≢◌, refl, sym, ap, ◌∙◌, Bool, true, false, ℤ, List, ◌++◌, if◌then◌else◌, Bool-cases, inl,
  inr,
}
use fwp_athix.Outcome.{Outcome, returned, halt, hang, ◌>>=◌}
use fwp_athix.Cpu.{Registers, get_cpuid}
use fwp_athix.Ports.{Bus}
use fwp_athix.Console.{Console}
use fwp_athix.Console.Output.{ready, after, sent, IsFormatter}
use fwp_athix.Log.{Build, Line, text, trace, trace_level, log_at}
use fwp_athix.Log.Lines.{log_text, log_at_lem}
use fwp_athix.Log.Locked.{Shows, log-locked}
use fwp_athix.Console.Interface.{IsReady, IsReady-ready}

-- What is logged: a format without arguments.
module _ (npf : ℕ → Line String → ℤ × List ℕ) (build : Build) (file : String) where
  -- The loop around the instruction `hlt` never ends.
  unfoldable pub hlt : Console → Outcome Console
  unfolding trace
  hlt c = do c1 ← trace npf build file (text "Halting CPU...\n") c; halt

  -- `cli`, then `hlt`
  unfoldable pub hcf : Console → Outcome Console
  unfolding trace hlt
  hcf c = do c1 ← trace npf build file (text "Halting CPU and disabling interrupts...\n") c; hlt c1

-- olive/include/sys/cpu.h: `Ready s` says that the log works in the state `s`.
pub record Processor : Type 1 where
  pub State : Type 0
  pub Ready : State → Type 0
  pub hcf : State → Outcome State
  pub hlt : State → Outcome State
  pub get_cpuid : ℕ → ℕ × Registers
  pub stops : (s : State) → Ready s → (hcf s ≡ halt) × (hlt s ≡ halt)
  pub answers : (leaf : ℕ) → (get_cpuid leaf).0 ≡ 0

module _ (npf : ℕ → Line String → ℤ × List ℕ) (build : Build) (file : String)
    (size : IsFormatter npf) where
  hlt-ready : (bus : Bus) (screen : List ℕ) → hlt npf build file (ready bus screen) ≡ halt
  unfolding hlt log_at
  hlt-ready bus screen =
      ap (λ o. o >>= (λ c. halt))
        (log_at_lem npf build file size trace_level (text "Halting CPU...\n") bus screen)

  hlt-after :
      (b : Bool) (str : List ℕ) (bus : Bus) (screen : List ℕ)
      → hlt npf build file (if b then after str bus screen else ready bus screen) ≡ halt
  hlt-after true str bus screen = hlt-ready (bus ++ sent str) (screen ++ str)
  hlt-after false str bus screen = hlt-ready bus screen

  hcf-ready : (bus : Bus) (screen : List ℕ) → hcf npf build file (ready bus screen) ≡ halt
  unfolding hcf log_at
  hcf-ready bus screen =
      let line = text "Halting CPU and disabling interrupts...\n" in
      ap (λ o. o >>= hlt npf build file)
        (log_at_lem npf build file size trace_level line bus screen)
      ∙ hlt-after build.trace (log_text npf build file size "TRACE" line) bus screen

  -- With a formatter that stays within its buffer, `hcf` and `hlt` stop the processor, whatever the
  -- build logs, once the console is ready; and `get_cpuid` returns 0.
  pub olive_cpu : (ℕ → Registers) → Processor
  olive_cpu cpuid = record {
    State = Console;
    Ready = IsReady;
    hcf = hcf npf build file;
    hlt = hlt npf build file;
    get_cpuid = get_cpuid cpuid;
    stops = λ c r. (
      ap (hcf npf build file) (sym (IsReady-ready r)) ∙ hcf-ready c.bus c.screen,
      ap (hlt npf build file) (sym (IsReady-ready r)) ∙ hlt-ready c.bus c.screen,
    );
    answers = λ leaf. refl;
  }

module _ (npf : ℕ → Line String → ℤ × List ℕ) (build : Build) (file : String) (c : Console)
    (taken : c.lock.locked ≢ 0) (shows : Shows npf build file "TRACE") where
  trace-locked :
      (line : Line String)
      → trace npf build file line c ≡ (if build.trace then hang else returned c)
  unfolding trace
  trace-locked line = elim (Bool-cases build.trace) [
    | inl on ↦ rw (on) (log-locked npf build file "TRACE" line c taken shows)
    | inr off ↦ rw (off) refl
  ]

  -- What follows the log is reached when the log does not hang.
  hang-else :
      {A B : Type 0} (b : Bool) (a : A) (next : A → Outcome B)
      → ((if b then hang else returned a) >>= next) ≡ (if b then hang else next a)
  hang-else true a next = refl
  hang-else false a next = refl

  hang-twice :
      {A : Type 0} (b : Bool) (o : Outcome A)
      → (if b then hang else (if b then hang else o)) ≡ (if b then hang else o)
  hang-twice true o = refl
  hang-twice false o = refl

  hlt-locked : hlt npf build file c ≡ (if build.trace then hang else halt)
  unfolding hlt
  hlt-locked =
      ap (λ o. o >>= (λ c1. halt)) (trace-locked (text "Halting CPU...\n"))
      ∙ hang-else build.trace c (λ c1. halt)

  -- In a build with TRACE, while the console's lock is taken, and when the tag prints anything,
  -- `hcf` hangs in its log, before it has disabled interrupts; in other builds it halts.
  pub hcf-locked : hcf npf build file c ≡ (if build.trace then hang else halt)
  unfolding hcf
  hcf-locked =
      ap (λ o. o >>= hlt npf build file)
        (trace-locked (text "Halting CPU and disabling interrupts...\n"))
      ∙ hang-else build.trace c (hlt npf build file)
      ∙ ap (λ o. if build.trace then hang else o) hlt-locked
      ∙ hang-twice build.trace halt
