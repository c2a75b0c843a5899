-- ===== src/Log/Lines.antt =====
-- What the log macros of olive/include/olive.h print, and what ASSERT does.
use Prim.Native.String.{String}
use fwp_athix.Prelude.{
  ℕ, ◌≡◌, refl, ap, ◌∙◌, Bool, true, false, ℤ, List, ◌++◌, if◌then◌else◌, Bool-cases, inl, inr,
}
use fwp_athix.Outcome.{Outcome, returned, halt, ◌>>=◌}
use fwp_athix.Console.{Console, printf}
use fwp_athix.Console.Output.{ready, sent, after, after-append, shown, IsFormatter, printf_lem}
use fwp_athix.Ports.{Bus}
use fwp_athix.Log.{
  Build, Line, tag_file, tag, assertion, log, error, assert, Level, info_level, warn_level,
  error_level, debug_level, trace_level, fatal_level, critical_level, alert_level, notice_level,
  todo_level, name_of, prints, log_at, info, warn, debug, trace, fatal, critical, alert, notice,
  todo,
}

-- A call under a guard.
guarded :
    (b : Bool) {o : Outcome Console} {d : Console} (c : Console)
    → o ≡ returned d
    → (if b then o else returned c) ≡ returned (if b then d else c)
guarded true c e = e
guarded false c e = refl

module _ {F : Type 0} (npf : ℕ → Line F → ℤ × List ℕ) (build : Build) (file : String)
    (size : IsFormatter npf) where
  -- A tag with the source file in a debug build, and without it in others, then the text.
  abbrev pub log_text : String → Line F → List ℕ
  log_text level line =
      shown (npf 1024 (if build.debug then tag_file level file else tag level))
      ++ shown (npf 1024 line)

  pub log-ready :
      (level : String) (line : Line F) (bus : Bus) (screen : List ℕ)
      → log npf build file level line (ready bus screen)
        ≡ returned (after (log_text level line) bus screen)
  unfolding log
  log-ready level line bus screen =
      let tagged = if build.debug then tag_file level file else tag level in
      let first = shown (npf 1024 tagged) in
      ap (λ o. o >>= (λ r. printf npf line r.1 >>= (λ q. returned q.1)))
        (printf_lem npf tagged bus screen size).0
      ∙ ap (λ o. o >>= (λ q. returned q.1))
          (printf_lem npf line (bus ++ sent first) (screen ++ first) size).0
      ∙ ap returned (after-append first (shown (npf 1024 line)) bus screen)

  -- A console that can print, once a call has printed its text if the build has the level.
  abbrev pub logged : Level → Line F → Bus → List ℕ → Console
  logged level line bus screen =
      if prints build level
      then after (log_text (name_of level) line) bus screen
      else ready bus screen

  -- With the lock free, a terminal and a formatter that stays within its buffer, each of the ten log
  -- macros prints a line as its tag and its text, DEBUG only in a debug build and TRACE only in a
  -- trace build, and the lock is free again.
  pub log_at_lem :
      (level : Level) (line : Line F) (bus : Bus) (screen : List ℕ)
      → log_at npf build file level line (ready bus screen)
        ≡ returned (logged level line bus screen)
  unfolding log_at info warn error debug trace fatal critical alert notice todo
  log_at_lem info_level line bus screen = log-ready "INFO" line bus screen
  log_at_lem warn_level line bus screen = log-ready "WARN" line bus screen
  log_at_lem error_level line bus screen = log-ready "ERROR" line bus screen
  log_at_lem debug_level line bus screen =
      guarded (build.debug) (ready bus screen) (log-ready "DEBUG" line bus screen)
  log_at_lem trace_level line bus screen =
      guarded (build.trace) (ready bus screen) (log-ready "TRACE" line bus screen)
  log_at_lem fatal_level line bus screen = log-ready "FATAL" line bus screen
  log_at_lem critical_level line bus screen = log-ready "CRITICAL" line bus screen
  log_at_lem alert_level line bus screen = log-ready "ALERT" line bus screen
  log_at_lem notice_level line bus screen = log-ready "NOTICE" line bus screen
  log_at_lem todo_level line bus screen = log-ready "TODO" line bus screen

  -- With the lock free, a terminal and a formatter that stays within its buffer, ASSERT goes on
  -- where its condition holds, and halts the kernel where it does not: its message cannot hang.
  pub assert_lem :
      (condition : Bool) (source : String) (bus : Bus) (screen : List ℕ)
      → assert npf build file condition source (ready bus screen)
        ≡ (if condition then returned (ready bus screen) else halt)
  unfolding assert error
  assert_lem condition source bus screen = elim (Bool-cases condition) [
    | inl holds ↦ rw (holds) refl
    | inr fails ↦ rw (fails, log-ready "ERROR" (assertion source) bus screen) refl
  ]
