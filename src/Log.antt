-- ===== src/Log.antt =====
-- The log macros and ASSERT of olive/include/olive.h, with the build's settings. A line is
-- formatted and printed in two calls of `printf`: its tag, then its text.
pub mod Lines
pub mod Locked
pub mod Series
pub mod Quiet
pub mod Message
use Prim.Native.String.{String}
use fwp_athix.Prelude.{ℕ, Bool, true, false, ℤ, List, if◌then◌else◌}
use fwp_athix.Outcome.{Outcome, returned, halt, hang, fault, ◌>>=◌}
use fwp_athix.Console.{Console, printf}

-- `_TRACE`, `_DEBUG`, `_RELEASE` and the version
pub record Build : Type 0 where
  pub trace : Bool
  pub debug : Bool
  pub release : Bool
  pub version_major : ℕ
  pub version_minor : ℕ
  pub version_patch : ℕ

-- The values when the build defines none.
abbrev pub default_build : Build
default_build = record {
  trace = false;
  debug = false;
  release = true;
  version_major = 0;
  version_minor = 0;
  version_patch = 0;
}

-- The calls of `printf` that LOG makes: `"[%s] %s: "` with the level and the file, `"[%s]: "` with
-- the level, and the caller's own format and arguments, an `F`.
pub data Line (F : Type 0) : Type 0 where
  tag_file : String → String → Line F
  tag : String → Line F
  text : F → Line F
  -- `"Assertion failed: %s"`
  assertion : String → Line F

-- The log macros, from INFO to TODO.
pub data Level : Type 0 where
  info_level : Level
  warn_level : Level
  error_level : Level
  debug_level : Level
  trace_level : Level
  fatal_level : Level
  critical_level : Level
  alert_level : Level
  notice_level : Level
  todo_level : Level

-- What a level puts in its tag, and whether a build prints it.
abbrev pub name_of : Level → String
name_of info_level = "INFO"
name_of warn_level = "WARN"
name_of error_level = "ERROR"
name_of debug_level = "DEBUG"
name_of trace_level = "TRACE"
name_of fatal_level = "FATAL"
name_of critical_level = "CRITICAL"
name_of alert_level = "ALERT"
name_of notice_level = "NOTICE"
name_of todo_level = "TODO"

abbrev pub prints : Build → Level → Bool
prints build debug_level = build.debug
prints build trace_level = build.trace
prints build level = true

module _ {F : Type 0} (npf_vsnprintf : ℕ → Line F → ℤ × List ℕ) (build : Build)
    (file : String) where
  unfoldable pub log : String → Line F → Console → Outcome Console
  unfolding printf
  log level line c = do
    (_, c1) ← printf npf_vsnprintf (if build.debug then tag_file level file else tag level) c
    (_, c2) ← printf npf_vsnprintf line c1
    returned c2

  unfoldable pub info : Line F → Console → Outcome Console
  unfolding log
  info line c = log "INFO" line c

  unfoldable pub warn : Line F → Console → Outcome Console
  unfolding log
  warn line c = log "WARN" line c

  unfoldable pub error : Line F → Console → Outcome Console
  unfolding log
  error line c = log "ERROR" line c

  unfoldable pub debug : Line F → Console → Outcome Console
  unfolding log
  debug line c = if build.debug then log "DEBUG" line c else returned c

  unfoldable pub trace : Line F → Console → Outcome Console
  unfolding log
  trace line c = if build.trace then log "TRACE" line c else returned c

  unfoldable pub fatal : Line F → Console → Outcome Console
  unfolding log
  fatal line c = log "FATAL" line c

  unfoldable pub critical : Line F → Console → Outcome Console
  unfolding log
  critical line c = log "CRITICAL" line c

  unfoldable pub alert : Line F → Console → Outcome Console
  unfolding log
  alert line c = log "ALERT" line c

  unfoldable pub notice : Line F → Console → Outcome Console
  unfolding log
  notice line c = log "NOTICE" line c

  unfoldable pub todo : Line F → Console → Outcome Console
  unfolding log
  todo line c = log "TODO" line c

  -- The macro of a level.
  unfoldable pub log_at : Level → Line F → Console → Outcome Console
  unfolding info warn error debug trace fatal critical alert notice todo
  log_at info_level line c = info line c
  log_at warn_level line c = warn line c
  log_at error_level line c = error line c
  log_at debug_level line c = debug line c
  log_at trace_level line c = trace line c
  log_at fatal_level line c = fatal line c
  log_at critical_level line c = critical line c
  log_at alert_level line c = alert line c
  log_at notice_level line c = notice line c
  log_at todo_level line c = todo line c

  -- `ASSERT(x)`, where `condition` is what `x` evaluates to and `source` is `#x`: the message, then
  -- `hcf`.
  unfoldable pub assert : Bool → String → Console → Outcome Console
  unfolding error
  assert condition source c =
      if condition then returned c else (do c' ← error (assertion source) c; halt)
