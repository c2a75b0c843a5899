-- ===== src/Gdt/Logged.antt =====
-- `gdt_init` and `gdt_flush` of olive/src/sys/gdt.c with their log, on the console.
use Prim.Native.String.{String}
use fwp_athix.Prelude.{ℕ, ◌-◌, ◌*◌, ℤ, List, [], ◌∷◌, length, u16}
use fwp_athix.Outcome.{Outcome, returned, ◌>>=◌}
use fwp_athix.Console.{Console}
use fwp_athix.Console.Output.{IsFormatter}
use fwp_athix.Log.{Build, Line, debug_level, trace_level}
use fwp_athix.Log.Series.{LogCall, log_all}
use fwp_athix.Log.Quiet.{Logged, Logged-returned, Logged-bind, Logged-log}
use fwp_athix.Log.Message.{Message, number, call}
use fwp_athix.Gdt.{Segments, GdtEntry, gdt_entries, gdt_flush, gdt_init}

abbrev flushing_lines : List (LogCall Message)
flushing_lines = call trace_level "Flushing GDT...\n" [] ∷ []

abbrev flushed_lines : List (LogCall Message)
flushed_lines =
    call trace_level "GDT flushed successfully.\n" []
    ∷ call trace_level "Segment selectors set to 0x10 for all segments.\n" []
    ∷ []

abbrev pointer_lines : ℕ → ℕ → List (LogCall Message)
pointer_lines base limit =
    call debug_level "GDT initialized with base=0x%lx, limit=%u\n" (number base ∷ number limit ∷ [])
    ∷ []

module _ (npf : ℕ → Line Message → ℤ × List ℕ) (build : Build) (file : String) where
  unfoldable pub flush_on_console : ℕ → List GdtEntry → Console → Outcome (Segments × Console)
  unfolding gdt_flush log_all
  flush_on_console limit table c = do
    c1 ← log_all npf build file flushing_lines c
    let loaded = gdt_flush limit table
    c2 ← log_all npf build file flushed_lines c1
    returned (loaded, c2)

  -- `address` is `&gdt_entries`.
  unfoldable pub init_gdt_on_console : ℕ → Console → Outcome ((ℕ × Segments) × Console)
  unfolding flush_on_console gdt_entries log_all
  init_gdt_on_console address c = do
    let limit = u16 (8 * length gdt_entries - 1)
    c1 ← log_all npf build file (pointer_lines address limit) c
    (segments, c2) ← flush_on_console limit gdt_entries c1
    returned ((0, segments), c2)

module _ (npf : ℕ → Line Message → ℤ × List ℕ) (build : Build) (file : String)
    (size : IsFormatter npf) where
  flush-Logged :
      (limit : ℕ) (table : List GdtEntry)
      → Logged npf build size
          (returned (gdt_flush limit table))
          (flush_on_console npf build file limit table)
  unfolding flush_on_console
  flush-Logged limit table =
      Logged-log npf build size file flushing_lines
        (Logged-log npf build size file flushed_lines (Logged-returned npf build size _))

  pub init_gdt-Logged :
      (address : ℕ)
      → Logged npf build size (returned gdt_init) (init_gdt_on_console npf build file address)
  unfolding init_gdt_on_console gdt_init
  init_gdt-Logged address =
      let limit = u16 (8 * length gdt_entries - 1) in
      Logged-log npf build size file (pointer_lines address limit) (
        Logged-bind npf build size {f = λ segments. returned (0, segments)} _
          (flush-Logged limit gdt_entries) (λ segments. Logged-returned npf build size _))
