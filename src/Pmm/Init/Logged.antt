-- ===== src/Pmm/Init/Logged.antt =====
-- `pmm_init` of olive/src/mm/pmm.c with its log, on the console.
use Prim.Native.String.{String}
use fwp_athix.Prelude.{
  ℕ, ◌+◌, ◌-◌, sym, ap, ◌∙◌, inl, inr, Bool-cases, ℤ, Option, none, some, List, [], ◌∷◌, ◌++◌, u64,
  ◌==◌, if◌then◌else◌, length, get_or,
}
use fwp_athix.Outcome.{Outcome, returned, ◌>>=◌}
use fwp_athix.Macros.{Entry}
use fwp_athix.Console.{Console}
use fwp_athix.Console.Output.{sent, after, after-append, IsFormatter}
use fwp_athix.Log.{Build, Line, error_level, debug_level}
use fwp_athix.Log.Series.{LogCall, log_all, texts_of, texts_of-append, log_all-ready}
use fwp_athix.Log.Quiet.{EndsAs, log-EndsAs}
use fwp_athix.Log.Message.{Message, number, call}
use fwp_athix.Pmm.Init.{
  Physical, Loaded, loaded, full, no_entry, count_pages, stack_size, locate, prepare, push_entries,
  finish, pmm_init,
}

abbrev pub null_map_lines : List (LogCall Message)
null_map_lines =
    call error_level
      "Memory map is null, ensure that the configured bootloader provides a valid memory map.\n" []
    ∷ []

abbrev pub zero_offset_lines : List (LogCall Message)
zero_offset_lines =
    call error_level
      "HHDM offset is zero, ensure that the configured bootloader provides a valid HHDM offset.\n"
      []
    ∷ []

-- The entry that the stack was carved from, as it is afterwards.
abbrev pub carve_lines : ℕ → Option ℕ → List Entry → ℕ → List (LogCall Message)
carve_lines bytes none es hhdm = []
carve_lines bytes (some k) es hhdm =
    let e = get_or es k no_entry in
    call debug_level
      "PM Stack allocated at 0x%.16llx, updated entry base to 0x%.16llx, length to %llu\n"
      (number (u64 (e.base + e.size - bytes + hhdm)) ∷ number e.base ∷ number (e.size - bytes) ∷ [])
    ∷ []

-- Before the third loop
abbrev pub prepare_lines : List Entry → ℕ → Physical → List (LogCall Message)
prepare_lines es hhdm st =
    let bytes = stack_size (count_pages es st.pmm.total_pages) in
    call debug_level "HHDM Offset: 0x%llx\n" (number hhdm ∷ [])
    ∷ call debug_level "PM Stack size: %llu bytes\n" (number bytes ∷ [])
    ∷ carve_lines bytes (locate bytes (length es) es) es hhdm

-- After it
abbrev pub finish_lines : Loaded → List (LogCall Message)
finish_lines (loaded s) =
    call debug_level "PM initialized with %llu free pages\n" (number s.stack_idx ∷ []) ∷ []
finish_lines (full s) = call error_level "PM Stack overflow while pushing pages.\n" [] ∷ []
finish_lines pushed = []

module _ (npf : ℕ → Line Message → ℤ × List ℕ) (build : Build) (file : String) where
  unfoldable pub init_on_console :
      Option (List Entry) → ℕ → Physical → Console → Outcome ((ℕ × Physical) × Console)
  unfolding prepare push_entries log_all
  init_on_console none hhdm st c = do
    c' ← log_all npf build file null_map_lines c
    returned ((1, st), c')
  init_on_console (some es) hhdm st c =
      if hhdm == 0
      then (do c' ← log_all npf build file zero_offset_lines c; returned ((1, st), c'))
      else (do
        c1 ← log_all npf build file (prepare_lines es hhdm st) c
        let start = prepare es hhdm st
        let pushed = push_entries start.memmap start.pmm
        (r, t) ← finish start pushed
        c2 ← log_all npf build file (finish_lines pushed) c1
        returned ((r, t), c2))

-- All that a call logs where it returns.
abbrev pub init_lines : Option (List Entry) → ℕ → Physical → List (LogCall Message)
init_lines none hhdm st = null_map_lines
init_lines (some es) hhdm st =
    if hhdm == 0
    then zero_offset_lines
    else prepare_lines es hhdm st
      ++ finish_lines (push_entries (prepare es hhdm st).memmap (prepare es hhdm st).pmm)

module _ (npf : ℕ → Line Message → ℤ × List ℕ) (build : Build) (file : String)
    (size : IsFormatter npf) where
  -- A series of log calls, an operation, and the log of what it returned.
  around-EndsAs :
      {A : Type 0} (first last : List (LogCall Message)) (o : Outcome A)
      → EndsAs o
          (λ a. texts_of npf build file size (first ++ last))
          (λ c.
            log_all npf build file first c
            >>= (λ c1. o >>= (λ a. log_all npf build file last c1 >>= (λ c2. returned (a, c2)))))
  around-EndsAs first last o bus screen =
      let text = texts_of npf build file size first in
      ap
        (λ l.
          l >>= (λ c1. o >>= (λ a. log_all npf build file last c1 >>= (λ c2. returned (a, c2)))))
        (log_all-ready npf build file size first bus screen)
      ∙ log-EndsAs npf build file size o (λ a. last) (bus ++ sent text) (screen ++ text)
      ∙ ap (λ d. o >>= (λ a. returned (a, d)))
          (after-append text (texts_of npf build file size last) bus screen
            ∙ ap (λ t. after t bus screen) (sym (texts_of-append npf build file size first last)))

  pub init_on_console-EndsAs :
      (map : Option (List Entry)) (hhdm : ℕ) (st : Physical)
      → EndsAs
          (pmm_init map hhdm st)
          (λ r. texts_of npf build file size (init_lines map hhdm st))
          (init_on_console npf build file map hhdm st)
  unfolding init_on_console pmm_init
  init_on_console-EndsAs none hhdm st bus screen =
      ap (λ l. l >>= (λ c. returned ((1, st), c)))
        (log_all-ready npf build file size null_map_lines bus screen)
  init_on_console-EndsAs (some es) hhdm st bus screen = elim (Bool-cases (hhdm == 0)) [
    | inl e ↦ rw (e) (
        ap (λ l. l >>= (λ c. returned ((1, st), c)))
          (log_all-ready npf build file size zero_offset_lines bus screen))
    | inr e ↦
        let start = prepare es hhdm st in
        let pushed = push_entries start.memmap start.pmm in
        rw (e) (
          around-EndsAs (prepare_lines es hhdm st) (finish_lines pushed) (finish start pushed) bus
            screen)
  ]
