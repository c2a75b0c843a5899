-- ===== src/Pmm/Logged.antt =====
-- `pmm_request_pages` and `pmm_free_pages` of olive/src/mm/pmm.c with their log and the messages of
-- their assertions, on the console.
use Prim.Native.String.{String}
use fwp_athix.Prelude.{
  ℕ, ◌%◌, ◌<◌, ◌≡◌, ◌≢◌, refl, ap, ◌∙◌, arith, Bool, true, false, ◌||◌, not, ℤ, List, [], ◌∷◌, ltb,
  ◌==◌, if◌then◌else◌,
}
use fwp_athix.Outcome.{Outcome, returned, halt, hang, ◌>>=◌}
use fwp_athix.Macros.{page_size}
use fwp_athix.Ports.{Bus}
use fwp_athix.Console.{Console}
use fwp_athix.Console.Output.{ready, IsFormatter}
use fwp_athix.Log.{Build, Line, warn_level, trace_level, error_level, assert, log_at, warn}
use fwp_athix.Log.Lines.{assert_lem}
use fwp_athix.Log.Locked.{Shows, log-locked}
use fwp_athix.Log.Series.{LogCall, log_all, texts_of}
use fwp_athix.Log.Quiet.{EndsAs, log-EndsAs}
use fwp_athix.Log.Message.{Message, number, call}
use fwp_athix.Pmm.{Pmm, request_pages, free_pages, free_loop, settle, Pushed, overflow}

-- What a request of `pages` that returned `ptr` logs.
abbrev pub request_lines : ℕ → Pmm → ℕ → List (LogCall Message)
request_lines pages s ptr =
    if (pages == 0) || ltb s.stack_idx pages
    then call warn_level "Unable to allocate %zu pages, out of memory.\n" (number pages ∷ []) ∷ []
    else call trace_level "Allocated %zu pages starting at physical address 0x%llx\n"
        (number pages ∷ number ptr ∷ [])
      ∷ []

-- What giving back logs, once its loop has ended.
abbrev pub free_lines : ℕ → ℕ → Pushed → List (LogCall Message)
free_lines ptr pages (overflow s) =
    call error_level "PMM Stack overflow while freeing pages.\n" [] ∷ []
free_lines ptr pages pushed =
    call trace_level "Freed %zu pages starting from physical address 0x%llx\n"
      (number pages ∷ number ptr ∷ [])
    ∷ []

module _ (npf : ℕ → Line Message → ℤ × List ℕ) (build : Build) (file : String) where
  unfoldable pub request_on_console : ℕ → Pmm → Console → Outcome ((ℕ × Pmm) × Console)
  unfolding request_pages log_all
  request_on_console pages s c = do
    (ptr, t) ← request_pages pages s
    c' ← log_all npf build file (request_lines pages s ptr) c
    returned ((ptr, t), c')

  unfoldable pub free_on_console : ℕ → ℕ → Pmm → Console → Outcome (Pmm × Console)
  unfolding assert free_loop log_all
  free_on_console ptr pages s c = do
    c1 ← assert npf build file (not (ptr == 0)) "ptr != NULL" c
    c2 ← assert npf build file (ptr % page_size == 0) "(uint64_t)ptr % PAGE_SIZE == 0" c1
    c3 ← assert npf build file (ltb 0 pages) "pages > 0" c2
    let pushed = free_loop ptr pages 0 s
    t ← settle pages pushed
    c4 ← log_all npf build file (free_lines ptr pages pushed) c3
    returned (t, c4)

-- A call under an assertion's condition.
guarded :
    {T : Type 0} (ok : Bool) (c : Console) (next : Console → Outcome T)
    → ((if ok then returned c else halt) >>= next) ≡ (if ok then next c else halt)
guarded true c next = refl
guarded false c next = refl

-- Three assertions, and what follows the call under them.
asserted-bind :
    {S T : Type 0} (zero aligned pos : Bool) (o : Outcome S) (next : S → Outcome T)
    → (if not zero then (if aligned then (if pos then o >>= next else halt) else halt) else halt)
      ≡ ((if zero then halt else (if aligned then (if pos then o else halt) else halt)) >>= next)
asserted-bind true aligned pos o next = refl
asserted-bind false true true o next = refl
asserted-bind false true false o next = refl
asserted-bind false false pos o next = refl

module _ (npf : ℕ → Line Message → ℤ × List ℕ) (build : Build) (file : String)
    (size : IsFormatter npf) where
  assert-ready :
      {T : Type 0} (ok : Bool) (source : String) (bus : Bus) (screen : List ℕ)
      (next : Console → Outcome T)
      → (assert npf build file ok source (ready bus screen) >>= next)
        ≡ (if ok then next (ready bus screen) else halt)
  assert-ready ok source bus screen next =
      ap (λ o. o >>= next) (assert_lem npf build file size ok source bus screen)
      ∙ guarded ok (ready bus screen) next

  pub request_on_console-EndsAs :
      (pages : ℕ) (s : Pmm)
      → EndsAs
          (request_pages pages s)
          (λ r. texts_of npf build file size (request_lines pages s r.0))
          (request_on_console npf build file pages s)
  unfolding request_on_console
  request_on_console-EndsAs pages s =
      log-EndsAs npf build file size (request_pages pages s) (λ r. request_lines pages s r.0)

  pub free_on_console-EndsAs :
      (ptr pages : ℕ) (s : Pmm)
      → EndsAs
          (free_pages ptr pages s)
          (λ t. texts_of npf build file size (free_lines ptr pages (free_loop ptr pages 0 s)))
          (free_on_console npf build file ptr pages s)
  unfolding free_on_console free_pages
  free_on_console-EndsAs ptr pages s bus screen =
      let pushed = free_loop ptr pages 0 s in
      assert-ready (not (ptr == 0)) "ptr != NULL" bus screen _
      ∙ ap (λ o. if not (ptr == 0) then o else halt)
          (assert-ready (ptr % page_size == 0) "(uint64_t)ptr % PAGE_SIZE == 0" bus screen _
            ∙ ap (λ o. if ptr % page_size == 0 then o else halt)
                (assert-ready (ltb 0 pages) "pages > 0" bus screen _
                  ∙ ap (λ o. if ltb 0 pages then o else halt)
                      (log-EndsAs npf build file size (settle pages pushed)
                        (λ t. free_lines ptr pages pushed) bus screen)))
      ∙ asserted-bind (ptr == 0) (ptr % page_size == 0) (ltb 0 pages) (settle pages pushed) _

  -- While the console's lock is taken, and when the tag prints anything, a request of more pages than
  -- are free hangs in its warning instead of returning NULL.
  request_on_console-locked :
      (pages : ℕ) (s : Pmm) (c : Console)
      → s.stack_idx < pages
      → c.lock.locked ≢ 0
      → Shows npf build file "WARN"
      → request_on_console npf build file pages s c ≡ hang
  unfolding request_on_console request_pages log_all log_at warn
  request_on_console-locked pages s c short taken shows =
      let refused : (pages == 0) || ltb s.stack_idx pages ≡ true = ground arith in
      rw (refused) (
        ap (λ o. o >>= (λ d. returned d) >>= (λ c'. returned ((0, s), c')))
          (log-locked npf build file "WARN"
            (call warn_level "Unable to allocate %zu pages, out of memory.\n"
              (number pages ∷ [])).line
            c taken shows))
