-- ===== src/Pmm/Printing.antt =====
-- olive/src/mm/pmm.c with its log, on a console that can print, as the page allocator of
-- olive/include/mm/pmm.h.
use Prim.Native.String.{String}
use fwp_athix.Prelude.{ℕ, ◌≡◌, refl, ℤ, List}
use fwp_athix.Outcome.{returned, ◌>>=◌}
use fwp_athix.Console.{Console}
use fwp_athix.Console.Output.{IsFormatter, IsReady}
use fwp_athix.Log.{Build, Line}
use fwp_athix.Log.Quiet.{Logged-result, Logged-IsReady}
use fwp_athix.Log.Message.{Message}
use fwp_athix.Pmm.{Pmm, request_pages, free_pages, live}
use fwp_athix.Pmm.Spec.{IsValid}
use fwp_athix.Pmm.Interface.{PageAllocator}
use fwp_athix.Pmm.Owners.{pmm}
use fwp_athix.Pmm.Logged.{
  request_on_console, free_on_console, request_on_console-EndsAs, free_on_console-EndsAs,
}

module _ (npf : ℕ → Line Message → ℤ × List ℕ) (build : Build) (file : String)
    (size : IsFormatter npf) where
  pub request-printed :
      (s : Pmm) {r : ℕ × Pmm} (pages : ℕ) (c : Console)
      → IsReady c
      → request_pages pages s ≡ returned r
      → (d : Console) × (request_on_console npf build file pages s c ≡ returned (r, d)) × IsReady d
  request-printed s pages c z runs =
      Logged-IsReady npf build size (request_on_console npf build file pages s) c
        (Logged-result npf build size file _ _
          (request_on_console-EndsAs npf build file size pages s))
        runs z

  pub free-printed :
      (s : Pmm) {t : Pmm} (ptr pages : ℕ) (c : Console)
      → IsReady c
      → free_pages ptr pages s ≡ returned t
      → (d : Console) × (free_on_console npf build file ptr pages s c ≡ returned (t, d)) × IsReady d
  free-printed s ptr pages c z runs =
      Logged-IsReady npf build size (free_on_console npf build file ptr pages s) c
        (Logged-result npf build size file _ _
          (free_on_console-EndsAs npf build file size ptr pages s))
        runs z

  abbrev pub printing_pmm : PageAllocator
  printing_pmm = record {
    State = Pmm × Console;
    IsValid = λ s. IsValid s.0 × IsReady s.1;
    waiting = λ s. live s.0;
    used = λ s. s.0.used_pages;
    pmm_request_pages = λ pages s.
        request_on_console npf build file pages s.0 s.1 >>= (λ r. returned (r.0.0, (r.0.1, r.1)));
    pmm_free_pages = λ ptr pages s. free_on_console npf build file ptr pages s.0 s.1;
    grants = λ s xs p v e.
        let (t, runs, valid, rest, used) = pmm.grants s.0 xs p v.0 e in
        let (d, printed, shown) = request-printed s.0 1 s.1 v.1 runs in
        ((t, d), rw (printed) refl, (valid, shown), rest, used);
    refuses = λ s v e.
        let (t, runs, valid, rest, used) = pmm.refuses s.0 v.0 e in
        let (d, printed, shown) = request-printed s.0 1 s.1 v.1 runs in
        ((t, d), rw (printed) refl, (valid, shown), rest, used);
    takes_back = λ s p v page in_use.
        let (t, runs, valid, rest, used) = pmm.takes_back s.0 p v.0 page in_use in
        let (d, printed, shown) = free-printed s.0 p 1 s.1 v.1 runs in
        ((t, d), printed, (valid, shown), rest, used);
  }
