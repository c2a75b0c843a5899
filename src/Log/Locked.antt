-- ===== src/Log/Locked.antt =====
-- The log macros of olive/include/olive.h while the console's lock is taken.
use Prim.Native.String.{String}
use fwp_athix.Prelude.{ℕ, ◌≡◌, ◌≢◌, ap, false, ℤ, List, if◌then◌else◌}
use fwp_athix.Outcome.{returned, halt, hang, ◌>>=◌}
use fwp_athix.Console.{Console, printed_length, printf}
use fwp_athix.Console.Locked.{printf-locked}
use fwp_athix.Log.{Build, Line, tag, tag_file, log, error, assert, assertion}

module _ {F : Type 0} (npf : ℕ → Line F → ℤ × List ℕ) (build : Build) (file : String) where
  -- The tag of a line, and that it is formatted to some characters that fit the buffer.
  abbrev pub tag_line : String → Line F
  tag_line level = if build.debug then tag_file level file else tag level

  abbrev pub Shows : String → Type 0
  Shows level = printed_length (npf 1024 (tag_line level)).0 ≢ 0

  pub log-locked :
      (level : String) (line : Line F) (c : Console)
      → c.lock.locked ≢ 0
      → Shows level
      → log npf build file level line c ≡ hang
  unfolding log
  log-locked level line c taken shows =
      ap (λ o. o >>= (λ r. printf npf line r.1 >>= (λ q. returned q.1)))
        (printf-locked npf (tag_line level) c taken shows)

  -- While the console's lock is taken, and when the tag prints anything, a failed ASSERT hangs in its
  -- message: the kernel is not halted.
  pub assert-locked :
      (source : String) (c : Console)
      → c.lock.locked ≢ 0
      → Shows "ERROR"
      → assert npf build file false source c ≡ hang
  unfolding assert error
  assert-locked source c taken shows =
      ap (λ o. o >>= (λ c'. halt)) (log-locked "ERROR" (assertion source) c taken shows)
