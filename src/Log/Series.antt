-- ===== src/Log/Series.antt =====
-- A series of calls of the log macros of olive/include/olive.h from one file.
use Prim.Native.String.{String}
use mathlib.Core.List.{append-nil, append_assoc}
use fwp_athix.Prelude.{
  ℕ, ◌≡◌, refl, sym, ap, ap₂, ◌∙◌, Bool, true, false, ℤ, List, [], ◌∷◌, ◌++◌, if◌then◌else◌,
}
use fwp_athix.Outcome.{Outcome, returned, ◌>>=◌}
use fwp_athix.Console.{Console}
use fwp_athix.Console.Output.{ready, sent, after, after-append, IsFormatter}
use fwp_athix.Ports.{Bus}
use fwp_athix.Log.{Build, Line, Level, name_of, prints, log_at}
use fwp_athix.Log.Lines.{log_text, log_at_lem}

pub record LogCall (F : Type 0) : Type 0 where
  pub level : Level
  pub line : Line F

module _ {F : Type 0} (npf : ℕ → Line F → ℤ × List ℕ) (build : Build) (file : String) where
  unfoldable pub log_all : List (LogCall F) → Console → Outcome Console
  log_all [] c = returned c
  log_all (l ∷ ls) c = do c' ← log_at npf build file l.level l.line c; log_all ls c'

module _ {F : Type 0} (npf : ℕ → Line F → ℤ × List ℕ) (build : Build) (file : String)
    (size : IsFormatter npf) where
  -- What the build prints of a series.
  abbrev pub text_of : LogCall F → List ℕ
  text_of l =
      if prints build l.level then log_text npf build file size (name_of l.level) l.line else []

  abbrev pub texts_of : List (LogCall F) → List ℕ
  texts_of [] = []
  texts_of (l ∷ ls) = text_of l ++ texts_of ls

  logged-after :
      (b : Bool) (str : List ℕ) (bus : Bus) (screen : List ℕ)
      → (if b then after str bus screen else ready bus screen)
        ≡ after (if b then str else []) bus screen
  logged-after true str bus screen = refl
  logged-after false str bus screen = ap₂ ready (sym (append-nil bus)) (sym (append-nil screen))

  -- With the lock free, a terminal and a formatter that stays within its buffer, a series is printed
  -- in order, and the lock is free again.
  pub log_all-ready :
      (ls : List (LogCall F)) (bus : Bus) (screen : List ℕ)
      → log_all npf build file ls (ready bus screen) ≡ returned (after (texts_of ls) bus screen)
  unfolding log_all
  log_all-ready [] bus screen = ap returned (logged-after false [] bus screen)
  log_all-ready (l ∷ ls) bus screen =
      ap (λ o. o >>= log_all npf build file ls)
        (log_at_lem npf build file size l.level l.line bus screen
          ∙ ap returned (
              logged-after (prints build l.level)
                (log_text npf build file size (name_of l.level) l.line) bus screen))
      ∙ log_all-ready ls (bus ++ sent (text_of l)) (screen ++ text_of l)
      ∙ ap returned (after-append (text_of l) (texts_of ls) bus screen)

  pub texts_of-append :
      (xs ys : List (LogCall F)) → texts_of (xs ++ ys) ≡ texts_of xs ++ texts_of ys
  texts_of-append [] ys = refl
  texts_of-append (x ∷ xs) ys =
      ap (λ t. text_of x ++ t) (texts_of-append xs ys)
      ∙ sym (append_assoc (text_of x) (texts_of xs) (texts_of ys))
