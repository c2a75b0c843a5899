-- ===== src/Log/Quiet.antt =====
-- An operation with calls of the log macros among its steps, beside the same operation without.
use Prim.Native.String.{String}
use mathlib.Core.List.{append-nil, append_assoc}
use fwp_athix.Prelude.{
  ℕ, ◌≡◌, refl, sym, ap, ap₂, ◌∙◌, Bool, true, false, ℤ, List, [], ◌∷◌, ◌++◌, if◌then◌else◌,
}
use fwp_athix.Outcome.{Outcome, returned, halt, hang, fault, ◌>>=◌}
use fwp_athix.Ports.{Bus}
use fwp_athix.Console.{Console}
use fwp_athix.Console.Output.{ready, sent, after, after-append, IsFormatter, IsReady}
use fwp_athix.Log.{Build, Line}
use fwp_athix.Log.Series.{LogCall, log_all, text_of, texts_of, log_all-ready}

-- On a console that can print, `on` ends as `o` does, and where it returns it has printed a text, and
-- the console can print again.
abbrev pub EndsAs :
    {A : Type 0} → Outcome A → (A → List ℕ) → (Console → Outcome (A × Console)) → Type 0
EndsAs o text on =
    (bus : Bus) (screen : List ℕ)
    → on (ready bus screen) ≡ (o >>= (λ a. returned (a, after (text a) bus screen)))

-- A call of a log macro in the source file `file`
pub record FileCall (F : Type 0) : Type 0 where
  pub file : String
  pub log : LogCall F

abbrev pub from_file : {F : Type 0} → String → List (LogCall F) → List (FileCall F)
from_file file [] = []
from_file file (l ∷ ls) = record { file = file; log = l } ∷ from_file file ls

after-nil : (bus : Bus) (screen : List ℕ) → ready bus screen ≡ after [] bus screen
after-nil bus screen = sym (ap₂ ready (append-nil bus) (append-nil screen))

module _ {F : Type 0} (npf : ℕ → Line F → ℤ × List ℕ) (build : Build) (size : IsFormatter npf) where
  -- What the build prints of calls in any files
  abbrev pub printed : List (FileCall F) → List ℕ
  printed [] = []
  printed (l ∷ ls) = text_of npf build (l.file) size (l.log) ++ printed ls

  printed-append : (xs ys : List (FileCall F)) → printed (xs ++ ys) ≡ printed xs ++ printed ys
  printed-append [] ys = refl
  printed-append (x ∷ xs) ys =
      ap (λ t. text_of npf build (x.file) size (x.log) ++ t) (printed-append xs ys)
      ∙ sym (append_assoc (text_of npf build (x.file) size (x.log)) (printed xs) (printed ys))

  printed-from_file :
      (file : String) (ls : List (LogCall F))
      → texts_of npf build file size ls ≡ printed (from_file file ls)
  printed-from_file file [] = refl
  printed-from_file file (l ∷ ls) =
      ap (λ t. text_of npf build file size l ++ t) (printed-from_file file ls)

  after-printed :
      (xs ys : List (FileCall F)) (bus : Bus) (screen : List ℕ)
      → after (printed ys) (bus ++ sent (printed xs)) (screen ++ printed xs)
        ≡ after (printed (xs ++ ys)) bus screen
  after-printed xs ys bus screen =
      after-append (printed xs) (printed ys) bus screen
      ∙ ap (λ t. after t bus screen) (sym (printed-append xs ys))

  -- On a console that can print, `on` ends as `o` does, and where it returns it has made the log calls
  -- `lines`, and the console can print again.
  pub record Logged {A : Type 0} (o : Outcome A) (on : Console → Outcome (A × Console))
      : Type 0 where
    pub lines : List (FileCall F)
    pub runs : EndsAs o (λ a. printed lines) on

  -- A log that depends on what the operation returns
  pub Logged-result :
      {A : Type 0} (file : String) (o : Outcome A) (ls : A → List (LogCall F))
      {on : Console → Outcome (A × Console)}
      → EndsAs o (λ a. texts_of npf build file size (ls a)) on
      → Logged o on
  Logged-result file (returned a) ls runs = record {
    lines = from_file file (ls a);
    runs = λ bus screen.
        runs bus screen
        ∙ ap (λ t. returned (a, after t bus screen)) (printed-from_file file (ls a));
  }
  Logged-result file halt ls runs = record { lines = []; runs = runs }
  Logged-result file hang ls runs = record { lines = []; runs = runs }
  Logged-result file fault ls runs = record { lines = []; runs = runs }

  pub Logged-IsReady :
      {A : Type 0} {a : A} {o : Outcome A} (on : Console → Outcome (A × Console)) (c : Console)
      → Logged o on
      → o ≡ returned a
      → IsReady c
      → (d : Console) × (on c ≡ returned (a, d)) × IsReady d
  Logged-IsReady {a = a} on c l e r = (
    after (printed l.lines) r.bus r.screen,
    ap on (r.same)
        ∙ l.runs r.bus r.screen
        ∙ ap (λ o. o >>= (λ b. returned (b, after (printed l.lines) r.bus r.screen))) e,
    record { bus = _; screen = _; same = refl },
  )

  -- An operation that logs nothing
  pub Logged-silent : {A : Type 0} (o : Outcome A) → Logged o (λ c. o >>= (λ a. returned (a, c)))
  Logged-silent o = record {
    lines = [];
    runs = λ bus screen. ap (λ c. o >>= (λ a. returned (a, c))) (after-nil bus screen);
  }

  pub Logged-returned : {A : Type 0} (a : A) → Logged (returned a) (λ c. returned (a, c))
  Logged-returned a = Logged-silent (returned a)

  -- One operation after another
  pub Logged-bind :
      {A B : Type 0} {o : Outcome A} {on : Console → Outcome (A × Console)} {f : A → Outcome B}
      (g : A × Console → Outcome (B × Console))
      → Logged o on
      → ((a : A) → Logged (f a) (λ c. g (a, c)))
      → Logged (o >>= f) (λ c. on c >>= g)
  Logged-bind {o = returned a} {f = f} g first second =
      let next = second a in
      record {
        lines = first.lines ++ next.lines;
        runs = λ bus screen.
            ap (λ r. r >>= g) (first.runs bus screen)
            ∙ next.runs (bus ++ sent (printed first.lines)) (screen ++ printed first.lines)
            ∙ ap (λ c. f a >>= (λ b. returned (b, c)))
                (after-printed first.lines next.lines bus screen);
      }
  Logged-bind {o = halt} g first second = record {
    lines = [];
    runs = λ bus screen. ap (λ r. r >>= g) (first.runs bus screen);
  }
  Logged-bind {o = hang} g first second = record {
    lines = [];
    runs = λ bus screen. ap (λ r. r >>= g) (first.runs bus screen);
  }
  Logged-bind {o = fault} g first second = record {
    lines = [];
    runs = λ bus screen. ap (λ r. r >>= g) (first.runs bus screen);
  }

  -- A first step that logs nothing
  pub Logged-first :
      {A B : Type 0} (o : Outcome A) {f : A → Outcome B} {g : A → Console → Outcome (B × Console)}
      → ((a : A) → Logged (f a) (g a))
      → Logged (o >>= f) (λ c. o >>= (λ a. g a c))
  Logged-first (returned a) next = next a
  Logged-first halt next = record { lines = []; runs = λ bus screen. refl }
  Logged-first hang next = record { lines = []; runs = λ bus screen. refl }
  Logged-first fault next = record { lines = []; runs = λ bus screen. refl }

  pub Logged-if :
      {A : Type 0} (b : Bool) {o p : Outcome A} {on pn : Console → Outcome (A × Console)}
      → Logged o on
      → Logged p pn
      → Logged (if b then o else p) (λ c. if b then on c else pn c)
  Logged-if true first second = first
  Logged-if false first second = second

  -- Log calls before an operation
  pub Logged-log :
      {A : Type 0} (file : String) (ls : List (LogCall F)) {o : Outcome A}
      {on : Console → Outcome (A × Console)}
      → Logged o on
      → Logged o (λ c. log_all npf build file ls c >>= on)
  Logged-log file ls {o} {on} rest =
      let text = texts_of npf build file size ls in
      record {
        lines = from_file file ls ++ rest.lines;
        runs = λ bus screen.
            ap (λ r. r >>= on) (log_all-ready npf build file size ls bus screen)
            ∙ ap (λ t. on (after t bus screen)) (printed-from_file file ls)
            ∙ rest.runs (bus ++ sent (printed (from_file file ls)))
                (screen ++ printed (from_file file ls))
            ∙ ap (λ c. o >>= (λ a. returned (a, c)))
                (after-printed (from_file file ls) rest.lines bus screen);
      }

module _ {F : Type 0} (npf : ℕ → Line F → ℤ × List ℕ) (build : Build) (file : String)
    (size : IsFormatter npf) where
  -- An operation, and the log of what it returned
  pub log-EndsAs :
      {A : Type 0} (o : Outcome A) (lines : A → List (LogCall F))
      → EndsAs o
          (λ a. texts_of npf build file size (lines a))
          (λ c. o >>= (λ a. log_all npf build file (lines a) c >>= (λ d. returned (a, d))))
  log-EndsAs (returned a) lines bus screen =
      ap (λ r. r >>= (λ d. returned (a, d)))
        (log_all-ready npf build file size (lines a) bus screen)
  log-EndsAs halt lines bus screen = refl
  log-EndsAs hang lines bus screen = refl
  log-EndsAs fault lines bus screen = refl
