-- ===== src/Boot/Banner.antt =====
-- What olive/src/olive.c prints while the kernel starts: the logo and the version.
use Prim.Native.String.{String}
use fwp_athix.Prelude.{ℕ, ◌≡◌, sym, ap, ap₂, ◌∙◌, ℤ, List, [], ◌∷◌, ◌++◌, if◌then◌else◌}
use mathlib.Core.List.{append-nil}
use fwp_athix.Outcome.{Outcome, returned, ◌>>=◌}
use fwp_athix.Ports.{Bus}
use fwp_athix.Console.{Console, printf}
use fwp_athix.Console.Output.{ready, after, sent, after-append, shown, IsFormatter, printf_lem}
use fwp_athix.Log.{Build, Line, text}

-- The formats of olive.c with their arguments.
pub data Text : Type 0 where
  -- A format without arguments
  message : String → Text
  -- `"%s\n"`
  logo_line : String → Text
  -- `"(Olive v%d.%d.%d-%s (%s))\n"`
  version_line : ℕ → ℕ → ℕ → String → String → Text
  -- `"Allocated 1 byte at %p (%c)\n"`
  allocated : ℕ → ℕ → Text

abbrev pub logo : List String
logo =
    "  ___  _ _                 " ∷ " / _ \\| (_)_   _____      " ∷ "| | | | | \\ \\ / / _ \\   "
    ∷ "| |_| | | |\\ V /  __/     " ∷ " \\___/|_|_| \\_/ \\___|   " ∷ []

abbrev pub version : Build → Text
version build =
    version_line build.version_major build.version_minor build.version_patch
      (if build.debug then "debug" else "release") (if build.trace then "trace" else "no trace")

-- A call prints a text when the console is ready.
pub record Prints (f : Console → Outcome Console) (str : List ℕ) : Type 0 where
  pub runs : (bus : Bus) (screen : List ℕ) → f (ready bus screen) ≡ returned (after str bus screen)

Prints-returned : Prints returned []
Prints-returned = record {
  runs = λ bus screen. ap returned (sym (ap₂ ready (append-nil bus) (append-nil screen)));
}

Prints-then :
    {f g : Console → Outcome Console} {xs ys : List ℕ}
    → Prints f xs
    → Prints g ys
    → Prints (λ c. f c >>= g) (xs ++ ys)
Prints-then {f} {g} {xs} {ys} first second = record {
  runs = λ bus screen.
      ap (λ o. o >>= g) (first.runs bus screen)
      ∙ second.runs (bus ++ sent xs) (screen ++ xs)
      ∙ ap returned (after-append xs ys bus screen);
}

module _ (npf : ℕ → Line Text → ℤ × List ℕ) where
  -- The loop over `logo`.
  unfoldable pub print_logo : List String → Console → Outcome Console
  unfolding printf
  print_logo [] c = returned c
  print_logo (line ∷ lines) c = do
    (_, c1) ← printf npf (text (logo_line line)) c
    print_logo lines c1

  unfoldable pub banner : Build → Console → Outcome Console
  unfolding print_logo
  banner build c = do
    c1 ← print_logo logo c
    (_, c2) ← printf npf (text (message "\n")) c1
    (_, c3) ← printf npf (text (version build)) c2
    (_, c4) ← printf npf (text (message "\n")) c3
    returned c4

  -- What one call of `printf` outputs.
  abbrev pub line_text : Text → List ℕ
  line_text t = shown (npf 1024 (text t))

  abbrev pub logo_text : List String → List ℕ
  logo_text [] = []
  logo_text (line ∷ lines) = line_text (logo_line line) ++ logo_text lines

  abbrev pub banner_text : Build → List ℕ
  banner_text build =
      logo_text logo
      ++ (line_text (message "\n")
          ++ (line_text (version build) ++ (line_text (message "\n") ++ [])))

  module _ (size : IsFormatter npf) where
    printf-Prints :
        (t : Text) {g : Console → Outcome Console} {ys : List ℕ}
        → Prints g ys
        → Prints (λ c. printf npf (text t) c >>= (λ r. g r.1)) (line_text t ++ ys)
    printf-Prints t {g} {ys} next = record {
      runs = λ bus screen.
          let xs = line_text t in
          ap (λ o. o >>= (λ r. g r.1)) (printf_lem npf (text t) bus screen size).0
          ∙ next.runs (bus ++ sent xs) (screen ++ xs)
          ∙ ap returned (after-append xs ys bus screen);
    }

    print_logo-Prints : (lines : List String) → Prints (print_logo lines) (logo_text lines)
    unfolding print_logo
    print_logo-Prints [] = Prints-returned
    print_logo-Prints (line ∷ lines) = printf-Prints (logo_line line) (print_logo-Prints lines)

    -- With the lock free, a terminal and a formatter that stays within its buffer, the banner is
    -- the five lines of the logo and the version between two empty lines.
    pub banner-Prints : (build : Build) → Prints (banner build) (banner_text build)
    unfolding banner
    banner-Prints build = Prints-then (print_logo-Prints logo) (
        printf-Prints (message "\n")
          (printf-Prints (version build) (printf-Prints (message "\n") Prints-returned)))
