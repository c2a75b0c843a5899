-- ===== src/Console/Interface.antt =====
-- olive/include/lib/printf.h as its callers see it: what a console prints, and the functions of
-- olive/src/lib/printf.c as its implementation.
use fwp_athix.Prelude.{ℕ, ◌≡◌, refl, sym, ap, ◌∙◌, Bool, true, false, ℤ, List, [], ◌∷◌, ◌++◌}
use fwp_athix.Outcome.{Outcome, returned}
use fwp_athix.Lock.{spinlock_init, spinlock_acquire, spinlock_release, test_and_set}
use fwp_athix.Ports.{outb}
use fwp_athix.Console.{Console, putchar, puts, vprintf, vfprintf, printf, fprintf, snprintf}
use fwp_athix.Console.Output.{ready, after, shown, IsFormatter, printf_lem}

-- The macros that choose what nanoprintf supports.
pub record FormatterConfig : Type 0 where
  pub field_width : Bool
  pub precision : Bool
  pub floats : Bool
  pub large : Bool
  pub binary : Bool
  pub writeback : Bool
  pub safe_trim : Bool

abbrev pub npf_config : FormatterConfig
npf_config = record {
  field_width = true;
  precision = true;
  floats = false;
  large = true;
  binary = false;
  writeback = false;
  safe_trim = true;
}

-- `F` stands for a format with its arguments.
pub record Stdio (F : Type 0) : Type 1 where
  pub State : Type 0
  pub putchar : ℕ → State → Outcome (ℕ × State)
  pub puts : List ℕ → State → Outcome (ℕ × State)
  pub vprintf : F → State → Outcome (ℤ × State)
  pub vfprintf : F → State → Outcome (ℤ × State)
  pub printf : F → State → Outcome (ℤ × State)
  pub fprintf : F → State → Outcome (ℤ × State)
  pub snprintf : ℕ → F → ℤ × List ℕ

-- What a call prints, with a buffer of 1024.
abbrev pub text_of : {F : Type 0} → Stdio F → F → List ℕ
text_of o f = shown (o.snprintf 1024 f)

-- `Ready s` says that the console can print in the state `s`, `output s` is what it has printed. All
-- functions but `puts` print their text, and leave the console ready.
pub record IsLawful {F : Type 0} (o : Stdio F) (Ready : o.State → Type 0)
    (output : o.State → List ℕ) : Type 0 where
  pub char :
      (ch : ℕ) (s : o.State)
      → Ready s
      → (t : o.State) × (o.putchar ch s ≡ returned (ch, t))
        × Ready t
        × (output t ≡ output s ++ (ch ∷ []))
  pub prints :
      (f : F) (s : o.State)
      → Ready s
      → (t : o.State) × (o.printf f s ≡ returned ((o.snprintf 1024 f).0, t))
        × Ready t
        × (output t ≡ output s ++ text_of o f)
  pub by_vprintf : (f : F) (s : o.State) → o.vprintf f s ≡ o.printf f s
  pub by_fprintf : (f : F) (s : o.State) → o.fprintf f s ≡ o.printf f s
  pub by_vfprintf : (f : F) (s : o.State) → o.vfprintf f s ≡ o.printf f s

abbrev pub olive_stdio : {F : Type 0} → (FormatterConfig → ℕ → F → ℤ × List ℕ) → Stdio F
olive_stdio npf_vsnprintf = record {
  State = Console;
  putchar = putchar;
  puts = puts;
  vprintf = vprintf (npf_vsnprintf npf_config);
  vfprintf = vfprintf (npf_vsnprintf npf_config);
  printf = printf (npf_vsnprintf npf_config);
  fprintf = fprintf (npf_vsnprintf npf_config);
  snprintf = snprintf (npf_vsnprintf npf_config);
}

-- The lock is free and the terminal is there.
pub record IsReady (c : Console) : Type 0 where
  pub unlocked : c.lock ≡ spinlock_init
  pub terminal : c.ft_ctx ≡ true

pub IsReady-ready : {c : Console} → IsReady c → ready c.bus c.screen ≡ c
IsReady-ready {c} r = λ i. record {
  lock = sym r.unlocked i;
  ft_ctx = sym r.terminal i;
  bus = c.bus;
  screen = c.screen;
}

-- With a formatter that fills no more of the buffer than it has, the functions of printf.c keep the
-- promises of the header.
pub olive_stdio-IsLawful :
    {F : Type 0} (npf_vsnprintf : FormatterConfig → ℕ → F → ℤ × List ℕ)
    → IsFormatter (npf_vsnprintf npf_config)
    → IsLawful (olive_stdio npf_vsnprintf) IsReady (λ c. c.screen)
unfolding putchar spinlock_acquire spinlock_release test_and_set printf vprintf fprintf snprintf
    outb
olive_stdio-IsLawful npf size = record {
  char = λ ch c r. (
    after (ch ∷ []) c.bus c.screen,
    ap (putchar ch) (sym (IsReady-ready r)),
    record { unlocked = refl; terminal = refl },
    refl,
  );
  prints = λ f c r. (
    after (shown (npf npf_config 1024 f)) c.bus c.screen,
    ap (printf (npf npf_config) f) (sym (IsReady-ready r))
        ∙ (printf_lem (npf npf_config) f c.bus c.screen size).0,
    record { unlocked = refl; terminal = refl },
    refl,
  );
  by_vprintf = λ f c. refl;
  by_fprintf = λ f c. refl;
  by_vfprintf = λ f c. refl;
}
