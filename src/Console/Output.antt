-- ===== src/Console/Output.antt =====
-- What `printf`, `fprintf` and `puts` of olive/src/lib/printf.c output.
use mathlib.Core.List.{append_assoc, append-nil, map-append}
use fwp_athix.Prelude.{
  ℕ, zero, suc, ◌+◌, ◌≤◌, ◌≡◌, refl, ltb, if◌then◌else◌, sym, ap, ap₂, u8, map, ◌∙◌, true, List, [],
  ◌∷◌, ◌++◌, ℤ, pos, negsuc, arith, get_or, length, take, take-suc,
}
use fwp_athix.Lock.{spinlock_init, spinlock_acquire, spinlock_release, test_and_set}
use fwp_athix.Ports.{Bus, outb_of, outb}
use fwp_athix.Outcome.{Outcome, returned, hang, ◌>>=◌}
use fwp_athix.Console.{
  Console, com1, putchar, put_string, puts, put_buffer, printed_length, vfprintf, vprintf, printf,
  fprintf,
}

-- The lock is free and the terminal is there.
abbrev pub ready : Bus → List ℕ → Console
ready bus screen = record { lock = spinlock_init; ft_ctx = true; bus = bus; screen = screen }

-- The console's lock is free and there is a terminal.
pub record IsReady (c : Console) : Type 0 where
  pub bus : Bus
  pub screen : List ℕ
  pub same : c ≡ ready bus screen

-- The writes to COM1 that send a text.
abbrev pub sent : List ℕ → Bus
sent = map (λ ch. outb_of com1 (u8 ch))

-- A ready console once a text has been printed.
abbrev pub after : List ℕ → Bus → List ℕ → Console
after text bus screen = ready (bus ++ sent text) (screen ++ text)

pub after-append :
    (xs ys : List ℕ) (bus : Bus) (screen : List ℕ)
    → after ys (bus ++ sent xs) (screen ++ xs) ≡ after (xs ++ ys) bus screen
after-append xs ys bus screen =
    ap₂ ready (append_assoc bus (sent xs) (sent ys) ∙ ap (λ t. bus ++ t) (sym (map-append _ xs ys)))
      (append_assoc screen xs ys)

-- The loop has printed the first `i` characters of the buffer, and prints those up to `end`.
put_buffer-ready :
    (i n end : ℕ) (buffer : List ℕ) (bus : Bus) (screen : List ℕ)
    → i + n ≡ end
    → end ≤ length buffer
    → put_buffer i n buffer (after (take i buffer) bus screen)
      ≡ returned (after (take end buffer) bus screen)
unfolding put_buffer putchar spinlock_acquire spinlock_release test_and_set outb
put_buffer-ready i zero end buffer bus screen at h =
    let same : i ≡ end = omega arith in ap (λ e. returned (after (take e buffer) bus screen)) same
put_buffer-ready i (suc n) end buffer bus screen at h =
    ap (put_buffer (i + 1) n buffer) (
      after-append (take i buffer) (get_or buffer i 0 ∷ []) bus screen
      ∙ ap (λ t. after t bus screen) (sym (take-suc i buffer 0 (omega arith)) ∙ next))
    ∙ put_buffer-ready (i + 1) n end buffer bus screen (omega arith) h
  where
    next : take (suc i) buffer ≡ take (i + 1) buffer
    next = let one : suc i ≡ i + 1 = omega arith in ap (λ e. take e buffer) one

-- What `vfprintf` outputs of a length and a buffer
abbrev pub shown : ℤ × List ℕ → List ℕ
shown r = take (printed_length r.0) r.1

printed_length-buffer : (len : ℤ) → printed_length len ≤ 1024
printed_length-buffer (pos n) = ground arith
printed_length-buffer (negsuc n) = omega arith

-- The formatter fills no more of a buffer than it has.
abbrev pub IsFormatter : {F : Type 0} → (ℕ → F → ℤ × List ℕ) → Type 0
IsFormatter {F} npf = (f : F) → length (npf 1024 f).1 ≡ 1024

vfprintf-shown :
    {F : Type 0} (npf : ℕ → F → ℤ × List ℕ) (fmt : F) (bus : Bus) (screen : List ℕ)
    → IsFormatter npf
    → vfprintf npf fmt (ready bus screen)
      ≡ returned ((npf 1024 fmt).0, after (shown (npf 1024 fmt)) bus screen)
unfolding vfprintf
vfprintf-shown npf fmt bus screen size =
    let len = (npf 1024 fmt).0 in
    let buffer = (npf 1024 fmt).1 in
    let put =
      put_buffer-ready 0 (printed_length len) (printed_length len) buffer bus screen (omega arith)
        (omega (arith, size fmt, printed_length-buffer len)) in
    ap (λ o. o >>= (λ c. returned (len, c)))
      (ap (put_buffer 0 (printed_length len) buffer)
          (ap₂ ready (sym (append-nil bus)) (sym (append-nil screen)))
        ∙ put)

-- With the lock free and a terminal, `printf` and `fprintf` return the length that the formatter
-- returned, free the lock again, and send to COM1 and to the terminal the formatted text when it
-- fits the buffer of 1024 with its final 0, and nothing when it does not or the formatter failed.
-- The formatter fills no more of the buffer than it has.
pub printf_lem :
    {F : Type 0} (npf : ℕ → F → ℤ × List ℕ) (fmt : F) (bus : Bus) (screen : List ℕ)
    → IsFormatter npf
    → let r = npf 1024 fmt in
      let expected : Outcome (ℤ × Console) = returned (r.0, after (shown r) bus screen) in
      (printf npf fmt (ready bus screen) ≡ expected)
      × (fprintf npf fmt (ready bus screen) ≡ expected)
unfolding printf vprintf fprintf vfprintf
printf_lem npf fmt bus screen size =
    (vfprintf-shown npf fmt bus screen size, vfprintf-shown npf fmt bus screen size)

-- The text for a length and a buffer: all of it when it fits a buffer of 1024 with its final 0.
abbrev pub whole_text : ℤ → List ℕ → List ℕ
whole_text (negsuc n) buffer = []
whole_text (pos n) buffer = if ltb n 1024 then take n buffer else []

shown-whole_text : (len : ℤ) (buffer : List ℕ) → shown (len, buffer) ≡ whole_text len buffer
shown-whole_text (negsuc n) buffer = refl
shown-whole_text (pos n) buffer = ground arith

-- With the lock free, a terminal and a formatter that fills no more of the buffer than it has:
-- `printf` and `fprintf` return the length that the formatter returned, and free the lock. They send
-- to COM1 and to the terminal the first bytes of the buffer, as many as that length, when it is
-- from 0 to 1023, and nothing when it is negative or larger.
pub printf-text :
    {F : Type 0} (npf : ℕ → F → ℤ × List ℕ) (fmt : F) (bus : Bus) (screen : List ℕ)
    → IsFormatter npf
    → let (len, buffer) = npf 1024 fmt in
      (printf npf fmt (ready bus screen) ≡ returned (len, after (whole_text len buffer) bus screen))
      × (fprintf npf fmt (ready bus screen)
          ≡ returned (len, after (whole_text len buffer) bus screen))
printf-text npf fmt bus screen size =
    let (len, buffer) = npf 1024 fmt in
    let (by_printf, by_fprintf) = printf_lem npf fmt bus screen size in
    let same = ap (λ t. returned (len, after t bus screen)) (shown-whole_text len buffer) in
    (by_printf ∙ same, by_fprintf ∙ same)

-- `puts` never returns, whatever it is given: it holds the lock that `putchar` acquires.
pub puts-hang : (str : List ℕ) (c : Console) → puts str c ≡ hang
unfolding puts put_string putchar spinlock_acquire test_and_set
puts-hang [] c = ground arith
puts-hang (ch ∷ str) c = ground arith
