-- ===== src/Console.antt =====
-- olive/src/lib/printf.c. `npf_vsnprintf` of olive/include/lib/internal/nanoprintf.h is a
-- parameter: from the size of a buffer and what is to be formatted (`F` stands for a format with
-- its arguments), the length it returns and what the buffer then holds.
pub mod Output
pub mod Interface
pub mod Locked
use fwp_athix.Prelude.{
  ℕ, zero, suc, ◌+◌, Bool, true, false, List, [], ◌∷◌, ◌++◌, if◌then◌else◌, ltb, get_or, ℤ, pos,
  negsuc,
}
use fwp_athix.Lock.{Spinlock, spinlock_acquire, spinlock_release}
use fwp_athix.Ports.{Bus, outb}
use fwp_athix.Outcome.{Outcome, returned, halt, hang, fault, ◌>>=◌}

-- `printf_lock`, whether `ft_ctx` is set, the I/O ports and the characters sent to the terminal.
pub record Console : Type 0 where
  pub lock : Spinlock
  pub ft_ctx : Bool
  pub bus : Bus
  pub screen : List ℕ

abbrev pub com1 : ℕ
com1 = 0x3f8

-- A character goes to COM1 and to the terminal, where there is a terminal.
abbrev pub send : ℕ → Console → Console
send ch c =
    if c.ft_ctx then record c { bus = outb com1 ch c.bus; screen = c.screen ++ (ch ∷ []) } else c

unfoldable pub putchar : ℕ → Console → Outcome (ℕ × Console)
putchar ch c = do
  lock ← spinlock_acquire c.lock
  let sent = send ch c
  returned (ch, record sent { lock = spinlock_release lock })

-- `for (length = 0; *str; length++, putchar(*str++))`, on the characters before the final 0.
unfoldable pub put_string : ℕ → List ℕ → Console → Outcome (ℕ × Console)
unfolding putchar
put_string len [] c = returned (len, c)
put_string len (ch ∷ str) c = do (_, c') ← putchar ch c; put_string (len + 1) str c'

unfoldable pub puts : List ℕ → Console → Outcome (ℕ × Console)
unfolding put_string
puts str c = do
  lock ← spinlock_acquire c.lock
  (len, c1) ← put_string 0 str (record c { lock = lock })
  (_, c2) ← putchar 10 c1
  returned (len + 1, record c2 { lock = spinlock_release c2.lock })

-- `for (; i < i + left; i++) putchar(buffer[i])`
unfoldable pub put_buffer : ℕ → ℕ → List ℕ → Console → Outcome Console
unfolding putchar
put_buffer i zero buffer c = returned c
put_buffer i (suc left) buffer c = do
  (_, c') ← putchar (get_or buffer i 0) c
  put_buffer (i + 1) left buffer c'

abbrev pub buffer_size : ℕ
buffer_size = 1024

-- `length >= 0 && length < (int)sizeof(buffer)`
abbrev pub printed_length : ℤ → ℕ
printed_length (negsuc n) = 0
printed_length (pos n) = if ltb n buffer_size then n else 0

unfoldable pub vfprintf : {F : Type 0} → (ℕ → F → ℤ × List ℕ) → F → Console → Outcome (ℤ × Console)
unfolding put_buffer
vfprintf npf_vsnprintf fmt c = do
  let (len, buffer) = npf_vsnprintf buffer_size fmt
  c' ← put_buffer 0 (printed_length len) buffer c
  returned (len, c')

unfoldable pub vprintf : {F : Type 0} → (ℕ → F → ℤ × List ℕ) → F → Console → Outcome (ℤ × Console)
unfolding vfprintf
vprintf npf_vsnprintf fmt c = vfprintf npf_vsnprintf fmt c

unfoldable pub printf : {F : Type 0} → (ℕ → F → ℤ × List ℕ) → F → Console → Outcome (ℤ × Console)
unfolding vprintf
printf npf_vsnprintf fmt c = vprintf npf_vsnprintf fmt c

unfoldable pub fprintf : {F : Type 0} → (ℕ → F → ℤ × List ℕ) → F → Console → Outcome (ℤ × Console)
unfolding vfprintf
fprintf npf_vsnprintf fmt c = vfprintf npf_vsnprintf fmt c

-- `snprintf(str, size, fmt, ...)`: the length, and what the caller's buffer then holds.
unfoldable pub snprintf : {F : Type 0} → (ℕ → F → ℤ × List ℕ) → ℕ → F → ℤ × List ℕ
snprintf npf_vsnprintf size fmt = npf_vsnprintf size fmt
