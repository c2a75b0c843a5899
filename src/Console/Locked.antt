-- ===== src/Console/Locked.antt =====
-- What the functions of olive/src/lib/printf.c do while the console's lock is taken: by this CPU,
-- which an exception has interrupted in `putchar`, or by one that does not release it.
use fwp_athix.Prelude.{ℕ, zero, suc, ◌+◌, ◌≡◌, ◌≢◌, refl, ap, ℤ, List, ne→==, get_or}
use fwp_athix.Outcome.{returned, hang, ◌>>=◌}
use fwp_athix.Lock.{spinlock_acquire, test_and_set}
use fwp_athix.Console.{Console, putchar, put_buffer, printed_length, vfprintf, vprintf, printf}

putchar-locked : (ch : ℕ) (c : Console) → c.lock.locked ≢ 0 → putchar ch c ≡ hang
unfolding putchar spinlock_acquire test_and_set
putchar-locked ch c taken = rw (ne→== c.lock.locked 0 taken) refl

put_buffer-locked :
    (i n : ℕ) (buffer : List ℕ) (c : Console)
    → c.lock.locked ≢ 0
    → n ≢ 0
    → put_buffer i n buffer c ≡ hang
unfolding put_buffer
put_buffer-locked i zero buffer c taken ne = absurd (ne refl)
put_buffer-locked i (suc n) buffer c taken ne =
    ap (λ o. o >>= (λ r. put_buffer (i + 1) n buffer r.1))
      (putchar-locked (get_or buffer i 0) c taken)

-- While the lock is taken, a `printf` that has anything to print hangs.
pub printf-locked :
    {F : Type 0} (npf : ℕ → F → ℤ × List ℕ) (fmt : F) (c : Console)
    → c.lock.locked ≢ 0
    → printed_length (npf 1024 fmt).0 ≢ 0
    → printf npf fmt c ≡ hang
unfolding printf vprintf vfprintf
printf-locked npf fmt c taken ne =
    ap (λ o. o >>= (λ c'. returned ((npf 1024 fmt).0, c')))
      (put_buffer-locked 0 (printed_length (npf 1024 fmt).0) (npf 1024 fmt).1 c taken ne)
