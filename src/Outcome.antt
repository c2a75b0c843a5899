-- ===== src/Outcome.antt =====
-- How a call of kernel code ends. `halt` is `hcf` of olive/src/sys/cpu.c, which never returns; a
-- `hang` is a spinlock acquired by the CPU that holds it (olive/include/lib/stdlock.h); a `fault`
-- is an access that C leaves undefined.
pub data Outcome {ℓ} (A : Type ℓ) : Type ℓ where
  returned : A → Outcome A
  halt : Outcome A
  hang : Outcome A
  fault : Outcome A

-- A call after another: only a call that returns is followed by the next.
infixl 5 ◌>>=◌
abbrev pub ◌>>=◌ {ℓ κ} : {A : Type ℓ} {B : Type κ} → Outcome A → (A → Outcome B) → Outcome B
returned a >>= f = f a
halt >>= f = halt
hang >>= f = hang
fault >>= f = fault
