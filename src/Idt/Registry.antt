-- ===== src/Idt/Registry.antt =====
-- olive/include/sys/idt.h as the drivers see it: a registry of interrupt handlers, one for each
-- IRQ, with olive/src/sys/idt.c as its implementation.
use fwp_athix.Prelude.{
  ℕ, ◌+◌, ◌<◌, ◌≡◌, refl, ap, ◌∙◌, arith, Bool-cases, inl, inr, Option, none, some, List, [], ◌∷◌,
  ℤ, pos, negsuc, leb, ◌==◌, if◌then◌else◌, get_or, set, length, length-set, ltb, true, ==→eq,
  get_or-set_self, get_or-set_ne,
}
use fwp_athix.Outcome.{Outcome, returned, ◌>>=◌}
use fwp_athix.Idt.Init.{
  Idt, irq_index, store_handler, idt_irq_register, idt_irq_deregister, IsSized,
}
use fwp_athix.Idt.Frames.{IntFrame}
use fwp_athix.Idt.Handle.{handle_irq, idt_handler}
use fwp_athix.Idt.Dispatch.{idt_handler-irq}

-- What the drivers of the kernel call, with the number that they pass.
pub data Call (H : Type 0) : Type 0 where
  register : ℤ → H → Call H
  deregister : ℤ → Call H

unfoldable pub make_call : {H : Type 0} → Call H → Idt H → Outcome (Idt H)
unfolding idt_irq_register idt_irq_deregister
make_call (register irq h) s = idt_irq_register irq h s
make_call (deregister irq) s = idt_irq_deregister irq s

unfoldable pub make_calls : {H : Type 0} → List (Call H) → Idt H → Outcome (Idt H)
unfolding make_call
make_calls [] s = returned s
make_calls (c ∷ cs) s = do t ← make_call c s; make_calls cs t

-- The abstract registry: the handler of each IRQ.
abbrev pub Registry : Type 0 → Type 0
Registry H = ℕ → Option H

abbrev pub update : {H : Type 0} → ℤ → Option H → Registry H → Registry H
update (negsuc n) h f i = f i
update (pos n) h f i = if n == i then h else f i

-- The registry after a series of calls: each one replaces the entry of its IRQ.
abbrev pub registry_after : {H : Type 0} → List (Call H) → Registry H → Registry H
registry_after [] f = f
registry_after (register irq h ∷ cs) f = registry_after cs (update irq (some h) f)
registry_after (deregister irq ∷ cs) f = registry_after cs (update irq none f)

abbrev pub handlers_of : {H : Type 0} → Idt H → Registry H
handlers_of s i = get_or s.irq_handlers i none

-- What storing for the number `irq` does: it returns, and only the entry of that IRQ is replaced. A
-- number that is no IRQ stores nothing, as its IRQ is never asked for.
pub record Stored {H : Type 0} (irq : ℤ) (h : Option H) (s : Idt H) : Type 0 where
  pub out : Idt H
  pub runs : store_handler (irq_index irq) h s ≡ returned out
  pub sized : IsSized out
  pub entries : out.entries ≡ s.entries
  pub loaded : out.loaded ≡ s.loaded
  pub registry : (i : ℕ) → i < 16 → handlers_of out i ≡ update irq h (handlers_of s) i

replaced :
    {H : Type 0} (s : Idt H) (n i : ℕ) (h : Option H)
    → IsSized s
    → n < 16
    → get_or (set s.irq_handlers n h) i none ≡ (if n == i then h else get_or s.irq_handlers i none)
replaced s n i h z lt = elim (Bool-cases (n == i)) [
  | inl same ↦ ground (
    arith,
    ap (λ w. get_or (set s.irq_handlers n h) w none) (==→eq n i same),
    get_or-set_self s.irq_handlers n h none (omega (arith, z.handlers)),
  )
  | inr other ↦ ground (arith, get_or-set_ne s.irq_handlers n i h none)
]

pub store_handler-Stored :
    {H : Type 0} (irq : ℤ) (h : Option H) (s : Idt H) → IsSized s → Stored irq h s
store_handler-Stored (negsuc n) h s z = record {
  out = s;
  runs = refl;
  sized = z;
  entries = refl;
  loaded = refl;
  registry = λ i lt. refl;
}
store_handler-Stored (pos n) h s z = elim (Bool-cases (leb 16 n)) [
  | inl above ↦ record {
    out = s;
    runs = rw (above) refl;
    sized = z;
    entries = refl;
    loaded = refl;
    registry = λ i lt. ground arith;
  }
  | inr below ↦
      let lt : n < 16 = ground arith in
      let within : ltb n (length s.irq_handlers) ≡ true = ground (arith, z.handlers) in
      record {
        out = record s { irq_handlers = set s.irq_handlers n h };
        runs = rw (below, within) refl;
        sized = record {
          entries = z.entries;
          handlers = length-set s.irq_handlers n h ∙ z.handlers;
        };
        entries = refl;
        loaded = refl;
        registry = λ i at. replaced s n i h z lt;
      }
]

update-cong :
    {H : Type 0} (irq : ℤ) (h : Option H) (f g : Registry H) (i : ℕ)
    → f i ≡ g i
    → update irq h f i ≡ update irq h g i
update-cong (negsuc n) h f g i e = e
update-cong (pos n) h f g i e = ap (λ o. if n == i then h else o) e

-- The registry after the calls depends on the IRQ's own entry only.
registry-cong :
    {H : Type 0} (cs : List (Call H)) (f g : Registry H) (i : ℕ)
    → f i ≡ g i
    → registry_after cs f i ≡ registry_after cs g i
registry-cong [] f g i e = e
registry-cong (register irq h ∷ cs) f g i e =
    registry-cong cs _ _ i (update-cong irq (some h) f g i e)
registry-cong (deregister irq ∷ cs) f g i e = registry-cong cs _ _ i (update-cong irq none f g i e)

make_calls-Registry :
    {H : Type 0} (cs : List (Call H)) (s : Idt H)
    → IsSized s
    → (t : Idt H) × (make_calls cs s ≡ returned t)
      × ((i : ℕ) → i < 16 → handlers_of t i ≡ registry_after cs (handlers_of s) i)
unfolding make_calls make_call idt_irq_register idt_irq_deregister
make_calls-Registry [] s z = (s, refl, λ i lt. refl)
make_calls-Registry (register irq h ∷ cs) s z =
    let one = store_handler-Stored irq (some h) s z in
    let (t, runs, rest) = make_calls-Registry cs one.out one.sized in
    (
      t,
      ap (λ o. o >>= make_calls cs) one.runs ∙ runs,
      λ i lt. rest i lt ∙ registry-cong cs _ _ i (one.registry i lt),
    )
make_calls-Registry (deregister irq ∷ cs) s z =
    let one = store_handler-Stored irq none s z in
    let (t, runs, rest) = make_calls-Registry cs one.out one.sized in
    (
      t,
      ap (λ o. o >>= make_calls cs) one.runs ∙ runs,
      λ i lt. rest i lt ∙ registry-cong cs _ _ i (one.registry i lt),
    )

pub idt_handler-Registry :
    {H : Type 0} (mem : ℕ → ℕ) (rbp : ℕ) (invoke : H → IntFrame → Idt H → Outcome (Idt H))
    (fuel i : ℕ) (cs : List (Call H)) (frame : IntFrame) (s : Idt H)
    → IsSized s
    → i < 16
    → frame.vector ≡ 32 + i
    → (t : Idt H) × (make_calls cs s ≡ returned t)
      × (idt_handler invoke fuel mem rbp frame t
          ≡ handle_irq invoke i (registry_after cs (handlers_of s) i) frame t)
idt_handler-Registry mem rbp invoke fuel i cs frame s z lt at =
    let (t, runs, registry) = make_calls-Registry cs s z in
    (
      t,
      runs,
      idt_handler-irq mem rbp invoke fuel i frame t at lt
          ∙ ap (λ o. handle_irq invoke i o frame t) (registry i lt),
    )
