-- ===== src/Idt/Init.antt =====
-- `idt_init`, `idt_irq_register` and `idt_irq_deregister` of olive/src/sys/idt.c.
use fwp_athix.Prelude.{
  ℕ, zero, suc, ◌+◌, ◌-◌, ◌*◌, ◌≤◌, ◌<◌, ◌≡◌, inl, inr, refl, ap, ◌∙◌, Bool-cases, ◌&&◌, Option,
  none, some, List, arith, ltb, leb, ◌==◌, if◌then◌else◌, length, get_or, set, ℤ, pos, negsuc,
  length-set, get_or-set_self, get_or-set_ne, ==→eq,
}
use fwp_athix.Outcome.{Outcome, returned, fault}
use fwp_athix.Idt.Gate.{IdtEntry, gate, idt_set_gate}

abbrev pub idt_entry_count : ℕ
idt_entry_count = 256

abbrev pub irq_base : ℕ
irq_base = 0x20

abbrev pub irq_count : ℕ
irq_count = 16

-- `idt_pointer_t`, with the table that `base` points to.
pub record IdtPointer : Type 0 where
  pub limit : ℕ
  pub base : List IdtEntry

-- The globals of idt.c. `loaded` is what `lidt` was given: limit and table. `H` is the type of
-- function pointers.
pub record Idt (H : Type 0) : Type 0 where
  pub entries : List IdtEntry
  pub limit : ℕ
  pub irq_handlers : List (Option H)
  pub loaded : Option IdtPointer

-- `for (; i < i + left; i++) irq_handlers[i] = NULL`
unfoldable pub clear_handlers : {H : Type 0} → ℕ → ℕ → List (Option H) → List (Option H)
clear_handlers i zero hs = hs
clear_handlers i (suc left) hs = clear_handlers (i + 1) left (set hs i none)

-- `for (; i < i + left; i++) idt_set_gate(idt_entries, i, isr_table[i], 0x08, 0x8E)`
unfoldable pub set_gates : (ℕ → ℕ) → ℕ → ℕ → List IdtEntry → List IdtEntry
set_gates isr_table i zero es = es
set_gates isr_table i (suc left) es =
    set_gates isr_table (i + 1) left (idt_set_gate es i (isr_table i) 0x08 0x8E)

-- `idt_load` of olive/src/sys/idt.asm: `lidt` gives the processor the limit and the table; then
-- interrupts are enabled.
abbrev pub idt_load : {H : Type 0} → IdtPointer → Idt H → Idt H
idt_load pointer s = record s { loaded = some pointer }

-- `idt_init`; an `idt_entry_t` has 16 bytes.
unfoldable pub idt_init : {H : Type 0} → (ℕ → ℕ) → Idt H → ℕ × Idt H
idt_init isr_table s =
    let limit = 16 * idt_entry_count - 1 in
    let handlers = clear_handlers 0 irq_count s.irq_handlers in
    let exceptions = set_gates isr_table 0 32 s.entries in
    let entries = set_gates isr_table irq_base irq_count exceptions in
    (
      0,
      idt_load (record { limit = limit; base = entries })
          (record s { entries = entries; limit = limit; irq_handlers = handlers }),
    )

-- `irq < 0 || irq >= IRQ_COUNT` fails.
abbrev pub irq_index : ℤ → Option ℕ
irq_index (negsuc n) = none
irq_index (pos n) = if leb irq_count n then none else some n

-- `irq_handlers[i] = h`; a store outside the array is undefined.
abbrev pub store_handler : {H : Type 0} → Option ℕ → Option H → Idt H → Outcome (Idt H)
store_handler none h s = returned s
store_handler (some i) h s =
    if ltb i (length s.irq_handlers)
    then returned (record s { irq_handlers = set s.irq_handlers i h })
    else fault

unfoldable pub idt_irq_register : {H : Type 0} → ℤ → H → Idt H → Outcome (Idt H)
idt_irq_register irq handler s = store_handler (irq_index irq) (some handler) s

unfoldable pub idt_irq_deregister : {H : Type 0} → ℤ → Idt H → Outcome (Idt H)
idt_irq_deregister irq s = store_handler (irq_index irq) none s

abbrev pub no_gate : IdtEntry
no_gate = record {
  offset_low = 0;
  selector = 0;
  ist = 0;
  flags = 0;
  offset_middle = 0;
  offset_high = 0;
  zero = 0;
}

pub length-set_gates :
    (isr : ℕ → ℕ) (i n : ℕ) (es : List IdtEntry) → length (set_gates isr i n es) ≡ length es
unfolding set_gates idt_set_gate
length-set_gates isr i zero es = refl
length-set_gates isr i (suc n) es =
    length-set_gates isr (i + 1) n (set es i (gate (isr i) 0x08 0x8E))
    ∙ length-set es i (gate (isr i) 0x08 0x8E)

-- The loop writes the gates from `i` to `i + n`, and no others.
set_gates-get_or :
    (isr : ℕ → ℕ) (i n : ℕ) (es : List IdtEntry) (v : ℕ)
    → i + n ≤ length es
    → get_or (set_gates isr i n es) v no_gate
      ≡ (if leb i v && ltb v (i + n) then gate (isr v) 0x08 0x8E else get_or es v no_gate)
unfolding set_gates idt_set_gate
set_gates-get_or isr i zero es v h = ground arith
set_gates-get_or isr i (suc n) es v h = elim (Bool-cases (i == v)) [
  | inl same ↦
      let at : i ≡ v = ==→eq i v same in
      ground (
        arith,
        set_gates-get_or isr (i + 1) n (set es i (gate (isr i) 0x08 0x8E)) v
            (omega (arith, length-set es i (gate (isr i) 0x08 0x8E))),
        ap (λ w. get_or (set es i (gate (isr i) 0x08 0x8E)) w no_gate) at,
        ap (λ w. gate (isr w) 0x08 0x8E) at,
        get_or-set_self es i (gate (isr i) 0x08 0x8E) no_gate (omega arith),
      )
  | inr other ↦ ground (
    arith,
    set_gates-get_or isr (i + 1) n (set es i (gate (isr i) 0x08 0x8E)) v
        (omega (arith, length-set es i (gate (isr i) 0x08 0x8E))),
    get_or-set_ne es i v (gate (isr i) 0x08 0x8E) no_gate,
  )
]

length-clear_handlers :
    {H : Type 0} (i n : ℕ) (hs : List (Option H)) → length (clear_handlers i n hs) ≡ length hs
unfolding clear_handlers
length-clear_handlers i zero hs = refl
length-clear_handlers i (suc n) hs =
    length-clear_handlers (i + 1) n (set hs i none) ∙ length-set hs i none

-- The loop clears the handlers from `i` to `i + n`, and no others.
clear_handlers-get_or :
    {H : Type 0} (i n : ℕ) (hs : List (Option H)) (v : ℕ)
    → i + n ≤ length hs
    → get_or (clear_handlers i n hs) v none
      ≡ (if leb i v && ltb v (i + n) then none else get_or hs v none)
unfolding clear_handlers
clear_handlers-get_or i zero hs v h = ground arith
clear_handlers-get_or i (suc n) hs v h = elim (Bool-cases (i == v)) [
  | inl same ↦ ground (
    arith,
    clear_handlers-get_or (i + 1) n (set hs i none) v (omega (arith, length-set hs i none)),
    ap (λ w. get_or (set hs i none) w none) (==→eq i v same),
    get_or-set_self hs i none none (omega arith),
  )
  | inr other ↦ ground (
    arith,
    clear_handlers-get_or (i + 1) n (set hs i none) v (omega (arith, length-set hs i none)),
    get_or-set_ne hs i v none none,
  )
]

-- The arrays have their declared sizes.
pub record IsSized {H : Type 0} (s : Idt H) : Type 0 where
  pub entries : length s.entries ≡ idt_entry_count
  pub handlers : length s.irq_handlers ≡ irq_count

-- With arrays of their declared sizes: after `idt_init` the processor uses the kernel's table: the
-- gates of the 32 exceptions and of the 16 IRQs at 0x20 hold the stub of their own vector, as
-- ring-0 interrupt gates of selector 8, every other gate is as before, and no IRQ has a handler.
pub idt_init_lem :
    {H : Type 0} (isr : ℕ → ℕ) (s : Idt H)
    → IsSized s
    → let t = (idt_init isr s).1 in
      ((v : ℕ)
        → get_or t.entries v no_gate
          ≡ (if ltb v 48 then gate (isr v) 0x08 0x8E else get_or s.entries v no_gate))
      × ((i : ℕ) → i < irq_count → get_or t.irq_handlers i none ≡ none)
      × (t.loaded ≡ some (record { limit = 4095; base = t.entries }))
      × IsSized t
unfolding idt_init
idt_init_lem isr s z = (
  (λ v. ground (
    arith,
    set_gates-get_or isr 0x20 16 (set_gates isr 0 32 s.entries) v
        (omega (arith, length-set_gates isr 0 32 s.entries, z.entries)),
    set_gates-get_or isr 0 32 s.entries v (omega (arith, z.entries)),
  )),
  (λ i lt. ground (arith, clear_handlers-get_or 0 16 s.irq_handlers i (omega (arith, z.handlers)))),
  refl,
  record {
    entries =
        length-set_gates isr 0x20 16 (set_gates isr 0 32 s.entries)
        ∙ length-set_gates isr 0 32 s.entries
        ∙ z.entries;
    handlers = length-clear_handlers 0 16 s.irq_handlers ∙ z.handlers;
  },
)
