-- ===== src/Idt/Gate.antt =====
-- `idt_entry_t` and `idt_set_gate` of olive/src/sys/idt.c: a 64-bit handler address in three parts.
use fwp_athix.Prelude.{
  ℕ, ◌+◌, ◌*◌, ◌/◌, ◌^◌, ◌<◌, ◌≡◌, List, arith, bit_and, bit_and_mask, ◌>>>◌, set,
}

pub record IdtEntry : Type 0 where
  pub offset_low : ℕ
  pub selector : ℕ
  pub ist : ℕ
  pub flags : ℕ
  pub offset_middle : ℕ
  pub offset_high : ℕ
  pub zero : ℕ

-- The fields that `idt_set_gate` writes.
unfoldable pub gate : ℕ → ℕ → ℕ → IdtEntry
gate base sel flags = record {
  offset_low = bit_and base 0xFFFF;
  selector = sel;
  ist = 0;
  flags = flags;
  offset_middle = bit_and (base >>> 16) 0xFFFF;
  offset_high = bit_and (base >>> 32) 0xFFFFFFFF;
  zero = 0;
}

-- `idt_set_gate(idt, num, base, sel, flags)`
unfoldable pub idt_set_gate : List IdtEntry → ℕ → ℕ → ℕ → ℕ → List IdtEntry
idt_set_gate idt num base sel flags = set idt num (gate base sel flags)

-- The address that the processor puts together from a gate.
abbrev pub target : IdtEntry → ℕ
target e = e.offset_low + e.offset_middle * 2 ^ 16 + e.offset_high * 2 ^ 32

-- The processor finds the handler's address in the gate, for every 64-bit address, and each part
-- fits its field.
pub target-gate :
    (base sel flags : ℕ)
    → base < 2 ^ 64
    → (target (gate base sel flags) ≡ base)
      × ((gate base sel flags).offset_low < 2 ^ 16)
      × ((gate base sel flags).offset_middle < 2 ^ 16)
      × ((gate base sel flags).offset_high < 2 ^ 32)
unfolding gate
target-gate base sel flags h =
    omega (
      arith,
      bit_and_mask 16 base,
      bit_and_mask 16 (base / 2 ^ 16),
      bit_and_mask 32 (base / 2 ^ 32),
    )
