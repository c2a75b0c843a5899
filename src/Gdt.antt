-- ===== src/Gdt.antt =====
-- olive/src/sys/gdt.c and olive/include/sys/gdt.h: the segment descriptors. `gdt_flush` loads the
-- table and the segment registers; its instructions are the assignments to `Segments`.
pub mod Logged
use fwp_athix.Prelude.{
  ℕ, ◌+◌, ◌-◌, ◌*◌, ◌/◌, ◌<◌, ◌≡◌, refl, sym, subst, ◌∙◌, Option, none, some, List, [], ◌∷◌,
  bit_and, length, get_elem?, u16, ltb, if◌then◌else◌, ap, get_or, arith,
}
use fwp_athix.Idt.Gate.{gate}
use fwp_athix.Idt.Init.{Idt, idt_init, idt_init_lem, no_gate, IsSized}

pub record GdtEntry : Type 0 where
  pub limit_low : ℕ
  pub base_low : ℕ
  pub base_mid : ℕ
  pub access_byte : ℕ
  pub limit_high_and_flags : ℕ
  pub base_high : ℕ

-- The selectors in the segment registers and the table that `lgdt` was given.
pub record Segments : Type 0 where
  pub limit : ℕ
  pub table : List GdtEntry
  pub cs : ℕ
  pub data_segments : ℕ

abbrev descriptor : ℕ → ℕ → GdtEntry
descriptor access flags = record {
  limit_low = 0;
  base_low = 0;
  base_mid = 0;
  access_byte = access;
  limit_high_and_flags = flags;
  base_high = 0;
}

-- The assignments to `gdt_entries`
unfoldable pub gdt_entries : List GdtEntry
gdt_entries =
    descriptor 0 0
    ∷ descriptor 0x9A 0xA0
    ∷ descriptor 0x92 0xA0
    ∷ descriptor 0xFA 0xA0
    ∷ descriptor 0xF2 0xA0
    ∷ []

-- `lgdt`, the far return to selector 8, and 0x10 in es, ss, gs, ds and fs.
unfoldable pub gdt_flush : ℕ → List GdtEntry → Segments
gdt_flush limit table = record { limit = limit; table = table; cs = 0x8; data_segments = 0x10 }

-- `gdt_init`; a `gdt_entry_t` has 8 bytes.
unfoldable pub gdt_init : ℕ × Segments
unfolding gdt_flush gdt_entries
gdt_init = (0, gdt_flush (u16 (8 * length gdt_entries - 1)) gdt_entries)

-- The descriptor that a selector names, when the processor finds it within the limit.
unfoldable pub lookup : Segments → ℕ → Option GdtEntry
lookup s selector =
    if ltb (selector / 8 * 8 + 7) (s.limit + 1) then get_elem? s.table (selector / 8) else none

-- A present segment of ring 0 with code for 64-bit mode
pub record IsKernelCode (e : GdtEntry) : Type 0 where
  pub present : bit_and e.access_byte 0x80 ≡ 0x80
  pub ring : bit_and e.access_byte 0x60 ≡ 0
  pub segment : bit_and e.access_byte 0x10 ≡ 0x10
  pub executable : bit_and e.access_byte 0x08 ≡ 0x08
  pub long_mode : bit_and e.limit_high_and_flags 0x20 ≡ 0x20

-- A present, writable data segment of ring 0
pub record IsKernelData (e : GdtEntry) : Type 0 where
  pub present : bit_and e.access_byte 0x80 ≡ 0x80
  pub ring : bit_and e.access_byte 0x60 ≡ 0
  pub segment : bit_and e.access_byte 0x10 ≡ 0x10
  pub data' : bit_and e.access_byte 0x08 ≡ 0
  pub writable : bit_and e.access_byte 0x02 ≡ 0x02

-- The segment that a selector names.
abbrev pub Names : Segments → ℕ → (GdtEntry → Type 0) → Type 0
Names g selector P = (e : GdtEntry) × (lookup g selector ≡ some e) × P e

-- olive/include/sys/gdt.h: `gdt_flush` loads a table and the selectors of the kernel's segments, and
-- the table of `gdt_init` has these segments.
pub record SegmentTable : Type 0 where
  pub gdt_init : ℕ × Segments
  pub gdt_flush : ℕ → List GdtEntry → Segments
  pub succeeds : gdt_init.0 ≡ 0
  pub flushed : (limit : ℕ) × (table : List GdtEntry) × (gdt_init.1 ≡ gdt_flush limit table)
  pub selectors :
      (limit : ℕ) (table : List GdtEntry)
      → ((gdt_flush limit table).cs ≡ 8) × ((gdt_flush limit table).data_segments ≡ 16)
  pub code : Names gdt_init.1 8 IsKernelCode
  pub data' : Names gdt_init.1 16 IsKernelData

kernel_code : Names gdt_init.1 8 IsKernelCode
unfolding gdt_init lookup gdt_entries gdt_flush
kernel_code = (
  descriptor 0x9A 0xA0,
  refl,
  record { present = refl; ring = refl; segment = refl; executable = refl; long_mode = refl },
)

kernel_data : Names gdt_init.1 16 IsKernelData
unfolding gdt_init lookup gdt_entries gdt_flush
kernel_data = (
  descriptor 0x92 0xA0,
  refl,
  record { present = refl; ring = refl; segment = refl; data' = refl; writable = refl },
)

olive_gdt : SegmentTable
unfolding gdt_init gdt_flush
olive_gdt = record {
  gdt_init = gdt_init;
  gdt_flush = gdt_flush;
  succeeds = refl;
  flushed = (39, gdt_entries, refl);
  selectors = λ limit table. (refl, refl);
  code = kernel_code;
  data' = kernel_data;
}

-- Once `gdt_init` has loaded the segments of gdt.c, and `idt_init` has run on arrays of their declared
-- sizes: the kernel runs in a code segment within the limit, present, of ring 0 and for 64-bit
-- mode, the selector of each of the 48 gates names it, and the data segment registers name a
-- present, writable segment of ring 0.
pub gate-IsKernelCode :
    {H : Type 0} (isr : ℕ → ℕ) (s : Idt H) (v : ℕ)
    → IsSized s
    → v < 48
    → let g = gdt_init.1 in
      let selector = (get_or (idt_init isr s).1.entries v no_gate).selector in
      (selector ≡ g.cs) × Names g selector IsKernelCode × Names g g.data_segments IsKernelData
unfolding gate gdt_init gdt_flush
gate-IsKernelCode isr s v z lt =
    let at : get_or (idt_init isr s).1.entries v no_gate ≡ gate (isr v) 8 0x8E =
      ground (arith, (idt_init_lem isr s z).0 v) in
    let sel : (get_or (idt_init isr s).1.entries v no_gate).selector ≡ 8 =
      ap (λ g. g.selector) at in
    (sel, subst (λ n. Names gdt_init.1 n IsKernelCode) (sym sel) kernel_code, kernel_data)
