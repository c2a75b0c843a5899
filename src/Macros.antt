-- ===== src/Macros.antt =====
-- The constants and macros of olive/include/olive.h and olive/include/mm/pmm.h that the memory
-- managers compute with, and the memory map that Limine hands over.
use fwp_athix.Prelude.{
  ℕ, ◌+◌, ◌-◌, ◌*◌, ◌/◌, ◌%◌, ◌^◌, ◌≤◌, ◌<◌, ◌≡◌, Bool, true, false, arith, u64, sub64,
}

abbrev pub page_size : ℕ
page_size = 4096

-- `((x + (y - 1)) / y) * y` on `uint64_t`, at `y = PAGE_SIZE`.
unfoldable pub align_up : ℕ → ℕ
align_up x = u64 (x + (page_size - 1)) / page_size * page_size

unfoldable pub align_down : ℕ → ℕ
align_down x = x / page_size * page_size

-- The entry types of `struct limine_memmap_entry` that the kernel tests for; `other` stands for
-- the rest.
pub data EntryType : Type 0 where
  usable framebuffer bootloader_reclaimable other : EntryType

pub record Entry : Type 0 where
  pub base : ℕ
  pub size : ℕ
  pub kind : EntryType

abbrev pub is_usable : Entry → Bool
is_usable e = elim (e.kind) [ EntryType.usable ↦ true | _ ↦ false ]

-- `VIRT_TO_PHYS` and `PHYS_TO_VIRT`, with `_hhdm_offset` as their first argument.
unfoldable virt_to_phys : ℕ → ℕ → ℕ
virt_to_phys hhdm vaddr = sub64 vaddr hhdm

unfoldable phys_to_virt : ℕ → ℕ → ℕ
phys_to_virt hhdm paddr = u64 (paddr + hhdm)

-- The two macros undo each other on 64-bit addresses, also where the sum wraps around.
virt_to_phys-phys_to_virt :
    (hhdm a : ℕ)
    → hhdm < 2 ^ 64
    → a < 2 ^ 64
    → (virt_to_phys hhdm (phys_to_virt hhdm a) ≡ a) × (phys_to_virt hhdm (virt_to_phys hhdm a) ≡ a)
unfolding virt_to_phys phys_to_virt
virt_to_phys-phys_to_virt hhdm a h ha = (omega arith, omega arith)

-- `ALIGN_UP` to a page rounds up to a page boundary, by less than a page, where the sum it starts
-- from does not overflow.
pub align_up_bounds :
    (x : ℕ)
    → x + 4095 < 2 ^ 64
    → (align_up x % page_size ≡ 0) × (x ≤ align_up x) × (align_up x < x + page_size)
unfolding align_up
align_up_bounds x h = omega arith

pub align_down_bounds :
    (x : ℕ) → (align_down x % page_size ≡ 0) × (align_down x ≤ x) × (x < align_down x + page_size)
unfolding align_down
align_down_bounds x = omega arith
