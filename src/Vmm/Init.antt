-- ===== src/Vmm/Init.antt =====
-- `vmm_init` of olive/src/mm/vmm.c. The bounds of the kernel's sections, which the linker defines,
-- and what the CPUID instruction returns are parameters.
pub mod Ranges
pub mod Linear
pub mod Plan
pub mod Fresh
pub mod Loops
pub mod Total
pub mod Unlisted
pub mod Starved
pub mod Interface
pub mod Logged
pub mod Quiet
use fwp_athix.Prelude.{
  ℕ, zero, suc, ◌+◌, ◌-◌, ◌/◌, ◌||◌, List, [], ◌∷◌, bit_and, bit_or, u64, sub64, ◌>>>◌, ltb, ◌==◌,
  if◌then◌else◌,
}
use fwp_athix.Outcome.{Outcome, returned, halt, hang, fault, ◌>>=◌}
use fwp_athix.Macros.{page_size, align_up, align_down, Entry, EntryType}
use fwp_athix.Cpu.{Registers, get_cpuid}
use fwp_athix.Pmm.{request_pages}
use fwp_athix.Vmm.{Vmm, Pagemap, zero_page, tlb_flush, vmm_map, vmm_set_pm}
use fwp_athix.Vmm.Pte

-- `__text_start` to `__data_end`
pub record Sections : Type 0 where
  pub text_start : ℕ
  pub text_end : ℕ
  pub rodata_start : ℕ
  pub rodata_end : ℕ
  pub data_start : ℕ
  pub data_end : ℕ

-- The state with `_kernel_pm`
pub record KernelMap : Type 0 where
  pub vmm : Vmm
  pub kernel_pm : Pagemap

-- `for (; off < end; off += PAGE_SIZE) body`. Without fuel, the loop hangs.
unfoldable pub map_range : (ℕ → Vmm → Outcome Vmm) → ℕ → ℕ → ℕ → Vmm → Outcome Vmm
map_range body zero off end s = if ltb off end then hang else returned s
map_range body (suc fuel) off end s =
    if ltb off end
    then (do s' ← body off s; map_range body fuel (u64 (off + page_size)) end s')
    else returned s

-- A round for each page, and one to notice the end. A loop that takes more has wrapped around the
-- address space, and does not end.
abbrev pub enough : ℕ → ℕ → ℕ
enough off end = (end - off) / page_size + 2

abbrev pub map_all : (ℕ → Vmm → Outcome Vmm) → ℕ → ℕ → Vmm → Outcome Vmm
map_all body off end s = map_range body (enough off end) off end s

-- The body of the loop over the memory map.
unfoldable pub map_entry : ℕ → Entry → Vmm → Outcome Vmm
unfolding map_range
map_entry pml4 e s = elim (e.kind) [
  | EntryType.usable ↦
      map_all
        (λ off t.
          vmm_map pml4 (u64 (off + t.hhdm_offset)) off (bit_or Pte.present Pte.read_write) t)
        (e.base) (u64 (e.base + e.size)) s
  | EntryType.framebuffer ↦
      map_all
        (λ off t.
          let at = align_up (u64 (e.base + off)) in
          vmm_map pml4 (u64 (at + t.hhdm_offset)) at
            (bit_or (bit_or (bit_or Pte.present Pte.read_write) Pte.execute_disable)
              Pte.write_through_caching)
            t)
        0 (align_up (u64 (e.base + e.size))) s
  | EntryType.bootloader_reclaimable ↦
      map_all
        (λ off t.
          vmm_map pml4 (u64 (u64 (e.base + off) + t.hhdm_offset)) (u64 (e.base + off))
            (bit_or Pte.present Pte.read_write) t)
        0 (align_up (u64 (e.base + e.size))) s
  | EntryType.other ↦ returned s
]

unfoldable pub map_entries : ℕ → List Entry → Vmm → Outcome Vmm
unfolding map_entry
map_entries pml4 [] s = returned s
map_entries pml4 (e ∷ es) s = do s' ← map_entry pml4 e s; map_entries pml4 es s'

-- The loop over a section of the kernel.
unfoldable pub map_section : ℕ → ℕ → ℕ → ℕ → ℕ → ℕ → Vmm → Outcome Vmm
unfolding map_range
map_section pml4 kernel_virt kernel_phys flags start end s =
    map_all (λ addr t. vmm_map pml4 addr (u64 (sub64 addr kernel_virt + kernel_phys)) flags t)
      (align_down start) (align_up end) s

-- `vmm_init(kernel_virt, kernel_phys)`, with the memory map `es`.
unfoldable pub vmm_init :
    Sections → (ℕ → Registers) → List Entry → ℕ → ℕ → KernelMap → Outcome (ℕ × KernelMap)
unfolding map_entries map_section
vmm_init bounds cpuid es kernel_virt kernel_phys k =
    if (kernel_virt == 0) || (kernel_phys == 0) then returned (1, k) else (do
      let eax = (get_cpuid cpuid 0x80000008).1.eax
      let s0 = record (k.vmm) {
        physical_address_width = bit_and eax 0xFF;
        linear_address_width = bit_and (eax >>> 8) 0xFF;
      }
      (page, pmm) ← request_pages 1 s0.pmm
      let pml4 = u64 (page + s0.hhdm_offset)
      let s1 = record s0 { pmm = pmm; mem = zero_page pml4 s0.mem }
      if page == 0
          then returned
              (1, record { vmm = record s0 { pmm = pmm }; kernel_pm = record { pml4 = 0 } })
          else (do
            s2 ← map_entries pml4 es s1
            s3 ←
                map_section pml4 kernel_virt kernel_phys Pte.present bounds.text_start
                  bounds.text_end s2
            s4 ←
                map_section pml4 kernel_virt kernel_phys (bit_or Pte.present Pte.execute_disable)
                  bounds.rodata_start bounds.rodata_end s3
            s5 ←
                map_section pml4 kernel_virt kernel_phys
                  (bit_or (bit_or Pte.present Pte.read_write) Pte.execute_disable) bounds.data_start
                  bounds.data_end s4
            returned (
              0,
              record { vmm = tlb_flush (vmm_set_pm pml4 s5); kernel_pm = record { pml4 = pml4 } },
            )))
