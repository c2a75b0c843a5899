-- ===== src/Vmm/Init/Logged.antt =====
-- `vmm_init` of olive/src/mm/vmm.c with its log and the log of the functions that it calls, on the
-- console.
use Prim.Native.String.{String}
use fwp_athix.Prelude.{
  ℕ, zero, suc, ◌+◌, ◌||◌, ℤ, List, [], ◌∷◌, bit_and, bit_or, u64, sub64, ◌>>>◌, ltb, ◌==◌,
  if◌then◌else◌,
}
use fwp_athix.Outcome.{Outcome, returned, hang, ◌>>=◌}
use fwp_athix.Macros.{page_size, align_up, align_down, Entry, EntryType}
use fwp_athix.Cpu.{Registers, get_cpuid}
use fwp_athix.Console.{Console}
use fwp_athix.Log.{Build, Line, error_level, debug_level, trace_level}
use fwp_athix.Log.Series.{LogCall, log_all}
use fwp_athix.Log.Message.{Message, number, call}
use fwp_athix.Vmm.{Vmm, zero_page, tlb_flush, vmm_set_pm}
use fwp_athix.Vmm.Pte
use fwp_athix.Pmm.Logged.{request_on_console}
use fwp_athix.Vmm.Logged.{map_logged}
use fwp_athix.Vmm.Init.{Sections, KernelMap, enough}

abbrev pub plain : String → List (LogCall Message)
plain format = call debug_level format [] ∷ []

abbrev pub bad_kernel_lines : ℕ → ℕ → List (LogCall Message)
bad_kernel_lines kernel_virt kernel_phys =
    call error_level
      "Kernel virtual or physical addresses are zero, Virtual: 0x%.16llx, Physical: 0x%.16llx\n"
      (number kernel_virt ∷ number kernel_phys ∷ [])
    ∷ []

-- Before the page for the PML4 is requested
abbrev pub width_lines : Vmm → List (LogCall Message)
width_lines s =
    call trace_level "Getting CPUID for address widths\n" []
    ∷ call debug_level "Physical Address Width: %lu / Linear Address Width: %lu\n"
        (number s.physical_address_width ∷ number s.linear_address_width ∷ [])
    ∷ []

abbrev pub no_pml4_lines : List (LogCall Message)
no_pml4_lines = call error_level "Failed to allocate memory for PML4\n" [] ∷ []

-- From the PML4 to the loop over the memory map
abbrev pub kernel_lines : ℕ → Sections → List (LogCall Message)
kernel_lines pml4 bounds =
    let rodata_end = align_up bounds.rodata_end in
    let data_end = align_up bounds.data_end in
    call trace_level "Kernel PML4: 0x%.16llx\n" (number pml4 ∷ [])
    ∷ call trace_level "Zeroed PML4\n" []
    ∷ call debug_level "Kernel Base Address: 0x%llx\n" (number (align_down bounds.text_start) ∷ [])
    ∷ call debug_level "Kernel Highest Address: 0x%llx\n"
        (number (if ltb rodata_end data_end then data_end else rodata_end) ∷ [])
    ∷ call debug_level "Mapping usable memory and framebuffer\n" []
    ∷ []

-- The loop of `map_range`
unfoldable pub map_range_logged :
    (ℕ → Vmm → Console → Outcome (Vmm × Console))
    → ℕ
    → ℕ
    → ℕ
    → Vmm
    → Console
    → Outcome (Vmm × Console)
map_range_logged body zero off end s c = if ltb off end then hang else returned (s, c)
map_range_logged body (suc fuel) off end s c =
    if ltb off end
    then (do (s', c') ← body off s c; map_range_logged body fuel (u64 (off + page_size)) end s' c')
    else returned (s, c)

abbrev pub map_all_logged :
    (ℕ → Vmm → Console → Outcome (Vmm × Console)) → ℕ → ℕ → Vmm → Console → Outcome (Vmm × Console)
map_all_logged body off end s c = map_range_logged body (enough off end) off end s c

module _ (npf : ℕ → Line Message → ℤ × List ℕ) (build : Build) (pmm_file vmm_file : String) where
  unfoldable pub map_entry_logged : ℕ → Entry → Vmm → Console → Outcome (Vmm × Console)
  unfolding map_range_logged
  map_entry_logged pml4 e s c = elim (e.kind) [
    | EntryType.usable ↦
        map_all_logged
          (λ off t c'.
            map_logged npf build pmm_file vmm_file pml4 (u64 (off + t.hhdm_offset)) off
              (bit_or Pte.present Pte.read_write) t c')
          (e.base) (u64 (e.base + e.size)) s c
    | EntryType.framebuffer ↦
        map_all_logged
          (λ off t c'.
            let at = align_up (u64 (e.base + off)) in
            map_logged npf build pmm_file vmm_file pml4 (u64 (at + t.hhdm_offset)) at
              (bit_or (bit_or (bit_or Pte.present Pte.read_write) Pte.execute_disable)
                Pte.write_through_caching)
              t c')
          0 (align_up (u64 (e.base + e.size))) s c
    | EntryType.bootloader_reclaimable ↦
        map_all_logged
          (λ off t c'.
            map_logged npf build pmm_file vmm_file pml4 (u64 (u64 (e.base + off) + t.hhdm_offset))
              (u64 (e.base + off)) (bit_or Pte.present Pte.read_write) t c')
          0 (align_up (u64 (e.base + e.size))) s c
    | EntryType.other ↦ returned (s, c)
  ]

  unfoldable pub map_entries_logged : ℕ → List Entry → Vmm → Console → Outcome (Vmm × Console)
  unfolding map_entry_logged
  map_entries_logged pml4 [] s c = returned (s, c)
  map_entries_logged pml4 (e ∷ es) s c = do
    (s', c') ← map_entry_logged pml4 e s c
    map_entries_logged pml4 es s' c'

  -- `lines` is the log before the loop.
  unfoldable pub map_section_logged :
      List (LogCall Message) → ℕ → ℕ → ℕ → ℕ → ℕ → ℕ → Vmm → Console → Outcome (Vmm × Console)
  unfolding map_range_logged log_all
  map_section_logged lines pml4 kernel_virt kernel_phys flags start end s c = do
    c1 ← log_all npf build vmm_file lines c
    map_all_logged
        (λ addr t c'.
          map_logged npf build pmm_file vmm_file pml4 addr
            (u64 (sub64 addr kernel_virt + kernel_phys)) flags t c')
        (align_down start) (align_up end) s c1

  unfoldable pub vmm_init_logged :
      Sections
      → (ℕ → Registers)
      → List Entry
      → ℕ
      → ℕ
      → KernelMap
      → Console
      → Outcome ((ℕ × KernelMap) × Console)
  unfolding map_entries_logged map_section_logged request_on_console log_all
  vmm_init_logged bounds cpuid es kernel_virt kernel_phys k c =
      if (kernel_virt == 0) || (kernel_phys == 0)
      then (do
        c' ← log_all npf build vmm_file (bad_kernel_lines kernel_virt kernel_phys) c
        returned ((1, k), c'))
      else (do
        let eax = (get_cpuid cpuid 0x80000008).1.eax
        let s0 = record (k.vmm) {
          physical_address_width = bit_and eax 0xFF;
          linear_address_width = bit_and (eax >>> 8) 0xFF;
        }
        c0 ← log_all npf build vmm_file (width_lines s0) c
        ((page, pmm), c1) ← request_on_console npf build pmm_file 1 s0.pmm c0
        let pml4 = u64 (page + s0.hhdm_offset)
        let s1 = record s0 { pmm = pmm; mem = zero_page pml4 s0.mem }
        if page == 0
            then (do
              c2 ← log_all npf build vmm_file no_pml4_lines c1
              returned (
                (1, record { vmm = record s0 { pmm = pmm }; kernel_pm = record { pml4 = 0 } }),
                c2,
              ))
            else (do
              c2 ← log_all npf build vmm_file (kernel_lines pml4 bounds) c1
              (s2, c3) ← map_entries_logged pml4 es s1 c2
              (s3, c4) ←
                  map_section_logged (plain "Mapping the kernel text segment\n") pml4 kernel_virt
                    kernel_phys Pte.present bounds.text_start bounds.text_end s2 c3
              (s4, c5) ←
                  map_section_logged (plain "Mapping the kernel rodata segment\n") pml4 kernel_virt
                    kernel_phys (bit_or Pte.present Pte.execute_disable) bounds.rodata_start
                    bounds.rodata_end s3 c4
              (s5, c6) ←
                  map_section_logged (plain "Mapping the kernel data segment\n") pml4 kernel_virt
                    kernel_phys (bit_or (bit_or Pte.present Pte.read_write) Pte.execute_disable)
                    bounds.data_start bounds.data_end s4 c5
              c7 ←
                  log_all npf build vmm_file
                    (plain "Setting the kernel page map into CR3 and flushing it\n") c6
              returned (
                (
                  0,
                  record {
                    vmm = tlb_flush (vmm_set_pm pml4 s5);
                    kernel_pm = record { pml4 = pml4 };
                  },
                ),
                c7,
              )))
