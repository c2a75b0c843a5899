-- ===== src/Vmm/Init/Quiet.antt =====
-- The log of `vmm_init`, `vmm_map` and `vmm_unmap` of olive/src/mm/vmm.c changes nothing else.
use Prim.Native.String.{String}
use fwp_athix.Prelude.{
  ℕ, zero, suc, ◌+◌, ◌||◌, ℤ, List, [], ◌∷◌, bit_and, bit_or, u64, sub64, ◌>>>◌, ltb, ◌==◌, refl,
}
use fwp_athix.Outcome.{Outcome}
use fwp_athix.Macros.{page_size, align_up, align_down, Entry, EntryType}
use fwp_athix.Cpu.{Registers, get_cpuid}
use fwp_athix.Console.{Console}
use fwp_athix.Console.Output.{IsFormatter}
use fwp_athix.Log.{Build, Line}
use fwp_athix.Log.Series.{LogCall}
use fwp_athix.Log.Quiet.{Logged, Logged-returned, Logged-bind, Logged-if, Logged-log}
use fwp_athix.Log.Message.{Message}
use fwp_athix.Vmm.{Vmm}
use fwp_athix.Vmm.Pte
use fwp_athix.Vmm.Logged.{request-Logged, map-Logged}
use fwp_athix.Vmm.Init.{
  Sections, KernelMap, map_range, enough, map_entry, map_entries, map_section, vmm_init,
}
use fwp_athix.Vmm.Init.Logged.{
  plain, bad_kernel_lines, width_lines, no_pml4_lines, kernel_lines, map_range_logged,
  map_entry_logged, map_entries_logged, map_section_logged, vmm_init_logged,
}

module _ (npf : ℕ → Line Message → ℤ × List ℕ) (build : Build) (pmm_file vmm_file : String)
    (size : IsFormatter npf) where
  map_range-Logged :
      (body : ℕ → Vmm → Outcome Vmm) (logged : ℕ → Vmm → Console → Outcome (Vmm × Console))
      → ((off : ℕ) (s : Vmm) → Logged npf build size (body off s) (logged off s))
      → (fuel off end : ℕ) (s : Vmm)
      → Logged npf build size
          (map_range body fuel off end s)
          (map_range_logged logged fuel off end s)
  unfolding map_range map_range_logged
  map_range-Logged body logged each zero off end s =
      Logged-if npf build size (ltb off end) (record { lines = []; runs = λ bus screen. refl })
        (Logged-returned npf build size s)
  map_range-Logged body logged each (suc fuel) off end s =
      Logged-if npf build size (ltb off end)
        (Logged-bind npf build size _ (each off s)
          (λ t. map_range-Logged body logged each fuel (u64 (off + page_size)) end t))
        (Logged-returned npf build size s)

  -- An entry of each type
  kind-Logged :
      (pml4 base bytes : ℕ) (kind : EntryType) (s : Vmm)
      → let e : Entry = record { base = base; size = bytes; kind = kind } in
        Logged npf build size
          (map_entry pml4 e s)
          (map_entry_logged npf build pmm_file vmm_file pml4 e s)
  unfolding map_entry map_entry_logged
  kind-Logged pml4 base bytes EntryType.usable s =
      map_range-Logged _ _
        (λ off t.
          map-Logged npf build pmm_file vmm_file size pml4 (u64 (off + t.hhdm_offset)) off
            (bit_or Pte.present Pte.read_write) t)
        _ base (u64 (base + bytes)) s
  kind-Logged pml4 base bytes EntryType.framebuffer s =
      map_range-Logged _ _
        (λ off t.
          map-Logged npf build pmm_file vmm_file size pml4 _ (align_up (u64 (base + off)))
            (bit_or (bit_or (bit_or Pte.present Pte.read_write) Pte.execute_disable)
              Pte.write_through_caching)
            t)
        _ 0 (align_up (u64 (base + bytes))) s
  kind-Logged pml4 base bytes EntryType.bootloader_reclaimable s =
      map_range-Logged _ _
        (λ off t.
          map-Logged npf build pmm_file vmm_file size pml4 _ (u64 (base + off))
            (bit_or Pte.present Pte.read_write) t)
        _ 0 (align_up (u64 (base + bytes))) s
  kind-Logged pml4 base bytes EntryType.other s = Logged-returned npf build size s

  map_entries-Logged :
      (pml4 : ℕ) (es : List Entry) (s : Vmm)
      → Logged npf build size
          (map_entries pml4 es s)
          (map_entries_logged npf build pmm_file vmm_file pml4 es s)
  unfolding map_entries map_entries_logged
  map_entries-Logged pml4 [] s = Logged-returned npf build size s
  map_entries-Logged pml4 (e ∷ es) s =
      Logged-bind npf build size _ (kind-Logged pml4 (e.base) (e.size) (e.kind) s)
        (λ t. map_entries-Logged pml4 es t)

  map_section-Logged :
      (lines : List (LogCall Message)) (pml4 kernel_virt kernel_phys flags start end : ℕ) (s : Vmm)
      → Logged npf build size (map_section pml4 kernel_virt kernel_phys flags start end s) (
          map_section_logged npf build pmm_file vmm_file lines pml4 kernel_virt kernel_phys flags
            start end s)
  unfolding map_section map_section_logged
  map_section-Logged lines pml4 kernel_virt kernel_phys flags start end s =
      Logged-log npf build size vmm_file lines (
        map_range-Logged _ _
          (λ addr t.
            map-Logged npf build pmm_file vmm_file size pml4 addr
              (u64 (sub64 addr kernel_virt + kernel_phys)) flags t)
          (enough (align_down start) (align_up end)) (align_down start) (align_up end) s)

  pub vmm_init-Logged :
      (bounds : Sections) (cpuid : ℕ → Registers) (es : List Entry) (kernel_virt kernel_phys : ℕ)
      (k : KernelMap)
      → Logged npf build size
          (vmm_init bounds cpuid es kernel_virt kernel_phys k)
          (vmm_init_logged npf build pmm_file vmm_file bounds cpuid es kernel_virt kernel_phys k)
  unfolding vmm_init vmm_init_logged
  vmm_init-Logged bounds cpuid es kernel_virt kernel_phys k =
      let eax = (get_cpuid cpuid 0x80000008).1.eax in
      let s0 : Vmm = record (k.vmm) {
        physical_address_width = bit_and eax 0xFF;
        linear_address_width = bit_and (eax >>> 8) 0xFF;
      } in
      Logged-if npf build size ((kernel_virt == 0) || (kernel_phys == 0))
        (Logged-log npf build size vmm_file (bad_kernel_lines kernel_virt kernel_phys)
          (Logged-returned npf build size (1, k)))
        (Logged-log npf build size vmm_file (width_lines s0) (
          Logged-bind npf build size _ (request-Logged npf build pmm_file vmm_file size s0.pmm)
            (λ r.
              let pml4 = u64 (r.0 + s0.hhdm_offset) in
              Logged-if npf build size (r.0 == 0)
                (Logged-log npf build size vmm_file no_pml4_lines
                  (Logged-returned npf build size _))
                (Logged-log npf build size vmm_file (kernel_lines pml4 bounds) (
                  Logged-bind npf build size _ (map_entries-Logged pml4 es _) (λ s2.
                    Logged-bind npf build size _
                      (section pml4 "Mapping the kernel text segment\n" _ _ _ s2)
                      (λ s3.
                        Logged-bind npf build size _
                          (section pml4 "Mapping the kernel rodata segment\n" _ _ _ s3)
                          (λ s4.
                            Logged-bind npf build size _
                              (section pml4 "Mapping the kernel data segment\n" _ _ _ s4)
                              (λ s5.
                                Logged-log npf build size vmm_file
                                  (plain "Setting the kernel page map into CR3 and flushing it\n")
                                  (Logged-returned npf build size _))))))))))
    where
      section :
          (pml4 : ℕ) (format : String) (flags start end : ℕ) (s : Vmm)
          → Logged npf build size (map_section pml4 kernel_virt kernel_phys flags start end s) (
              map_section_logged npf build pmm_file vmm_file
                (plain format)
                pml4
                kernel_virt
                kernel_phys
                flags
                start
                end
                s)
      section pml4 format flags start end s =
          map_section-Logged (plain format) pml4 kernel_virt kernel_phys flags start end s
