-- ===== src/Vmm/Init/Ranges.antt =====
-- The loops of `vmm_init` in olive/src/mm/vmm.c: which pages they map, and when it fails.
use fwp_athix.Prelude.{
  ℕ, zero, suc, ◌+◌, ◌-◌, ◌/◌, ◌^◌, ◌<◌, ◌≤◌, ◌≡◌, ◌⊎◌, inl, inr, refl, ap, fun_ext, true,
  Bool-cases, arith, u64, bit_and, ltb, ◌==◌, ◌||◌, List, ◌>>>◌,
}
use fwp_athix.Outcome.{Outcome, returned, ◌>>=◌}
use fwp_athix.Macros.{page_size, Entry}
use fwp_athix.Cpu.{Registers, get_cpuid}
use fwp_athix.Pmm.{request_pages}
use fwp_athix.Vmm.{Vmm}
use fwp_athix.Vmm.Init.{Sections, KernelMap, map_range, enough, map_all, vmm_init}

-- The body for `n` pages in rising order.
unfoldable pub each_page : (ℕ → Vmm → Outcome Vmm) → ℕ → ℕ → Vmm → Outcome Vmm
each_page body off zero s = returned s
each_page body off (suc n) s = body off s >>= each_page body (off + page_size) n

map_range-each_page :
    (body : ℕ → Vmm → Outcome Vmm) (fuel n off end : ℕ) (s : Vmm)
    → end + 4096 ≤ 2 ^ 64
    → n ≡ (end - off + 4095) / 4096
    → n < fuel
    → map_range body fuel off end s ≡ each_page body off n s
unfolding map_range each_page
map_range-each_page body zero n off end s bound count lt = absurd (omega arith)
map_range-each_page body (suc fuel) zero off end s bound count lt = ground arith
map_range-each_page body (suc fuel) (suc n) off end s bound count lt =
    let next : u64 (off + page_size) ≡ off + page_size = omega arith in
    let more : ltb off end ≡ true = ground arith in
    rw (more, next)
      (ap (λ f. body off s >>= f)
        (fun_ext (λ t.
          map_range-each_page body fuel n (off + page_size) end t bound (omega arith)
            (omega arith))))

-- Each mapping loop ends, and has run its body once for each page from `off` that begins below
-- `end`, in rising order, when `end` is at most the last page boundary of the address space.
pub map_all-each_page :
    (body : ℕ → Vmm → Outcome Vmm) (off end : ℕ) (s : Vmm)
    → end + 4096 ≤ 2 ^ 64
    → map_all body off end s ≡ each_page body off ((end - off + 4095) / 4096) s
map_all-each_page body off end s bound =
    map_range-each_page body (enough off end) ((end - off + 4095) / 4096) off end s bound refl
      (omega arith)

-- When an address of the kernel is 0 or no page is free, `vmm_init` returns 1, and the memory, the
-- page allocator and CR3 are as before.
pub vmm_init-refused :
    (bounds : Sections) (cpuid : ℕ → Registers) (es : List Entry) (kernel_virt kernel_phys : ℕ)
    (k : KernelMap)
    → (kernel_virt ≡ 0) ⊎ (kernel_phys ≡ 0) ⊎ (k.vmm.pmm.stack_idx ≡ 0)
    → (t : KernelMap) × (vmm_init bounds cpuid es kernel_virt kernel_phys k ≡ returned (1, t))
      × (t.vmm.mem ≡ k.vmm.mem)
      × (t.vmm.pmm ≡ k.vmm.pmm)
      × (t.vmm.cr3 ≡ k.vmm.cr3)
unfolding vmm_init request_pages
vmm_init-refused bounds cpuid es kernel_virt kernel_phys k why =
    elim (Bool-cases ((kernel_virt == 0) || (kernel_phys == 0))) [
      | inl missing ↦ (k, rw (missing) refl, refl, refl, refl)
      | inr given ↦
          let empty : k.vmm.pmm.stack_idx ≡ 0 = ground (arith, why, given) in
          (
            record {
              vmm = record (k.vmm) {
                physical_address_width = bit_and (get_cpuid cpuid 0x80000008).1.eax 0xFF;
                linear_address_width = bit_and ((get_cpuid cpuid 0x80000008).1.eax >>> 8) 0xFF;
              };
              kernel_pm = record { pml4 = 0 };
            },
            rw (given, empty) refl,
            refl,
            refl,
            refl,
          )
    ]
