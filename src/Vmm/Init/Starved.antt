-- ===== src/Vmm/Init/Starved.antt =====
-- `vmm_init` of olive/src/mm/vmm.c when the one free page becomes the PML4.
use fwp_athix.Prelude.{
  ℕ, zero, suc, ◌+◌, ◌-◌, ◌/◌, ◌^◌, ◌≤◌, ◌≡◌, ◌≢◌, refl, ap, ◌∙◌, arith, none, List, [], ◌∷◌, All,
  length, u64, bit_or, ne→==, if◌then◌else◌,
}
use fwp_athix.Outcome.{Outcome, returned, ◌>>=◌}
use fwp_athix.Cpu.{Registers, get_cpuid}
use fwp_athix.Macros.{page_size, align_up, Entry, EntryType}
use fwp_athix.Pmm.{Pmm, request_pages}
use fwp_athix.Pmm.Refine.{length-live}
use fwp_athix.Vmm.{
  Vmm, vmm_map, is_present, pml4_index, pdpt_index, pd_index, pt_index, tlb_flush, vmm_set_pm,
}
use fwp_athix.Vmm.Pte
use fwp_athix.Vmm.Entry.{frame_of}
use fwp_athix.Vmm.Walk.{dest}
use fwp_athix.Vmm.Map.{indices, indices-AreIndices}
use fwp_athix.Vmm.Translate.{translation}
use fwp_athix.Vmm.Exhausted.{vmm_map-exhausted}
use fwp_athix.Vmm.Init.{Sections, KernelMap, map_all, map_entry, map_entries, map_section, vmm_init}
use fwp_athix.Vmm.Init.Ranges.{each_page, map_all-each_page}
use fwp_athix.Vmm.Init.Plan.{IsBounded}
use fwp_athix.Vmm.Init.Fresh.{IsFresh, cleared, cleared-empty, granted, cleared-IsReady, root_zero}
use fwp_athix.Vmm.Init.Loops.{AreBounded, chain}
use fwp_athix.Vmm.Init.Total.{with_widths}

-- A loop whose body changes nothing.
each_page-same :
    (body : ℕ → Vmm → Outcome Vmm) (s : Vmm)
    → ((off : ℕ) → body off s ≡ returned s)
    → (n off : ℕ) → each_page body off n s ≡ returned s
unfolding each_page
each_page-same body s same zero off = refl
each_page-same body s same (suc n) off =
    ap (λ o. o >>= each_page body (off + page_size) n) (same off)
    ∙ each_page-same body s same n (off + page_size)

map_all-same :
    (body : ℕ → Vmm → Outcome Vmm) (s : Vmm)
    → ((off : ℕ) → body off s ≡ returned s)
    → (off end : ℕ) → end + 4096 ≤ 2 ^ 64
    → map_all body off end s ≡ returned s
map_all-same body s same off end bound =
    map_all-each_page body off end s bound
    ∙ each_page-same body s same ((end - off + 4095) / 4096) off

-- A page map on which `vmm_map` changes nothing.
module _ (pml4 : ℕ) (s : Vmm)
    (idle : (virt phys flags : ℕ) → vmm_map pml4 virt phys flags s ≡ returned s) where
  map_entry-same :
      (base size : ℕ) (kind : EntryType)
      → let e : Entry = record { base = base; size = size; kind = kind } in
        IsBounded e → map_entry pml4 e s ≡ returned s
  unfolding map_entry
  map_entry-same base size EntryType.usable bound =
      map_all-same _ s (λ off. idle _ _ _) _ _ (bound.0)
  map_entry-same base size EntryType.framebuffer bound =
      map_all-same _ s (λ off. idle _ _ _) _ _ (bound.1)
  map_entry-same base size EntryType.bootloader_reclaimable bound =
      map_all-same _ s (λ off. idle _ _ _) _ _ (bound.1)
  map_entry-same base size EntryType.other bound = refl

  map_entries-same : (es : List Entry) → All IsBounded es → map_entries pml4 es s ≡ returned s
  unfolding map_entries
  map_entries-same [] bounded = refl
  map_entries-same (e ∷ es) bounded =
      ap (λ o. o >>= map_entries pml4 es) (map_entry-same (e.base) (e.size) (e.kind) (bounded.0))
      ∙ map_entries-same es (bounded.1)

  map_section-same :
      (kernel_virt kernel_phys flags start end : ℕ)
      → align_up end + 4096 ≤ 2 ^ 64
      → map_section pml4 kernel_virt kernel_phys flags start end s ≡ returned s
  unfolding map_section
  map_section-same kernel_virt kernel_phys flags start end bound =
      map_all-same _ s (λ off. idle _ _ _) _ _ bound

module _ {s : Vmm} {root : ℕ} (fresh : IsFresh s [] root) where
  -- The empty PML4 has no page table.
  cleared-no_table :
      (p : Pmm) (v : ℕ) → dest (cleared s root p).mem s.hhdm_offset root (indices v) ≡ none
  unfolding dest
  cleared-no_table p v =
      ap
        (λ e.
          if is_present e
          then dest (cleared s root p).mem s.hhdm_offset (frame_of e)
              (pdpt_index v ∷ pd_index v ∷ pt_index v ∷ [])
          else none)
        (root_zero fresh (pml4_index v) ((indices-AreIndices v).0))

  cleared-idle :
      (virt phys flags : ℕ)
      → let t = cleared s root (granted fresh).out in
        vmm_map (u64 (root + s.hhdm_offset)) virt phys flags t ≡ returned t
  cleared-idle virt phys flags =
      let ready = cleared-IsReady fresh 0 (omega arith) in
      vmm_map-exhausted root virt phys flags ready.inv ready.top ready.unlocked
        (omega (arith, ap length (granted fresh).rest, length-live (granted fresh).valid))
        (cleared-no_table (granted fresh).out virt)

-- When only one page is free, which lies in the direct map at a page boundary, with a valid page
-- allocator, the lock of the page map free, a page-aligned HHDM offset that is not 0, kernel addresses
-- that are not 0 and loops that end before the end of the address space: `vmm_init` still returns 0,
-- and CR3 names a page map in which nothing is mapped, whatever the memory map and the sections of
-- the kernel ask for.
pub vmm_init-starved :
    (b : Sections) (cpuid : ℕ → Registers) (es : List Entry) (kernel_virt kernel_phys root : ℕ)
    (k : KernelMap)
    → IsFresh (k.vmm) [] root
    → kernel_virt ≢ 0
    → kernel_phys ≢ 0
    → All IsBounded es
    → AreBounded b
    → (out : KernelMap) × (vmm_init b cpuid es kernel_virt kernel_phys k ≡ returned (0, out))
      × (out.vmm.cr3 ≡ root)
      × ((w : ℕ) → translation out.vmm root w ≡ 0)
unfolding vmm_init vmm_set_pm
vmm_init-starved b cpuid es kernel_virt kernel_phys root k fresh virt phys bounded ends =
    let s0 = with_widths (get_cpuid cpuid 0x80000008).1.eax (k.vmm) in
    let fresh0 : IsFresh s0 [] root = record {
      base = fresh.base;
      offset = fresh.offset;
      valid = fresh.valid;
      pages = fresh.pages;
      distinct = fresh.distinct;
      frames = fresh.frames;
      frame = fresh.frame;
      unlocked = fresh.unlocked;
    } in
    let pml4 = u64 (root + k.vmm.hhdm_offset) in
    let pmm = (granted fresh0).out in
    let t = cleared s0 root pmm in
    let idle = cleared-idle fresh0 in
    let got : request_pages 1 s0.pmm ≡ returned (root, pmm) = (granted fresh0).runs in
    (
      record { vmm = tlb_flush (vmm_set_pm pml4 t); kernel_pm = record { pml4 = pml4 } },
      rw (ne→== kernel_virt 0 virt, ne→== kernel_phys 0 phys, got, ne→== root 0 (fresh.frame.1))
          (chain (map_entries pml4 es t)
            (map_section pml4 kernel_virt kernel_phys Pte.present b.text_start b.text_end)
            (map_section pml4 kernel_virt kernel_phys (bit_or Pte.present Pte.execute_disable)
              b.rodata_start b.rodata_end)
            (map_section pml4 kernel_virt kernel_phys
              (bit_or (bit_or Pte.present Pte.read_write) Pte.execute_disable) b.data_start
              b.data_end)
            t t t t (map_entries-same pml4 t idle es bounded)
            (map_section-same pml4 t idle kernel_virt kernel_phys Pte.present b.text_start
              b.text_end ends.text)
            (map_section-same pml4 t idle kernel_virt kernel_phys
              (bit_or Pte.present Pte.execute_disable) b.rodata_start b.rodata_end ends.rodata)
            (map_section-same pml4 t idle kernel_virt kernel_phys
              (bit_or (bit_or Pte.present Pte.read_write) Pte.execute_disable) b.data_start
              b.data_end ends.data')
            (λ s. returned (
              0,
              record { vmm = tlb_flush (vmm_set_pm pml4 s); kernel_pm = record { pml4 = pml4 } },
            ))),
      omega (arith, fresh.frame.0.mapped),
      cleared-empty fresh0 pmm,
    )
