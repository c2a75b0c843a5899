-- ===== src/Boot/Hidden.antt =====
-- The page stack of olive/src/mm/pmm.c in the address space that `vmm_init` of olive/src/mm/vmm.c
-- builds on the memory map that `pmm_init` has left.
use fwp_athix.Prelude.{
  ℕ, zero, suc, ◌+◌, ◌-◌, ◌%◌, ◌^◌, ◌≤◌, ◌<◌, ◌≡◌, ◌≢◌, refl, true, sym, subst, inl, inr, arith,
  List, [], ◌∷◌, All, length, get_or, length-set, get_or-set_self, get_or-set_ne, Bool-cases, ◌==◌,
  ==→eq,
}
use fwp_athix.Outcome.{returned}
use fwp_athix.Macros.{page_size, Entry, EntryType, is_usable}
use fwp_athix.Cpu.{Registers}
use fwp_athix.Lock.{spinlock_init}
use fwp_athix.Pmm.Init.{Physical, pmm_init, stack_size, shrink, no_entry}
use fwp_athix.Pmm.Init.Load.{page_count, IsWhole}
use fwp_athix.Pmm.Init.Carve.{stack_size_bounds, locate-Located}
use fwp_athix.Pmm.Init.Success.{zeroed, carved}
use fwp_athix.Vmm.Init.{Sections, KernelMap, vmm_init}
use fwp_athix.Vmm.Init.Loops.{kernel_plan}
use fwp_athix.Vmm.Init.Unlisted.{direct_map, Spares, IsApart, unlisted-unmapped}
use fwp_athix.Vmm.Translate.{translation}
use fwp_athix.Boot.{Requests, offset_of, kernel_of, share}
use fwp_athix.Boot.Complete.{IsBootable, loaded, loaded-IsBuilt}

All-get_or :
    (P : Entry → Type 0) (es : List Entry)
    → ((i : ℕ) → i < length es → P (get_or es i no_entry))
    → All P es
All-get_or P [] h = tt
All-get_or P (e ∷ es) h = (h 0 (omega arith), All-get_or P es (λ i lt. h (suc i) (omega arith)))

get_or-All :
    (P : Entry → Type 0) (es : List Entry) (i : ℕ)
    → All P es
    → i < length es
    → P (get_or es i no_entry)
get_or-All P [] i all lt = absurd (omega arith)
get_or-All P (e ∷ es) zero all lt = all.0
get_or-All P (e ∷ es) (suc i) all lt = get_or-All P es i all.1 (omega arith)

kind_usable :
    (k : EntryType)
    → is_usable (record { base = 0; size = 0; kind = k }) ≡ true
    → k ≡ EntryType.usable
kind_usable EntryType.usable h = refl
kind_usable EntryType.framebuffer h = cc
kind_usable EntryType.bootloader_reclaimable h = cc
kind_usable EntryType.other h = cc

-- The last `bytes` bytes of the entry `j` are apart from what is left of the map.
carved-IsApart :
    (h a bytes j : ℕ) (es : List Entry)
    → j < length es
    → bytes % page_size ≡ 0
    → bytes ≤ (get_or es j no_entry).size
    → is_usable (get_or es j no_entry) ≡ true
    → IsWhole (get_or es j no_entry)
    → (get_or es j no_entry).base + ((get_or es j no_entry).size - bytes) ≤ a
    → h % 2 ^ 48 + (get_or es j no_entry).base + (get_or es j no_entry).size ≤ 2 ^ 48
    → ((i : ℕ) → i < length es → i ≢ j → IsApart h a (get_or es i no_entry))
    → All (IsApart h a) (carved bytes j es)
carved-IsApart h a bytes j es here aligned large usable whole inside fits others =
    All-get_or (IsApart h a) (carved bytes j es) (λ i lt. elim (Bool-cases (j == i)) [
      | inl same ↦
          subst (λ i. IsApart h a (get_or (carved bytes j es) i no_entry)) (==→eq j i same)
            (subst (IsApart h a)
              (sym (get_or-set_self es j (shrink bytes (get_or es j no_entry)) no_entry here)) left)
      | inr other ↦
          let ne : j ≢ i = λ e. ground (arith, e, other) in
          subst (IsApart h a)
            (sym (get_or-set_ne es j i (shrink bytes (get_or es j no_entry)) no_entry ne))
            (others i (omega (arith, lt, length-set es j (shrink bytes (get_or es j no_entry))))
              (λ e. ne (sym e)))
    ])
  where
    left : IsApart h a (shrink bytes (get_or es j no_entry))
    left = record {
      kind = inl (kind_usable (get_or es j no_entry).kind usable);
      base_aligned = whole.base_aligned;
      size_aligned = omega (arith, whole.size_aligned, aligned, large);
      fits = omega (arith, fits, large);
      apart = inr inside;
    }

-- A page of the page stack: the last pages of the entry `j`, where `pm_stack` lies in the direct map.
pub record IsStackPage (es : List Entry) (j a : ℕ) : Type 0 where
  pub from :
      (get_or es j no_entry).base + ((get_or es j no_entry).size - stack_size (page_count es)) ≤ a
  pub to : a + page_size ≤ (get_or es j no_entry).base + (get_or es j no_entry).size
  pub aligned : a % page_size ≡ 0

-- With the bootloader's answers as for the whole start and the lock of the page map free: `pmm_init` and
-- then `vmm_init` return 0, and CR3 names a page map in which the direct map of each page `a` of the
-- page stack, the part of entry `j` that `pmm_init` has cut off, is empty. The memory map has only
-- usable entries, of whole pages, and entries that are not mapped; they end within one half of
-- the 48-bit address space in the direct map, the other entries do not have `a`, and no section of
-- the kernel asks for its page.
pub page_stack-unmapped :
    {r : Requests} {bounds : Sections} {es : List Entry} {j : ℕ} {xs : List ℕ} {root n : ℕ}
    (cpuid : ℕ → Registers) (b : IsBootable r bounds es j xs root n) (map : KernelMap) (a : ℕ)
    → map.vmm.map_lock ≡ spinlock_init
    → IsStackPage es j a
    → offset_of r % 2 ^ 48 + (get_or es j no_entry).base + (get_or es j no_entry).size ≤ 2 ^ 48
    → ((i : ℕ) → i < length es → i ≢ j → IsApart (offset_of r) a (get_or es i no_entry))
    → Spares (direct_map (offset_of r) a) (kernel_plan bounds (kernel_of r).0 (kernel_of r).1)
    → (p : Physical) × (k : KernelMap) × (pmm_init r.memmap (offset_of r) zeroed ≡ returned (0, p))
      × (vmm_init bounds cpuid p.memmap (kernel_of r).0 (kernel_of r).1 (share p map)
          ≡ returned (0, k))
      × (translation k.vmm k.vmm.cr3 (direct_map (offset_of r) a) ≡ 0)
page_stack-unmapped {r} {bounds} {es} {j} {xs} {root} {n} cpuid b map a unlocked page fits others
      spares =
    let physical = loaded cpuid b map unlocked in
    let built = loaded-IsBuilt cpuid b map unlocked in
    let (here, found) = locate-Located (stack_size (page_count es)) (length es) es j b.located in
    let left =
      carved-IsApart (offset_of r) a (stack_size (page_count es)) j es here
        (stack_size_bounds (page_count es) b.few).0 found.large found.holds
        (get_or-All _ es j b.whole here found.holds) page.from fits others in
    let empty =
      unlisted-unmapped bounds cpuid physical.out.memmap (kernel_of r).0 (kernel_of r).1 root a
        (share physical.out map) n built (omega (arith, physical.hhdm_offset, fits, page.to))
        (omega (arith, physical.hhdm_offset, b.base)) page.aligned
        (rw (physical.memmap, physical.hhdm_offset) left) (rw (physical.hhdm_offset) spares) in
    (
      physical.out,
      built.out,
      rw (b.memmap) physical.runs,
      built.runs,
      rw (built.cr3) (
          subst (λ h. translation built.out.vmm root (direct_map h a) ≡ 0) physical.hhdm_offset
            empty),
    )
