-- ===== src/Vmm.antt =====
-- olive/src/mm/vmm.c: four-level page tables in physical memory, reached through the higher-half
-- direct map at `_hhdm_offset`. Memory is a function from the virtual address of an aligned
-- 64-bit word to its value.
pub mod Pte
pub mod Entry
pub mod Tree
pub mod Walk
pub mod Leaf
pub mod Below
pub mod Map
pub mod Logged
pub mod Translate
pub mod Lookup
pub mod Stored
pub mod Unmap
pub mod Use
pub mod Again
pub mod Exhausted
pub mod Interface
pub mod Mapper
pub mod Printing
pub mod Changes
pub mod Init
use Pte
use fwp_athix.Prelude.{
  ℕ, ◌+◌, ◌-◌, ◌*◌, ◌^◌, ◌/◌, Bool, true, false, ◌&&◌, not, bit_and, bit_or, u64, sub64, ◌<<<◌,
  ◌>>>◌, ltb, leb, ◌==◌, if◌then◌else◌,
}
use fwp_athix.Outcome.{Outcome, returned, fault, ◌>>=◌}
use fwp_athix.Macros.{page_size}
use fwp_athix.Lock.{Spinlock, spinlock_acquire, spinlock_release}
use fwp_athix.Pmm.{Pmm, request_pages, free_pages}

-- The memory and the globals of vmm.c. `flushes` counts the TLB flushes.
pub record Vmm : Type 0 where
  pub mem : ℕ → ℕ
  pub pmm : Pmm
  pub hhdm_offset : ℕ
  pub map_lock : Spinlock
  pub cr3 : ℕ
  pub flushes : ℕ
  pub physical_address_width : ℕ
  pub linear_address_width : ℕ

-- `pagemap_t`
pub record Pagemap : Type 0 where
  pub pml4 : ℕ

-- The address of entry `index` of the table at `table`.
abbrev pub slot : ℕ → ℕ → ℕ
slot table index = u64 (table + 8 * index)

abbrev pub write : (ℕ → ℕ) → ℕ → ℕ → ℕ → ℕ
write m a v b = if a == b then v else m b

-- `memset(p, 0, PAGE_SIZE)` at a page-aligned `p`, word by word.
abbrev pub zero_page : ℕ → (ℕ → ℕ) → ℕ → ℕ
zero_page p m a = if leb p a && ltb a (p + page_size) then 0 else m a

-- `tlb_flush`: CR3 is read and written back.
abbrev pub tlb_flush : Vmm → Vmm
tlb_flush s = record s { flushes = s.flushes + 1 }

abbrev pub is_present : ℕ → Bool
is_present e = not (bit_and e Pte.present == 0)

abbrev pub frame_mask : ℕ
frame_mask = 0x000ffffffffff000

-- The entry that points to a new table: `below_pml | PRESENT | READ_WRITE | ACCESS_ALL`.
abbrev pub table_entry : ℕ → ℕ
table_entry p = bit_or (bit_or (bit_or p Pte.present) Pte.read_write) Pte.access_all

-- `get_below_pml`: the virtual address of the table below, or 0.
unfoldable pub get_below_pml : ℕ → ℕ → Bool → Vmm → Outcome (ℕ × Vmm)
get_below_pml pml index force s =
    let entry = s.mem (slot pml index) in
    if is_present entry
    then returned (u64 (bit_and entry frame_mask + s.hhdm_offset), s)
    else (if not force then returned (0, s) else (do
      (below, pmm) ← request_pages 1 s.pmm
      let table = u64 (below + s.hhdm_offset)
      if below == 0
          then returned (0, record s { pmm = pmm })
          else returned (
            table,
            record s {
              pmm = pmm;
              mem = write (zero_page table s.mem) (slot pml index) (table_entry below);
            },
          )))

abbrev pub pml4_index : ℕ → ℕ
pml4_index virt = bit_and virt (0x1ff <<< 39) >>> 39

abbrev pub pdpt_index : ℕ → ℕ
pdpt_index virt = bit_and virt (0x1ff <<< 30) >>> 30

abbrev pub pd_index : ℕ → ℕ
pd_index virt = bit_and virt (0x1ff <<< 21) >>> 21

abbrev pub pt_index : ℕ → ℕ
pt_index virt = bit_and virt (0x1ff <<< 12) >>> 12

-- `pml4_to_pt`: three levels down, or 0 at the first table that is missing.
unfoldable pub pml4_to_pt : ℕ → ℕ → Bool → Vmm → Outcome (ℕ × Vmm)
pml4_to_pt pml4 virt force s = do
  (pdpt, s1) ← get_below_pml pml4 (pml4_index virt) force s
  if pdpt == 0 then returned (0, s1) else (do
    (pd, s2) ← get_below_pml pdpt (pdpt_index virt) force s1
    if pd == 0 then returned (0, s2) else (do
      (pt, s3) ← get_below_pml pd (pd_index virt) force s2
      if pt == 0 then returned (0, s3) else returned (pt, s3)))

acquire_map : Vmm → Outcome Vmm
unfolding spinlock_acquire
acquire_map s = do lock ← spinlock_acquire s.map_lock; returned (record s { map_lock = lock })

release_map : Vmm → Vmm
unfolding spinlock_release
release_map s = record s { map_lock = spinlock_release s.map_lock }

-- `vmm_map(pm, virt, phys, flags)`, with `pml4` for `pm->pml4`.
unfoldable pub vmm_map : ℕ → ℕ → ℕ → ℕ → Vmm → Outcome Vmm
unfolding acquire_map release_map
vmm_map pml4 virt phys flags s = do
  s1 ← acquire_map s
  (pt, s2) ← pml4_to_pt pml4 virt true s1
  if pt == 0
      then returned (release_map s2)
      else returned (
          release_map (
            tlb_flush
              (record s2 { mem = write s2.mem (slot pt (pt_index virt)) (bit_or phys flags) })))

-- `vmm_unmap(pm, virt, free_phys)`
unfoldable pub vmm_unmap : ℕ → ℕ → Bool → Vmm → Outcome (Bool × Vmm)
unfolding acquire_map release_map
vmm_unmap pml4 virt free_phys s = do
  s1 ← acquire_map s
  (pt, s2) ← pml4_to_pt pml4 virt false s1
  let leaf = slot pt (pt_index virt)
  if pt == 0 then returned (false, release_map s2) else (do
    pmm ←
        if free_phys
        then free_pages (bit_and (s2.mem leaf) frame_mask) 1 s2.pmm
        else returned s2.pmm
    returned (true, release_map (tlb_flush (record s2 { pmm = pmm; mem = write s2.mem leaf 0 }))))

-- `virt2phys(pm, virt)`; the mask is `((1 << physical_address_width) - 1) & ~0xFFF`, and the shift by
-- 64 or more bits is undefined in C.
unfoldable pub virt2phys : ℕ → ℕ → Vmm → Outcome (ℕ × Vmm)
virt2phys pml4 virt s = do
  (pt, s1) ← pml4_to_pt pml4 virt false s
  let mask = bit_and (2 ^ s.physical_address_width - 1) (2 ^ 64 - 4096)
  if pt == 0
      then returned (0, s1)
      else if ltb s.physical_address_width 64
      then returned
          (bit_or (bit_and (s1.mem (slot pt (pt_index virt))) mask) (bit_and virt 0xFFF), s1)
      else fault

-- `vmm_set_pm`
unfoldable pub vmm_set_pm : ℕ → Vmm → Vmm
vmm_set_pm pml4 s = record s { cr3 = sub64 pml4 s.hhdm_offset }
