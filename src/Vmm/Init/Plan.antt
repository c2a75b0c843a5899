-- ===== src/Vmm/Init/Plan.antt =====
-- The loops of `vmm_init` in olive/src/mm/vmm.c against the address space that they mean to build:
-- a list of requests.
use fwp_athix.Prelude.{
  ℕ, zero, suc, ◌+◌, ◌-◌, ◌/◌, ◌^◌, ◌≤◌, ◌≡◌, refl, sym, ap, subst, arith, List, [], ◌∷◌, ◌++◌,
  ◌==◌, if◌then◌else◌, All, u64, sub64, bit_or,
}
use fwp_athix.Outcome.{Outcome}
use fwp_athix.Macros.{page_size, align_up, align_down, Entry, EntryType}
use fwp_athix.Vmm.{Vmm, vmm_map}
use fwp_athix.Vmm.Pte
use fwp_athix.Vmm.Interface.{
  Request, cost, cost_from, Adds, Adds-nil, Adds-cons, Adds-bind, first-Called, next-Called,
}
use fwp_athix.Vmm.Again.{region, HasTable}
use fwp_athix.Vmm.Mapper.{IsReady, IsReady-fewer, vmm_mapper}
use fwp_athix.Vmm.Init.{map_all, map_entry, map_entries, map_section}
use fwp_athix.Vmm.Init.Ranges.{each_page, map_all-each_page}

-- The requests for `n` pages from `off`, to `virt` and `phys` of each offset.
abbrev pub pages_of : (ℕ → ℕ) → (ℕ → ℕ) → ℕ → ℕ → ℕ → List Request
pages_of virt phys flags off zero = []
pages_of virt phys flags off (suc n) =
    record { virt = virt off; phys = phys off; flags = flags }
    ∷ pages_of virt phys flags (off + page_size) n

-- The requests for the pages from `off` that begin below `end`.
abbrev pub range_of : (ℕ → ℕ) → (ℕ → ℕ) → ℕ → ℕ → ℕ → List Request
range_of virt phys flags off end = pages_of virt phys flags off ((end - off + 4095) / 4096)

-- What an entry of the memory map asks for, with the direct map at `h`. The framebuffer and the
-- reclaimable entries start at offset 0 and end at their last address, not at their size.
abbrev pub entry_plan : ℕ → Entry → List Request
entry_plan h e = elim (e.kind) [
  | EntryType.usable ↦
      range_of (λ off. u64 (off + h)) (λ off. off) (bit_or Pte.present Pte.read_write) (e.base)
        (u64 (e.base + e.size))
  | EntryType.framebuffer ↦
      range_of (λ off. u64 (align_up (u64 (e.base + off)) + h))
        (λ off. align_up (u64 (e.base + off)))
        (bit_or (bit_or (bit_or Pte.present Pte.read_write) Pte.execute_disable)
          Pte.write_through_caching)
        0 (align_up (u64 (e.base + e.size)))
  | EntryType.bootloader_reclaimable ↦
      range_of (λ off. u64 (u64 (e.base + off) + h)) (λ off. u64 (e.base + off))
        (bit_or Pte.present Pte.read_write) 0 (align_up (u64 (e.base + e.size)))
  | EntryType.other ↦ []
]

-- The loop over an entry ends before the last page of the address space.
abbrev pub IsBounded : Entry → Type 0
IsBounded e =
    (u64 (e.base + e.size) + 4096 ≤ 2 ^ 64) × (align_up (u64 (e.base + e.size)) + 4096 ≤ 2 ^ 64)

abbrev pub memory_plan : ℕ → List Entry → List Request
memory_plan h [] = []
memory_plan h (e ∷ es) = entry_plan h e ++ memory_plan h es

-- The pages that this may take.
abbrev pub memory_cost : ℕ → List Entry → ℕ
memory_cost h [] = 0
memory_cost h (e ∷ es) = cost (entry_plan h e) + memory_cost h es

-- What a section of the kernel asks for.
abbrev pub section_plan : ℕ → ℕ → ℕ → ℕ → ℕ → List Request
section_plan kernel_virt kernel_phys flags start end =
    range_of (λ addr. addr) (λ addr. u64 (sub64 addr kernel_virt + kernel_phys)) flags
      (align_down start) (align_up end)

module _ (h width root : ℕ) where
  -- The outcome `o` has the requests added on the page tables of vmm.c.
  abbrev pub Built : List Request → ℕ → Vmm → Outcome Vmm → Type 0
  Built = Adds (vmm_mapper h width root)

  -- A loop body that maps the page of an offset.
  abbrev pub Maps : (ℕ → ℕ) → (ℕ → ℕ) → ℕ → (ℕ → Vmm → Outcome Vmm) → Type 0
  Maps virt phys flags body =
      (off : ℕ) (t : Vmm)
      → t.hhdm_offset ≡ h
      → body off t ≡ vmm_map (u64 (root + h)) (virt off) (phys off) flags t

  -- The pages after one that has its table.
  each_page-next :
      (virt phys : ℕ → ℕ) (flags : ℕ) (body : ℕ → Vmm → Outcome Vmm)
      → Maps virt phys flags body
      → (n off k v : ℕ) (s : Vmm) → HasTable s root v
      → IsReady h width root s (cost_from (region v) (pages_of virt phys flags off n) + k)
      → Built (pages_of virt phys flags off n) k s (each_page body off n s)
  unfolding each_page
  each_page-next virt phys flags body maps zero off k v s has ready =
      Adds-nil (vmm_mapper h width root) k s (IsReady-fewer k (0 + k) (omega arith) ready)
  each_page-next virt phys flags body maps (suc n) off k v s has ready =
      let r : Request = record { virt = virt off; phys = phys off; flags = flags } in
      let rest = pages_of virt phys flags (off + page_size) n in
      let later = cost_from (region r.virt) rest + k in
      let c = next-Called (vmm_mapper h width root) r later v s has (
        IsReady-fewer ((if region r.virt == region v then 0 else 3) + later) _ (omega arith)
          ready) in
      Adds-cons (vmm_mapper h width root) c rest k (body off s) (each_page body (off + page_size) n)
        (maps off s (ready.offset))
        (each_page-next virt phys flags body maps n (off + page_size) k (r.virt) (c.out) (c.has)
          (c.ready))

  each_page-Built :
      (virt phys : ℕ → ℕ) (flags : ℕ) (body : ℕ → Vmm → Outcome Vmm)
      → Maps virt phys flags body
      → (n off k : ℕ) (s : Vmm) → IsReady h width root s (cost (pages_of virt phys flags off n) + k)
      → Built (pages_of virt phys flags off n) k s (each_page body off n s)
  unfolding each_page
  each_page-Built virt phys flags body maps zero off k s ready =
      Adds-nil (vmm_mapper h width root) k s (IsReady-fewer k (0 + k) (omega arith) ready)
  each_page-Built virt phys flags body maps (suc n) off k s ready =
      let r : Request = record { virt = virt off; phys = phys off; flags = flags } in
      let rest = pages_of virt phys flags (off + page_size) n in
      let c =
        first-Called (vmm_mapper h width root) r (cost_from (region r.virt) rest + k) s
          (IsReady-fewer (3 + (cost_from (region r.virt) rest + k)) _ (omega arith) ready) in
      Adds-cons (vmm_mapper h width root) c rest k (body off s) (each_page body (off + page_size) n)
        (maps off s (ready.offset))
        (each_page-next virt phys flags body maps n (off + page_size) k (r.virt) (c.out) (c.has)
          (c.ready))

  map_all-Built :
      (virt phys : ℕ → ℕ) (flags : ℕ) (body : ℕ → Vmm → Outcome Vmm)
      → Maps virt phys flags body
      → (off end k : ℕ) (s : Vmm) → end + 4096 ≤ 2 ^ 64
      → IsReady h width root s (cost (range_of virt phys flags off end) + k)
      → Built (range_of virt phys flags off end) k s (map_all body off end s)
  map_all-Built virt phys flags body maps off end k s bound ready =
      let n = (end - off + 4095) / 4096 in
      subst (Built (range_of virt phys flags off end) k s)
        (sym (map_all-each_page body off end s bound))
        (each_page-Built virt phys flags body maps n off k s ready)

  map_entry-Built :
      (base size : ℕ) (kind : EntryType) (k : ℕ) (s : Vmm)
      → let e : Entry = record { base = base; size = size; kind = kind } in
        IsBounded e
        → IsReady h width root s (cost (entry_plan h e) + k)
        → Built (entry_plan h e) k s (map_entry (u64 (root + h)) e s)
  unfolding map_entry
  map_entry-Built base size EntryType.usable k s bound ready =
      map_all-Built _ _ _ _
        (λ off t e. ap (λ h'. vmm_map (u64 (root + h)) (u64 (off + h')) off 3 t) e) _ _ k s
        (bound.0) ready
  map_entry-Built base size EntryType.framebuffer k s bound ready =
      map_all-Built _ _ _ _
        (λ off t e.
          ap
            (λ h'.
              vmm_map (u64 (root + h)) (u64 (align_up (u64 (base + off)) + h'))
                (align_up (u64 (base + off)))
                (bit_or (bit_or (bit_or Pte.present Pte.read_write) Pte.execute_disable)
                  Pte.write_through_caching)
                t)
            e)
        _ _ k s (bound.1) ready
  map_entry-Built base size EntryType.bootloader_reclaimable k s bound ready =
      map_all-Built _ _ _ _
        (λ off t e.
          ap (λ h'. vmm_map (u64 (root + h)) (u64 (u64 (base + off) + h')) (u64 (base + off)) 3 t)
            e)
        _ _ k s (bound.1) ready
  map_entry-Built base size EntryType.other k s bound ready =
      Adds-nil (vmm_mapper h width root) k s (IsReady-fewer k (0 + k) (omega arith) ready)

  pub map_entries-Built :
      (es : List Entry) (k : ℕ) (s : Vmm)
      → All IsBounded es
      → IsReady h width root s (memory_cost h es + k)
      → Built (memory_plan h es) k s (map_entries (u64 (root + h)) es s)
  unfolding map_entries
  map_entries-Built [] k s bounded ready =
      Adds-nil (vmm_mapper h width root) k s (IsReady-fewer k (0 + k) (omega arith) ready)
  map_entries-Built (e ∷ es) k s bounded ready =
      Adds-bind (vmm_mapper h width root) (entry_plan h e) (memory_plan h es) (memory_cost h es + k)
        k s (map_entry (u64 (root + h)) e s) (map_entries (u64 (root + h)) es)
        (map_entry-Built (e.base) (e.size) (e.kind) (memory_cost h es + k) s (bounded.0) (
          IsReady-fewer (cost (entry_plan h e) + (memory_cost h es + k))
            (memory_cost h (e ∷ es) + k) (omega arith) ready))
        (λ t ready'. map_entries-Built es k t (bounded.1) ready')

  pub map_section-Built :
      (kernel_virt kernel_phys flags start end k : ℕ) (s : Vmm)
      → align_up end + 4096 ≤ 2 ^ 64
      → IsReady h width root s (cost (section_plan kernel_virt kernel_phys flags start end) + k)
      → Built
          (section_plan kernel_virt kernel_phys flags start end)
          k
          s
          (map_section (u64 (root + h)) kernel_virt kernel_phys flags start end s)
  unfolding map_section
  map_section-Built kernel_virt kernel_phys flags start end k s bound ready =
      map_all-Built _ _ _ _ (λ addr t e. refl) _ _ k s bound ready
