-- ===== src/Vmm/Init/Unlisted.antt =====
-- What `vmm_init` of olive/src/mm/vmm.c leaves unmapped.
use fwp_athix.Prelude.{
  ℕ, zero, suc, ◌+◌, ◌-◌, ◌*◌, ◌/◌, ◌%◌, ◌^◌, ◌≤◌, ◌<◌, ◌≡◌, ◌≢◌, ◌⊎◌, inl, inr, refl, ap, ◌∙◌,
  arith, List, [], ◌∷◌, All, All-append, u64, bit_or, if◌then◌else◌, ne→==,
}
use fwp_athix.Cpu.{Registers}
use fwp_athix.Macros.{page_size, Entry, EntryType}
use fwp_athix.Vmm.Translate.{page_number, translation}
use fwp_athix.Vmm.Interface.{Request, assign}
use fwp_athix.Vmm.Init.{Sections, KernelMap}
use fwp_athix.Vmm.Init.Plan.{pages_of, entry_plan, memory_plan}
use fwp_athix.Vmm.Init.Loops.{kernel_plan, init_plan}
use fwp_athix.Vmm.Init.Total.{IsBuilt}

-- Where the direct map at `h` has the offset `off`
abbrev pub direct_map : ℕ → ℕ → ℕ
direct_map h off = u64 (off + h)

-- No request of the list is for the page of `w`.
abbrev pub Spares : ℕ → List Request → Type 0
Spares w = All (λ r. page_number w ≢ page_number r.virt)

assign-Spares : (w : ℕ) (rs : List Request) (old : ℕ → ℕ) → Spares w rs → assign rs old w ≡ old w
assign-Spares w [] old spares = refl
assign-Spares w (r ∷ rs) old spares =
    assign-Spares w rs _ (spares.1)
    ∙ ap (λ c. if c then bit_or (r.phys) (r.flags) else old w)
        (ne→== (page_number w) (page_number (r.virt)) (spares.0))

-- A page-aligned address `a` in the direct map, outside the `n` pages from `off`.
pages_of-Spares :
    (h a flags n off : ℕ) (phys : ℕ → ℕ)
    → h % 2 ^ 48 + a + page_size ≤ 2 ^ 48
    → h % 2 ^ 48 + off + n * page_size ≤ 2 ^ 48
    → h % page_size ≡ 0
    → a % page_size ≡ 0
    → off % page_size ≡ 0
    → (a < off) ⊎ (off + n * page_size ≤ a)
    → Spares (direct_map h a) (pages_of (direct_map h) phys flags off n)
pages_of-Spares h a flags zero off phys fits fits' base at start apart = tt
pages_of-Spares h a flags (suc n) off phys fits fits' base at start apart = (
  (λ e. absurd (omega (arith, e, apart))),
  pages_of-Spares h a flags n (off + page_size) phys fits (omega arith) base at (omega arith)
      (omega (arith, apart)),
)

-- An entry that is usable memory of whole pages, or not mapped at all, and does not have `a`.
pub record IsApart (h a : ℕ) (e : Entry) : Type 0 where
  pub kind : (e.kind ≡ EntryType.usable) ⊎ (e.kind ≡ EntryType.other)
  pub base_aligned : e.base % page_size ≡ 0
  pub size_aligned : e.size % page_size ≡ 0
  pub fits : h % 2 ^ 48 + e.base + e.size ≤ 2 ^ 48
  pub apart : (a < e.base) ⊎ (e.base + e.size ≤ a)

entry_plan-Spares :
    (h a : ℕ) (e : Entry)
    → h % 2 ^ 48 + a + page_size ≤ 2 ^ 48
    → h % page_size ≡ 0
    → a % page_size ≡ 0
    → IsApart h a e
    → Spares (direct_map h a) (entry_plan h e)
entry_plan-Spares h a e fits base at p = elim (p.kind) [
  | inl usable ↦
      let n = (u64 (e.base + e.size) - e.base + 4095) / 4096 in
      let whole : n * page_size ≡ e.size = omega (arith, p.fits, p.size_aligned) in
      rw (usable) (
        pages_of-Spares h a _ n (e.base) _ fits (omega (arith, whole, p.fits)) base at
          (p.base_aligned) (omega (arith, whole, p.apart)))
  | inr other ↦ rw (other) tt
]

memory_plan-Spares :
    (h a : ℕ) (es : List Entry)
    → h % 2 ^ 48 + a + page_size ≤ 2 ^ 48
    → h % page_size ≡ 0
    → a % page_size ≡ 0
    → All (IsApart h a) es
    → Spares (direct_map h a) (memory_plan h es)
memory_plan-Spares h a [] fits base at apart = tt
memory_plan-Spares h a (e ∷ es) fits base at apart =
    All-append _ (entry_plan h e) (memory_plan h es)
      (entry_plan-Spares h a e fits base at (apart.0))
      (memory_plan-Spares h a es fits base at (apart.1))

-- What lies in no usable entry is not mapped: with a memory map of usable entries and entries that
-- are not mapped, `vmm_init` leaves the direct map of page `a` empty, unless a section of the
-- kernel asks for that page.
pub unlisted-unmapped :
    (b : Sections) (cpuid : ℕ → Registers) (es : List Entry) (kernel_virt kernel_phys root a : ℕ)
    (k : KernelMap) (n : ℕ)
    → (built : IsBuilt b cpuid es kernel_virt kernel_phys root k n)
    → k.vmm.hhdm_offset % 2 ^ 48 + a + page_size ≤ 2 ^ 48
    → k.vmm.hhdm_offset % page_size ≡ 0
    → a % page_size ≡ 0
    → All (IsApart (k.vmm.hhdm_offset) a) es
    → Spares (direct_map (k.vmm.hhdm_offset) a) (kernel_plan b kernel_virt kernel_phys)
    → translation (built.out.vmm) root (direct_map (k.vmm.hhdm_offset) a) ≡ 0
unlisted-unmapped b cpuid es kernel_virt kernel_phys root a k n built fits base at apart spares =
    let h = k.vmm.hhdm_offset in
    built.space (direct_map h a)
    ∙ assign-Spares (direct_map h a) (init_plan h es b kernel_virt kernel_phys) _ (
        All-append _ (memory_plan h es) (kernel_plan b kernel_virt kernel_phys)
          (memory_plan-Spares h a es fits base at apart) spares)
