-- ===== src/Vmm/Init/Fresh.antt =====
-- The page tables at the start of `vmm_init` of olive/src/mm/vmm.c: an empty PML4.
use fwp_athix.Prelude.{
  ℕ, ◌+◌, ◌%◌, ◌≤◌, ◌<◌, ◌≡◌, ◌≢◌, refl, sym, ap, subst, ◌∙◌, arith, List, [], ◌∷◌, ◌++◌, All,
  length, u64, if◌then◌else◌, true,
}
use fwp_athix.Macros.{page_size}
use fwp_athix.Lock.{spinlock_init}
use fwp_athix.Pmm.{Pmm, live}
use fwp_athix.Pmm.Spec.{IsValid, Distinct, Distinct-last}
use fwp_athix.Pmm.Refine.{length-live}
use fwp_athix.Pmm.Reuse.{Granted, request_pages-append}
use fwp_athix.Vmm.{Vmm, zero_page, is_present, pml4_index, pdpt_index, pd_index, pt_index}
use fwp_athix.Vmm.Entry.{frame_of, IsFrame, entry, zero_page_self}
use fwp_athix.Vmm.Tree.{Levels, at_level, IsTree}
use fwp_athix.Vmm.Walk.{leaf}
use fwp_athix.Vmm.Below.{IsSpare}
use fwp_athix.Vmm.Map.{indices-AreIndices}
use fwp_athix.Vmm.Translate.{translation}
use fwp_athix.Vmm.Mapper.{IsReady}

-- A free page that can become a table.
abbrev pub IsFree : ℕ → ℕ → Type 0
IsFree h p = IsFrame h p × (p ≢ 0)

-- The state in which `vmm_init` is called: a valid page allocator whose free pages are distinct and
-- lie in the direct map at a page boundary, and the lock free. `root` is the page it hands out
-- next.
pub record IsFresh (s : Vmm) (xs : List ℕ) (root : ℕ) : Type 0 where
  pub base : s.hhdm_offset % page_size ≡ 0
  pub offset : 0 < s.hhdm_offset
  pub valid : IsValid s.pmm
  pub pages : live s.pmm ≡ xs ++ (root ∷ [])
  pub distinct : Distinct (xs ++ (root ∷ []))
  pub frames : All (IsFree s.hhdm_offset) xs
  pub frame : IsFree s.hhdm_offset root
  pub unlocked : s.map_lock ≡ spinlock_init

-- The state once the PML4 in frame `root` is zeroed, with the page allocator `p`.
abbrev pub cleared : Vmm → ℕ → Pmm → Vmm
cleared s root p = record s { mem = zero_page (u64 (root + s.hhdm_offset)) s.mem; pmm = p }

module _ {s : Vmm} {xs : List ℕ} {root : ℕ} (fresh : IsFresh s xs root) where
  abbrev levels : Levels
  levels = at_level (λ q. 0) root 4

  pub root_zero :
      (j : ℕ)
      → j < 512
      → entry (zero_page (u64 (root + s.hhdm_offset)) s.mem) s.hhdm_offset root j ≡ 0
  root_zero j lt = zero_page_self (fresh.base) s.mem j (fresh.frame.0) lt

  is_root : (t : ℕ) → 0 < levels t → root ≡ t
  is_root t pos = ground arith

  absent :
      (t i : ℕ)
      → 0 < levels t
      → i < 512
      → is_present (entry (zero_page (u64 (root + s.hhdm_offset)) s.mem) s.hhdm_offset t i) ≢ true
  absent t i pos lt on =
      let zeroed : entry (zero_page (u64 (root + s.hhdm_offset)) s.mem) s.hhdm_offset t i ≡ 0 =
        ap (λ q. entry (zero_page (u64 (root + s.hhdm_offset)) s.mem) s.hhdm_offset q i)
          (sym (is_root t pos))
        ∙ root_zero i lt in
      cc (ap is_present (sym zeroed) ∙ on)

  cleared-IsTree : IsTree s.hhdm_offset levels (zero_page (u64 (root + s.hhdm_offset)) s.mem)
  cleared-IsTree = record {
    base = fresh.base;
    table = λ t pos. subst (IsFrame s.hhdm_offset) (is_root t pos) (fresh.frame.0);
    child = λ t i above lt on. absurd (absent t i (omega arith) lt on);
    unique = λ t i u j above above' lt lt' on on' e. absurd (absent t i (omega arith) lt on);
  }

  -- Nothing is mapped yet.
  pub cleared-empty : (p : Pmm) (w : ℕ) → translation (cleared s root p) root w ≡ 0
  unfolding leaf
  cleared-empty p w =
      let m = zero_page (u64 (root + s.hhdm_offset)) s.mem in
      ap
        (λ e.
          if is_present e
          then leaf m s.hhdm_offset (frame_of e) (pdpt_index w ∷ pd_index w ∷ pt_index w ∷ [])
          else 0)
        (root_zero (pml4_index w) ((indices-AreIndices w).0))

  pages-IsSpare :
      (ys : List ℕ)
      → All (IsFree s.hhdm_offset) ys
      → All (λ x. root ≢ x) ys
      → All (IsSpare s.hhdm_offset levels) ys
  pages-IsSpare [] free apart = tt
  pages-IsSpare (y ∷ ys) free apart =
      ((free.0.0, ground (arith, apart.0), free.0.1), pages-IsSpare ys (free.1) (apart.1))

  pub granted : Granted s.pmm xs (root ∷ [])
  granted = request_pages-append xs (root ∷ []) (fresh.valid) (fresh.pages) (omega arith)

  -- The tables are ready once the PML4 is cleared: all other free pages are to spare.
  pub cleared-IsReady :
      (n : ℕ)
      → n ≤ length xs
      → IsReady s.hhdm_offset s.physical_address_width root (cleared s root (granted.out)) n
  cleared-IsReady n le =
      let last = Distinct-last xs root (fresh.distinct) in
      record {
        lvl = levels;
        inv = record {
          tree = cleared-IsTree;
          offset = fresh.offset;
          valid = granted.valid;
          distinct = subst Distinct (sym (granted.rest)) (last.0);
          spare =
              subst (All (IsSpare s.hhdm_offset levels)) (sym (granted.rest))
                (pages-IsSpare xs (fresh.frames) (last.1));
        };
        top = ground arith;
        unlocked = fresh.unlocked;
        offset = refl;
        same_width = refl;
        spare = omega (arith, le, ap length (granted.rest), length-live (granted.valid));
      }
