-- ===== src/Pmm/Start.antt =====
-- olive/include/mm/pmm.h as the kernel sees it: `pmm_init` and the page allocator that it starts,
-- with olive/src/mm/pmm.c as the implementation, its log included. Nothing uses `pm_stack_count`.
use Prim.Native.String.{String}
use mathlib.Core.List.{Mem, Perm, Nodup}
use fwp_athix.Prelude.{
  ℕ, ℤ, ◌^◌, ◌≤◌, ◌≡◌, ◌≢◌, ◌⊎◌, refl, subst, inl, inr, All, Option, none, some, List, ◌++◌, length,
  sym, ap, ◌∙◌, arith, get_or, length-set,
}
use fwp_athix.Outcome.{Outcome, returned, ◌>>=◌}
use fwp_athix.Ports.{Bus}
use fwp_athix.Console.{Console}
use fwp_athix.Console.Output.{ready, IsFormatter, IsReady}
use fwp_athix.Log.{Build, Line}
use fwp_athix.Log.Quiet.{Logged-result, Logged-IsReady}
use fwp_athix.Log.Message.{Message}
use fwp_athix.Macros.{Entry}
use fwp_athix.Pmm.Spec.{Distinct}
use fwp_athix.Pmm.Interface.{PageAllocator, IsPage, World, Reach, Serves}
use fwp_athix.Pmm.Shared.{Reach-Shared, Shared-Serves}
use fwp_athix.Pmm.Owners.{pmm, IsPage-Mem, Shared-partition}
use fwp_athix.Pmm.Init.{Physical, no_entry, shrink, stack_size, locate, pmm_init}
use fwp_athix.Pmm.Init.Logged.{init_on_console, init_on_console-EndsAs}
use fwp_athix.Pmm.Printing.{printing_pmm}
use fwp_athix.Pmm.Init.Load.{page_count, usable_pages, IsWholeMap}
use fwp_athix.Pmm.Init.Success.{zeroed, carved, pmm_init-Ready}

-- `IsLoadable es hhdm xs` says that the memory map `es` leaves the pages `xs` to hand out.
pub record PhysicalMemory : Type 1 where
  pub pages : PageAllocator
  pub State : Type 0
  pub IsLoadable : List Entry → ℕ → List ℕ → Type 0
  pub hhdm_offset : State → ℕ
  pub memmap : State → List Entry
  pub pm_stack : State → pages.State
  -- The globals before the call
  pub start : State
  pub pmm_init : Option (List Entry) → ℕ → State → Outcome (ℕ × State)
  pub loads :
      (es : List Entry) (hhdm : ℕ) (xs : List ℕ)
      → IsLoadable es hhdm xs
      → (t : State) × (pmm_init (some es) hhdm start ≡ returned (0, t))
        × pages.IsValid (pm_stack t)
        × (pages.waiting (pm_stack t) ≡ xs)
        × (hhdm_offset t ≡ hhdm)
        × (length (memmap t) ≡ length es)
  pub refuses :
      (map : Option (List Entry)) (hhdm : ℕ)
      → (map ≡ none) ⊎ (hhdm ≡ 0)
      → (t : State) × (pmm_init map hhdm start ≡ returned (1, t))
        × (pages.waiting (pm_stack t) ≡ pages.waiting (pm_stack start))
        × (memmap t ≡ memmap start)
        × (hhdm_offset t ≡ hhdm_offset start)

-- The map has whole entries, of which entry `k` has room for the page stack, and `xs` are its usable
-- pages without the stack.
pub record Leaves (es : List Entry) (hhdm : ℕ) (xs : List ℕ) : Type 0 where
  pub k : ℕ
  pub offset : hhdm ≢ 0
  pub whole : IsWholeMap es
  pub few : page_count es ≤ 2 ^ 52
  pub located : locate (stack_size (page_count es)) (length es) es ≡ some k
  pub usable : usable_pages (carved (stack_size (page_count es)) k es) ≡ xs

pub init-loads :
    (es : List Entry) (hhdm : ℕ) (xs : List ℕ)
    → Leaves es hhdm xs
    → (t : Physical) × (pmm_init (some es) hhdm zeroed ≡ returned (0, t))
      × pmm.IsValid t.pmm
      × (pmm.waiting t.pmm ≡ xs)
      × (t.hhdm_offset ≡ hhdm)
      × (length t.memmap ≡ length es)
init-loads es hhdm xs l =
    let r = pmm_init-Ready es hhdm l.k l.offset l.whole l.few l.located in
    (
      r.out,
      r.runs,
      r.valid,
      r.pages ∙ l.usable,
      r.hhdm_offset,
      ap length r.memmap
          ∙ length-set es l.k (shrink (stack_size (page_count es)) (get_or es l.k no_entry)),
    )

pub init-refuses :
    (map : Option (List Entry)) (hhdm : ℕ) (s : Physical)
    → (map ≡ none) ⊎ (hhdm ≡ 0)
    → pmm_init map hhdm s ≡ returned (1, s)
unfolding pmm_init
init-refuses none hhdm s why = refl
init-refuses (some es) hhdm s (inl e) = cc e
init-refuses (some es) hhdm s (inr e) = ground (arith, e)

-- olive/src/mm/pmm.c with its log, on a console that can print.
module _ (npf : ℕ → Line Message → ℤ × List ℕ) (build : Build) (file : String)
    (size : IsFormatter npf) (bus : Bus) (screen : List ℕ) where
  pub init-printed :
      (map : Option (List Entry)) (hhdm : ℕ) (r : ℕ × Physical)
      → pmm_init map hhdm zeroed ≡ returned r
      → (d : Console) × (init_on_console npf build file map hhdm zeroed (ready bus screen)
          ≡ returned (r, d))
        × IsReady d
  init-printed map hhdm r runs =
      Logged-IsReady npf build size (init_on_console npf build file map hhdm zeroed)
        (ready bus screen)
        (Logged-result npf build size file _ _
          (init_on_console-EndsAs npf build file size map hhdm zeroed))
        runs (record { bus = bus; screen = screen; same = refl })

  abbrev pub olive_pmm : PhysicalMemory
  olive_pmm = record {
    pages = printing_pmm npf build file size;
    State = Physical × Console;
    IsLoadable = Leaves;
    hhdm_offset = λ s. s.0.hhdm_offset;
    memmap = λ s. s.0.memmap;
    pm_stack = λ s. (s.0.pmm, s.1);
    start = (zeroed, ready bus screen);
    pmm_init = λ map hhdm s.
        init_on_console npf build file map hhdm s.0 s.1 >>= (λ r. returned (r.0.0, (r.0.1, r.1)));
    loads = λ es hhdm xs leaves.
        let (t, runs, valid, free, offset, entries) = init-loads es hhdm xs leaves in
        let (d, printed, shown) = init-printed (some es) hhdm (0, t) runs in
        ((t, d), rw (printed) refl, (valid, shown), free, offset, entries);
    refuses = λ map hhdm why.
        let (d, printed, shown) =
          init-printed map hhdm (1, zeroed) (init-refuses map hhdm zeroed why) in
        ((zeroed, d), rw (printed) refl, refl, refl, refl);
  }

-- On any physical memory that keeps the promises of pmm.h: when the memory map leaves the pages `xs`,
-- which are page addresses and distinct, `pmm_init` returns 0, and whatever callers do then, one page
-- at a time, the pages that they hold and the free pages are together exactly `xs`, no page is among
-- them twice, the next request returns, with NULL exactly where no page is free, and giving back any
-- page that a caller holds returns.
pub Reach-usable :
    (m : PhysicalMemory) (es : List Entry) (hhdm : ℕ) (xs : List ℕ)
    → m.IsLoadable es hhdm xs
    → All IsPage xs
    → Distinct xs
    → (t : m.State) × (m.pmm_init (some es) hhdm m.start ≡ returned (0, t))
      × ((w : World m.pages)
          → Reach m.pages (m.pm_stack t) w
          → Perm (w.lent ++ m.pages.waiting w.state) xs
            × Nodup (w.lent ++ m.pages.waiting w.state)
            × Serves m.pages w)
Reach-usable m es hhdm xs leaves page apart =
    let (t, runs, valid, free, _, _) = m.loads es hhdm xs leaves in
    (
      t,
      runs,
      λ w reach.
          let pages = subst (λ ys. (p : ℕ) → Mem p ys → IsPage p) (sym free) (IsPage-Mem xs page) in
          let h = Reach-Shared pages valid reach in
          let (kept, once) = Shared-partition (subst Distinct (sym free) apart) h in
          (subst (Perm (w.lent ++ m.pages.waiting w.state)) free kept, once, Shared-Serves pages h),
    )
