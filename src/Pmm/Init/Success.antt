-- ===== src/Pmm/Init/Success.antt =====
-- `pmm_init` of olive/src/mm/pmm.c on a memory map of whole entries, one of which has room for
-- the page stack.
use fwp_athix.Prelude.{
  ℕ, ◌/◌, ◌^◌, ◌≤◌, ◌≡◌, ◌≢◌, refl, ap, ◌∙◌, some, List, [], arith, length, get_or, set, replicate,
  length-replicate, ne→==,
}
use fwp_athix.Macros.{Entry}
use fwp_athix.Outcome.{returned}
use fwp_athix.Pmm.{live}
use fwp_athix.Pmm.Spec.{IsValid}
use fwp_athix.Pmm.Init.{
  Physical, count_pages, locate, stack_size, no_entry, shrink, carve, prepare, push_entries, finish,
  pmm_init,
}
use fwp_athix.Pmm.Init.Load.{
  page_count, usable_pages, length-usable_pages, IsWholeMap, Pushes, push_entries-usable_pages,
}
use fwp_athix.Pmm.Init.Carve.{
  count_pages-page_count, stack_size_bounds, locate-Located, page_count-shrink, IsWholeMap-shrink,
}

-- The globals before the call: static storage, zero.
abbrev pub zeroed : Physical
zeroed = record {
  pmm = record { stack = []; stack_idx = 0; free_pages = 0; used_pages = 0; total_pages = 0 };
  memmap = [];
  hhdm_offset = 0;
}

-- The memory map after the stack has been carved out of entry `k`.
abbrev pub carved : ℕ → ℕ → List Entry → List Entry
carved bytes k es = set es k (shrink bytes (get_or es k no_entry))

-- The state when the third loop begins, with `n` pages counted.
abbrev ready : ℕ → ℕ → ℕ → List Entry → Physical
ready hhdm n k es = record {
  pmm = record {
    stack = replicate (stack_size n / 8) 0;
    stack_idx = 0;
    free_pages = 0;
    used_pages = 0;
    total_pages = n;
  };
  memmap = carved (stack_size n) k es;
  hhdm_offset = hhdm;
}

prepare-ready :
    (es : List Entry) (hhdm k : ℕ)
    → page_count es ≤ 2 ^ 52
    → locate (stack_size (page_count es)) (length es) es ≡ some k
    → prepare es hhdm zeroed ≡ ready hhdm (page_count es) k es
unfolding prepare carve
prepare-ready es hhdm k bound found =
    let counted : count_pages es 0 ≡ page_count es =
      count_pages-page_count es 0 (omega arith) ∙ omega arith in
    rw (counted, found) refl

-- After a successful `pmm_init`: the code it returns, a valid allocator whose free list is the
-- usable pages of the carved map in order, and nothing in use.
pub record Ready (es : List Entry) (hhdm k : ℕ) : Type 0 where
  pub out : Physical
  pub runs : pmm_init (some es) hhdm zeroed ≡ returned (0, out)
  pub valid : IsValid out.pmm
  pub pages : live out.pmm ≡ usable_pages (carved (stack_size (page_count es)) k es)
  pub unused : out.pmm.used_pages ≡ 0
  pub memmap : out.memmap ≡ carved (stack_size (page_count es)) k es
  pub hhdm_offset : out.hhdm_offset ≡ hhdm

pmm_init-enters :
    (es : List Entry) (hhdm : ℕ)
    → hhdm ≢ 0
    → pmm_init (some es) hhdm zeroed
      ≡ finish
          (prepare es hhdm zeroed)
          (push_entries (prepare es hhdm zeroed).memmap (prepare es hhdm zeroed).pmm)
unfolding pmm_init
pmm_init-enters es hhdm ne = rw (ne→== hhdm 0 ne) refl

-- The number of slots of the page stack.
length-slots :
    (es : List Entry)
    → length (replicate {A = ℕ} (stack_size (page_count es) / 8) 0) ≡ stack_size (page_count es) / 8
length-slots es = length-replicate (stack_size (page_count es) / 8) 0

Ready-of_Pushes :
    (es : List Entry) (hhdm k : ℕ)
    → hhdm ≢ 0
    → page_count es ≤ 2 ^ 52
    → locate (stack_size (page_count es)) (length es) es ≡ some k
    → (p : Pushes
        (ready hhdm (page_count es) k es).pmm
        (usable_pages (carved (stack_size (page_count es)) k es))
        (push_entries
          (carved (stack_size (page_count es)) k es)
          (ready hhdm (page_count es) k es).pmm))
    → page_count (carved (stack_size (page_count es)) k es) ≤ page_count es
    → Ready es hhdm k
Ready-of_Pushes es hhdm k ne bound found p room = record {
  out = record (ready hhdm (page_count es) k es) {
    pmm = record (p.out) { free_pages = p.out.stack_idx };
  };
  runs =
      pmm_init-enters es hhdm ne
      ∙ ap (λ r. finish r (push_entries r.memmap r.pmm)) (prepare-ready es hhdm k bound found)
      ∙ ap (finish (ready hhdm (page_count es) k es)) p.runs;
  valid = record {
    counted = refl;
    room = omega (
      arith,
      p.same_used,
      p.same_total,
      p.idx,
      length-usable_pages (carved (stack_size (page_count es)) k es),
    );
    fits = omega (
      arith,
      p.same_total,
      p.same_length,
      length-slots es,
      stack_size_bounds (page_count es) bound,
    );
    small = omega (arith, p.same_length, length-slots es, stack_size_bounds (page_count es) bound);
  };
  pages = p.pages;
  unused = p.same_used;
  memmap = refl;
  hhdm_offset = refl;
}

-- On a memory map whose usable entries are whole pages, fewer than 2 ^ 52 in all, and of which one
-- has room for the page stack, `pmm_init` with a nonzero HHDM offset returns 0. The allocator is
-- then valid, no page is in use, and the free pages are exactly those of the usable entries of the
-- map, in order, less the pages carved off the end of the chosen entry for the stack itself.
pub pmm_init-Ready :
    (es : List Entry) (hhdm k : ℕ)
    → hhdm ≢ 0
    → IsWholeMap es
    → page_count es ≤ 2 ^ 52
    → locate (stack_size (page_count es)) (length es) es ≡ some k
    → Ready es hhdm k
pmm_init-Ready es hhdm k ne whole bound found =
    let (below, at) = locate-Located (stack_size (page_count es)) (length es) es k found in
    let aligned = (stack_size_bounds (page_count es) bound).0 in
    let left = page_count-shrink (stack_size (page_count es)) k es whole at below aligned in
    let p =
      push_entries-usable_pages (carved (stack_size (page_count es)) k es)
        (ready hhdm (page_count es) k es).pmm
        (IsWholeMap-shrink (stack_size (page_count es)) k es whole at below aligned)
        (omega (arith, left))
        (omega (arith, length-slots es, stack_size_bounds (page_count es) bound)) in
    Ready-of_Pushes es hhdm k ne bound found p (omega (arith, left))
