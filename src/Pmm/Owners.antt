-- ===== src/Pmm/Owners.antt =====
-- Who owns a page: olive/src/mm/pmm.c keeps the promises of olive/include/mm/pmm.h for single
-- pages, under which each page is free or with one caller, whatever the order of the calls.
use mathlib.Core.List.{Mem, Perm, Nodup, Pairwise, mem-cons, not-mem-nil}
use mathlib.Core.Logic.Or
use mathlib.Core.List.Perm
use native.Mathlib.Bridge.{le_prop}
use fwp_athix.Prelude.{
  ℕ, ◌+◌, ◌*◌, ◌≡◌, All, refl, sym, ap, subst, ◌∙◌, arith, List, [], ◌∷◌, ◌++◌, u64, length,
}
use fwp_athix.Macros.{page_size}
use fwp_athix.Outcome.{returned}
use fwp_athix.Pmm.{Pmm, request_pages, free_pages, live}
use fwp_athix.Pmm.Spec.{IsValid, Distinct}
use fwp_athix.Pmm.Refine.{length-live}
use fwp_athix.Pmm.Reuse.{request_pages-append, free_pages-Returned}
use fwp_athix.Pmm.Interface.{PageAllocator, IsPage, World}
use fwp_athix.Pmm.Shared.{Shared}

pub refused_empty : (s : Pmm) → IsValid s → live s ≡ [] → request_pages 1 s ≡ returned (0, s)
unfolding request_pages
refused_empty s v e = let none : s.stack_idx ≡ 0 = sym (length-live v) ∙ ap length e in ground arith

-- olive/src/mm/pmm.c as a page allocator.
abbrev pub pmm : PageAllocator
pmm = record {
  State = Pmm;
  IsValid = IsValid;
  waiting = live;
  used = λ s. s.used_pages;
  pmm_request_pages = request_pages;
  pmm_free_pages = free_pages;
  grants = λ s xs p v e.
      let got = request_pages-append xs (p ∷ []) v e (omega arith) in
      (got.out, got.runs, got.valid, got.rest, got.used);
  refuses = λ s v e. (s, refused_empty s v e, v, e, refl);
  takes_back = λ s p v page in_use.
      let back = free_pages-Returned p 1 v page.0 page.1 (omega arith) in_use in
      (
        back.out,
        back.runs,
        back.valid,
        back.pages
            ∙ ap (λ w. live s ++ (w ∷ [])) (let w : u64 (p + 0 * page_size) ≡ p = omega arith in w),
        back.used,
      );
}

module _ {P : ℕ → Type 0} (prop : (x : ℕ) → IsProp (P x)) where
  All-Mem : (xs : List ℕ) → All P xs → (x : ℕ) → Mem x xs → P x
  All-Mem [] h x m = absurd (not-mem-nil m)
  All-Mem (y ∷ ys) h x m =
      Or.elim (prop x) (mem-cons.0 m) (λ e. subst P (sym e) h.0) (λ rest. All-Mem ys h.1 x rest)

Distinct-Nodup : (xs : List ℕ) → Distinct xs → Nodup xs
Distinct-Nodup [] d = Pairwise.nil
Distinct-Nodup (x ∷ xs) d = Pairwise.cons (All-Mem (λ y. hlevel) xs d.0) (Distinct-Nodup xs d.1)

pub IsPage-Mem : (xs : List ℕ) → All IsPage xs → (p : ℕ) → Mem p xs → IsPage p
IsPage-Mem xs pages = All-Mem (λ p. hlevel (le_prop)) xs pages

-- The pages that callers hold and the free pages are those of the start, and none is among them twice.
pub Shared-partition :
    {m : PageAllocator} {s : m.State} {w : World m}
    → Distinct (m.waiting s)
    → Shared m s w
    → Perm (w.lent ++ m.waiting w.state) (m.waiting s) × Nodup (w.lent ++ m.waiting w.state)
Shared-partition {m} {s} distinct h =
    (h.kept, Perm.nodup (Perm.symm h.kept) (Distinct-Nodup (m.waiting s) distinct))
