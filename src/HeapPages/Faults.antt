-- ===== src/HeapPages/Faults.antt =====
-- What liballoc gets from the pages of olive/src/mm/liballoc/liballoc_wrappers.c: the answer when
-- memory has run out, and the free list after pages have come back.
use fwp_athix.Prelude.{
  ℕ, zero, suc, ◌+◌, ◌*◌, ◌%◌, ◌^◌, ◌<◌, ◌≡◌, ◌≢◌, refl, sym, ap, ◌∙◌, true, ◌||◌, List, ◌++◌,
  arith, u64, ltb, ◌==◌,
}
use fwp_athix.Outcome.{returned}
use fwp_athix.Macros.{page_size}
use fwp_athix.Pmm.{request_pages, live}
use fwp_athix.Pmm.Spec.{IsValid, run, length-run}
use fwp_athix.Pmm.Reuse.{request_pages-append, free_pages-Returned}
use fwp_athix.HeapPages.{HeapPages, liballoc_alloc, liballoc_free}

-- With a nonzero `_hhdm_offset`, when fewer than `n` pages are free, `liballoc_alloc` does not
-- return NULL, which liballoc tests for: it returns the address of the direct map, where physical
-- address 0 is mapped.
pub liballoc_alloc-exhausted :
    (n : ℕ) (s : HeapPages)
    → s.pmm.stack_idx < n
    → 0 < s.hhdm_offset
    → s.hhdm_offset < 2 ^ 64
    → (liballoc_alloc n s ≡ returned (s.hhdm_offset, s)) × (s.hhdm_offset ≢ 0)
unfolding liballoc_alloc request_pages
liballoc_alloc-exhausted n s short pos bound = (
  rw (refused, let e : u64 (0 + s.hhdm_offset) ≡ s.hhdm_offset = omega arith in e) refl,
  omega arith,
)
  where
    refused : ((n == 0) || ltb s.pmm.stack_idx n) ≡ true
    refused = ground arith

-- On a valid state, with a nonzero, page-aligned `_hhdm_offset`: pages that liballoc gets and gives
-- back do not come back as they were: where the free list ended in the physical pages from `a`, it
-- ends in their virtual addresses, from `a + _hhdm_offset`.
pub liballoc_free-alloc :
    (a n : ℕ) (s : HeapPages) (xs : List ℕ)
    → IsValid s.pmm
    → live s.pmm ≡ xs ++ run a 0 n
    → 0 < n
    → a % page_size ≡ 0
    → s.hhdm_offset % page_size ≡ 0
    → 0 < s.hhdm_offset
    → a + s.hhdm_offset < 2 ^ 64
    → (t u : HeapPages) × (liballoc_alloc n s ≡ returned (a + s.hhdm_offset, t))
      × (liballoc_free (a + s.hhdm_offset) n t ≡ returned u)
      × (live u.pmm ≡ xs ++ run (a + s.hhdm_offset) 0 n)
unfolding liballoc_alloc liballoc_free
liballoc_free-alloc a zero s xs v e pos al ah hp bound = elim pos [ ]
liballoc_free-alloc a (suc n) s xs v e pos al ah hp bound =
    let len = length-run a 0 (suc n) in
    let got = request_pages-append xs (run a 0 (suc n)) v e (omega arith) in
    let back =
      free_pages-Returned (a + s.hhdm_offset) (suc n) got.valid (omega arith) (omega arith)
        (omega arith) (omega (arith, got.used)) in
    let asked : request_pages (suc n) s.pmm ≡ returned (u64 (a + 0 * page_size), got.out) =
      ap (λ k. request_pages k s.pmm) (sym len) ∙ got.runs in
    (
      record s { pmm = got.out },
      record s { pmm = back.out },
      rw asked (
          ap (λ p. returned (p, record s { pmm = got.out }))
            (let w : u64 (u64 (a + 0 * page_size) + s.hhdm_offset) ≡ a + s.hhdm_offset =
                omega arith in
              w)),
      rw back.runs refl,
      back.pages ∙ ap (λ ys. ys ++ run (a + s.hhdm_offset) 0 (suc n)) got.rest,
    )
