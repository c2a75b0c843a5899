-- ===== src/Pmm/Reuse.antt =====
-- What a client of the page allocator of olive/src/mm/pmm.c sees across calls: blocks that come
-- back, pages that are handed out twice, and a stack that is full.
use fwp_athix.Prelude.{
  ℕ, zero, suc, ◌+◌, ◌-◌, ◌*◌, ◌%◌, ◌^◌, ◌<◌, ◌≤◌, ◌≡◌, ◌≢◌, sym, ap, ◌∙◌, List, ◌++◌, arith, u64,
  length, get_or, take, length-append, get_or-append, take-append, take-take, get_or-take,
}
use fwp_athix.Macros.{page_size}
use fwp_athix.Outcome.{returned}
use fwp_athix.Pmm.{Pmm, request_pages, free_pages, live}
use fwp_athix.Pmm.Spec.{IsValid, run, length-run, free_spec}
use fwp_athix.Pmm.Refine.{
  length-live, without, without-IsValid, request_pages-granted, free_pages-refines,
}

-- What a request does to a free list that ends in the block `ys`.
pub record Granted (s : Pmm) (xs ys : List ℕ) : Type 0 where
  pub out : Pmm
  pub runs : request_pages (length ys) s ≡ returned (get_or ys 0 0, out)
  pub valid : IsValid out
  pub rest : live out ≡ xs
  pub used : out.used_pages ≡ s.used_pages + length ys

-- On a valid state, a request for as many pages as the end `ys` of the free list holds takes
-- exactly those, and returns the first of them.
pub request_pages-append :
    {s : Pmm} (xs ys : List ℕ) → IsValid s → live s ≡ xs ++ ys → 0 < length ys → Granted s xs ys
request_pages-append {s} xs ys v e pos = record {
  out = without (length ys) s;
  runs =
      request_pages-granted (length ys) v pos (omega (arith, total))
      ∙ ap (λ p. returned (p, without (length ys) s)) first;
  valid = without-IsValid (length ys) v (omega (arith, total));
  rest = kept;
  used = omega (arith, total);
}
  where
    total : length xs + length ys ≡ s.stack_idx
    total = omega (arith, length-append xs ys, ap length e, length-live v)

    start : s.stack_idx - length ys ≡ length xs
    start = omega (arith, total)

    first : get_or s.stack (s.stack_idx - length ys) 0 ≡ get_or ys 0 0
    first =
        sym (get_or-take s.stack_idx (s.stack_idx - length ys) s.stack 0 (omega (arith, total)))
        ∙ ap (λ zs. get_or zs (s.stack_idx - length ys) 0) e
        ∙ ap (λ k. get_or (xs ++ ys) k 0) start
        ∙ get_or-append xs ys 0

    kept : take (s.stack_idx - length ys) s.stack ≡ xs
    kept =
        sym (take-take (s.stack_idx - length ys) s.stack_idx s.stack (omega (arith, total)))
        ∙ ap (take (s.stack_idx - length ys)) e
        ∙ ap (λ k. take k (xs ++ ys)) start
        ∙ take-append xs ys

-- What giving back `n` pages from `a` does to the free list.
pub record Returned (a n : ℕ) (s : Pmm) : Type 0 where
  pub out : Pmm
  pub runs : free_pages a n s ≡ returned out
  pub valid : IsValid out
  pub pages : live out ≡ free_spec a n (live s)
  pub used : out.used_pages + n ≡ s.used_pages

pub free_pages-Returned :
    (a n : ℕ) {s : Pmm}
    → IsValid s
    → a ≢ 0
    → a % page_size ≡ 0
    → 0 < n
    → n ≤ s.used_pages
    → Returned a n s
free_pages-Returned a n v ne aligned pos in_use =
    let (t, runs, valid, pages, used) = free_pages-refines a n v ne aligned pos in_use in
    record { out = t; runs = runs; valid = valid; pages = pages; used = used }

-- On a valid state, a page-aligned, non-null block of consecutive pages at the end of the free list
-- that is requested and given back is on the free list again, in the same place.
pub free-request_pages :
    (a n : ℕ) {s : Pmm} (xs : List ℕ)
    → IsValid s
    → live s ≡ xs ++ run a 0 n
    → a < 2 ^ 64
    → a ≢ 0
    → a % page_size ≡ 0
    → 0 < n
    → (t u : Pmm) × (request_pages n s ≡ returned (a, t))
      × (free_pages a n t ≡ returned u)
      × IsValid u
      × (live u ≡ live s)
free-request_pages a zero xs v e bound ne aligned pos = elim pos [ ]
free-request_pages a (suc n) {s} xs v e bound ne aligned pos =
    let len = length-run a 0 (suc n) in
    let got = request_pages-append xs (run a 0 (suc n)) v e (omega arith) in
    let back = free_pages-Returned a (suc n) got.valid ne aligned pos (omega (arith, got.used)) in
    (
      got.out,
      back.out,
      ap (λ k. request_pages k s) (sym len)
          ∙ got.runs
          ∙ ap (λ p. returned (p, got.out))
              (let w : u64 (a + 0 * page_size) ≡ a = omega arith in w),
      back.runs,
      back.valid,
      back.pages ∙ ap (λ ys. ys ++ run a 0 (suc n)) got.rest ∙ sym e,
    )
