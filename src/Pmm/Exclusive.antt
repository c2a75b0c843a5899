-- ===== src/Pmm/Exclusive.antt =====
-- Who owns a page: single pages of olive/src/mm/pmm.c are never handed out twice, and blocks of
-- several pages can be.
use fwp_athix.Prelude.{
  ℕ, ◌+◌, ◌*◌, ◌%◌, ◌^◌, ◌<◌, ◌≤◌, ◌≡◌, ◌≢◌, refl, sym, ap, ap₂, subst, ◌∙◌, List, [], ◌∷◌, ◌++◌,
  arith, u64, All,
}
use mathlib.Core.List.{append_assoc}
use fwp_athix.Macros.{page_size}
use fwp_athix.Outcome.{Outcome, returned, ◌>>=◌}
use fwp_athix.Pmm.{Pmm, request_pages, free_pages, live}
use fwp_athix.Pmm.Spec.{Distinct-last, Distinct-snoc, IsValid, run, Distinct}
use fwp_athix.Pmm.Interface.{IsPage}
use fwp_athix.Pmm.Reuse.{Granted, request_pages-append, free_pages-Returned}

-- On a valid state, a single page that is requested while no page stands twice on the free list is
-- no longer on it, and still none stands twice.
request_pages-exclusive :
    {s : Pmm} (xs : List ℕ) (p : ℕ)
    → IsValid s
    → live s ≡ xs ++ (p ∷ [])
    → Distinct (live s)
    → (t : Pmm) × (request_pages 1 s ≡ returned (p, t))
      × IsValid t
      × Distinct (live t)
      × All (λ x. p ≢ x) (live t)
request_pages-exclusive xs p v e distinct =
    let got = request_pages-append xs (p ∷ []) v e (omega arith) in
    let (rest, apart) = Distinct-last xs p (subst Distinct e distinct) in
    (
      got.out,
      got.runs,
      got.valid,
      subst Distinct (sym got.rest) rest,
      subst (All (λ x. p ≢ x)) (sym got.rest) apart,
    )

-- On a valid state, a page-aligned, non-null page that is given back while pages are in use, and
-- was not on the free list, leaves the list distinct.
free_pages-exclusive :
    {s : Pmm} (p : ℕ)
    → IsValid s
    → Distinct (live s)
    → All (λ x. p ≢ x) (live s)
    → p < 2 ^ 64
    → p ≢ 0
    → p % page_size ≡ 0
    → 0 < s.used_pages
    → (t : Pmm) × (free_pages p 1 s ≡ returned t) × IsValid t × Distinct (live t)
free_pages-exclusive {s} p v distinct apart bound ne aligned in_use =
    let back = free_pages-Returned p 1 v ne aligned (omega arith) in_use in
    (
      back.out,
      back.runs,
      back.valid,
      subst Distinct
          (ap (λ w. live s ++ (w ∷ [])) (let w : p ≡ u64 (p + 0 * page_size) = omega arith in w)
            ∙ sym back.pages)
          (Distinct-snoc (live s) p distinct apart),
    )

-- A client takes three pages, gives them back in another order, and asks for a block of two pages
-- and then for one page: the first page of the block, and the single page.
unfoldable pub fragment : Pmm → Outcome (ℕ × ℕ)
fragment s = do
  (c, s1) ← request_pages 1 s
  (b, s2) ← request_pages 1 s1
  (a, s3) ← request_pages 1 s2
  s4 ← free_pages b 1 s3
  s5 ← free_pages a 1 s4
  s6 ← free_pages c 1 s5
  (block, s7) ← request_pages 2 s6
  (page, s8) ← request_pages 1 s7
  returned (block, page)

-- What giving back one page does to the free list `ys`.
record Back (p : ℕ) (s : Pmm) (ys : List ℕ) : Type 0 where
  pub out : Pmm
  pub runs : free_pages p 1 s ≡ returned out
  pub valid : IsValid out
  pub rest : live out ≡ ys ++ (p ∷ [])
  pub used : out.used_pages + 1 ≡ s.used_pages

give-Back :
    {s : Pmm} (p : ℕ) (ys : List ℕ)
    → IsValid s
    → live s ≡ ys
    → IsPage p
    → 0 < s.used_pages
    → Back p s ys
give-Back p ys v e page in_use =
    let back = free_pages-Returned p 1 v page.0 page.1 (omega arith) in_use in
    record {
      out = back.out;
      runs = back.runs;
      valid = back.valid;
      rest =
          back.pages
          ∙ ap₂ (λ zs w. zs ++ (w ∷ [])) e (let w : u64 (p + 0 * page_size) ≡ p = omega arith in w);
      used = back.used;
    }

take_page :
    {s : Pmm} (p : ℕ) (ys zs : List ℕ)
    → IsValid s
    → live s ≡ zs
    → zs ≡ ys ++ (p ∷ [])
    → Granted s ys (p ∷ [])
take_page p ys zs v e f = request_pages-append ys (p ∷ []) v (e ∙ f) (omega arith)

-- With the pages `a`, `b`, `c` at the end of the free list, the block of two pages that `fragment`
-- gets begins at `a`, although the second page that left the list is `c`; the single page that it
-- gets afterwards is `b`.
pub fragment_lem :
    {s : Pmm} (xs : List ℕ) (a b c : ℕ)
    → IsValid s
    → live s ≡ xs ++ (a ∷ b ∷ c ∷ [])
    → IsPage a
    → IsPage b
    → IsPage c
    → fragment s ≡ returned (a, b)
unfolding fragment
fragment_lem {s} xs a b c v e pa pb pc =
    let s1 =
      take_page c (xs ++ (a ∷ b ∷ [])) (xs ++ (a ∷ b ∷ c ∷ [])) v e
        (sym (append_assoc xs (a ∷ b ∷ []) (c ∷ []))) in
    let s2 =
      take_page b (xs ++ (a ∷ [])) (xs ++ (a ∷ b ∷ [])) s1.valid s1.rest
        (sym (append_assoc xs (a ∷ []) (b ∷ []))) in
    let s3 = take_page a xs (xs ++ (a ∷ [])) s2.valid s2.rest refl in
    let s4 = give-Back b xs s3.valid s3.rest pb (omega (arith, s3.used)) in
    let s5 =
      give-Back a (xs ++ (b ∷ [])) s4.valid s4.rest pa (omega (arith, s3.used, s2.used, s4.used)) in
    let s6 =
      give-Back c ((xs ++ (b ∷ [])) ++ (a ∷ [])) s5.valid s5.rest pc
        (omega (arith, s3.used, s2.used, s1.used, s4.used, s5.used)) in
    let s7 =
      request_pages-append (xs ++ (b ∷ [])) (a ∷ c ∷ []) s6.valid
        (s6.rest ∙ append_assoc (xs ++ (b ∷ [])) (a ∷ []) (c ∷ [])) (omega arith) in
    let s8 = take_page b xs (xs ++ (b ∷ [])) s7.valid s7.rest refl in
    rw (s1.runs, s2.runs, s3.runs, s4.runs, s5.runs, s6.runs, s7.runs, s8.runs) refl

-- So on a valid state whose free list ends in three consecutive pages from `a`, a block of two
-- pages from `a` is handed out, and then the single page `a + PAGE_SIZE`, which lies inside the
-- block.
pub fragment_overlaps :
    {s : Pmm} (xs : List ℕ) (a : ℕ)
    → IsValid s
    → live s ≡ xs ++ run a 0 3
    → a ≢ 0
    → a % page_size ≡ 0
    → a + 3 * page_size ≤ 2 ^ 64
    → fragment s ≡ returned (a, a + page_size)
fragment_overlaps {s} xs a v e ne aligned bound =
    fragment_lem xs a (a + page_size) (a + 2 * page_size) v (e ∙ ap (λ ys. xs ++ ys) pages)
      (omega arith) (omega arith) (omega arith)
  where
    pages : run a 0 3 ≡ a ∷ (a + page_size) ∷ (a + 2 * page_size) ∷ []
    pages = ground arith
