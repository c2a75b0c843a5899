-- ===== src/Pmm/Full.antt =====
-- `pmm_free_pages` of olive/src/mm/pmm.c when the stack has no room for every page.
use mathlib.Core.List.{append_assoc, append-nil}
use fwp_athix.Prelude.{
  ℕ, zero, suc, ◌+◌, ◌-◌, ◌*◌, ◌%◌, ◌<◌, ◌≤◌, ◌≡◌, ◌≢◌, refl, sym, ap, ◌∙◌, [], ◌∷◌, ◌++◌, arith,
  u64, length, length-set,
}
use fwp_athix.Macros.{page_size}
use fwp_athix.Outcome.{returned}
use fwp_athix.Pmm.{Pmm, overflow, free_loop, free_pages, settle, live}
use fwp_athix.Pmm.Spec.{IsValid, run}
use fwp_athix.Pmm.Refine.{pushed, live-pushed, free_loop-step, free_pages-asserted}

-- The loop pushes `k` pages, finds the stack full, and leaves everything else as it was.
record Overflowed (a i n k : ℕ) (s : Pmm) : Type 0 where
  pub out : Pmm
  pub runs : free_loop a n i s ≡ overflow out
  pub pages : live out ≡ live s ++ run a i k
  pub idx : out.stack_idx ≡ s.total_pages
  pub same_free : out.free_pages ≡ s.free_pages
  pub same_used : out.used_pages ≡ s.used_pages

Overflowed-step :
    (a i n k : ℕ) (s : Pmm)
    → s.stack_idx < s.total_pages
    → s.total_pages ≤ length s.stack
    → Overflowed a (i + 1) n k (pushed a i s)
    → Overflowed a i (suc n) (suc k) s
Overflowed-step a i n k s h fits rest = record {
  out = rest.out;
  runs = free_loop-step a n i s h fits ∙ rest.runs;
  pages =
      rest.pages
      ∙ ap (λ xs. xs ++ run a (i + 1) k) (live-pushed a i s (omega arith))
      ∙ append_assoc (live s) (u64 (a + i * page_size) ∷ []) (run a (i + 1) k);
  idx = rest.idx;
  same_free = rest.same_free;
  same_used = rest.same_used;
}

free_loop-stop :
    (a n i : ℕ) (s : Pmm) → s.total_pages ≤ s.stack_idx → free_loop a (suc n) i s ≡ overflow s
unfolding free_loop
free_loop-stop a n i s full = ground arith

free_loop-Overflowed :
    (a k n i : ℕ) (s : Pmm)
    → s.stack_idx + k ≡ s.total_pages
    → k < n
    → s.total_pages ≤ length s.stack
    → Overflowed a i n k s
free_loop-Overflowed a k zero i s e lt fits = absurd (omega arith)
free_loop-Overflowed a zero (suc n) i s e lt fits = record {
  out = s;
  runs = free_loop-stop a n i s (omega arith);
  pages = sym (append-nil (live s));
  idx = omega arith;
  same_free = refl;
  same_used = refl;
}
free_loop-Overflowed a (suc k) (suc n) i s e lt fits =
    Overflowed-step a i n k s (omega arith) fits (
      free_loop-Overflowed a k n (i + 1) (pushed a i s) (omega arith) (omega arith)
        (omega (arith, length-set s.stack s.stack_idx (u64 (a + i * page_size)))))

-- On a valid state, giving back more pages, from a page-aligned, non-null address, than the stack
-- has room for still returns: the first pages fill the stack, the others are lost, and the counters
-- of free and used pages stay as they were. So the counter of free pages no longer agrees with the
-- stack, unless that was full before.
pub free_pages-overflow :
    (a n : ℕ) {s : Pmm}
    → IsValid s
    → a ≢ 0
    → a % page_size ≡ 0
    → s.total_pages < s.stack_idx + n
    → (t : Pmm) × (free_pages a n s ≡ returned t)
      × (live t ≡ live s ++ run a 0 (s.total_pages - s.stack_idx))
      × (t.free_pages ≡ s.free_pages)
      × (t.used_pages ≡ s.used_pages)
      × (s.stack_idx < s.total_pages → ¬ IsValid t)
free_pages-overflow a n {s} v ne aligned over =
    let stop =
      free_loop-Overflowed a (s.total_pages - s.stack_idx) n 0 s (omega arith) (omega arith)
        v.fits in
    (
      stop.out,
      free_pages-asserted a n s ne aligned (omega arith) ∙ ap (settle n) stop.runs,
      stop.pages,
      stop.same_free,
      stop.same_used,
      λ room valid. absurd (omega (arith, stop.idx, stop.same_free, valid.counted)),
    )
