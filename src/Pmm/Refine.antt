-- ===== src/Pmm/Refine.antt =====
-- `pmm_request_pages` and `pmm_free_pages` implement the list of free pages.
use mathlib.Core.List.{append_assoc, append-nil}
use fwp_athix.Prelude.{
  ℕ, zero, suc, ◌+◌, ◌-◌, ◌*◌, ◌%◌, ◌<◌, ◌≤◌, ◌≡◌, ◌≢◌, inl, inr, refl, sym, ap, ap₂, ◌∙◌, ◌||◌,
  List, [], ◌∷◌, ◌++◌, arith, u64, sub64, ltb, ◌==◌, Bool-cases, length, get_or, set, take,
  length-set, length-take, take-set-suc, take-take, get_or-take,
}
use fwp_athix.Macros.{page_size}
use fwp_athix.Outcome.{returned}
use fwp_athix.Pmm.{Pmm, request_pages, all_pushed, free_loop, free_pages, live, settle}
use fwp_athix.Pmm.Spec.{IsValid, run, request_spec, free_spec}

pub length-live : {s : Pmm} → IsValid s → length (live s) ≡ s.stack_idx
length-live {s} v = omega (arith, length-take s.stack_idx s.stack)

-- The state after `n` pages have left the stack.
abbrev pub without : ℕ → Pmm → Pmm
without n s = record s {
  stack_idx = s.stack_idx - n;
  used_pages = u64 (s.used_pages + n);
  free_pages = sub64 s.free_pages n;
}

pub request_pages-granted :
    (n : ℕ) {s : Pmm}
    → IsValid s
    → 0 < n
    → n ≤ s.stack_idx
    → request_pages n s ≡ returned (get_or s.stack (s.stack_idx - n) 0, without n s)
unfolding request_pages
request_pages-granted n {s} v pos h = ground arith

pub without-IsValid : (n : ℕ) {s : Pmm} → IsValid s → n ≤ s.stack_idx → IsValid (without n s)
without-IsValid n {s} v h = record {
  counted = omega arith;
  room = omega arith;
  fits = v.fits;
  small = v.small;
}

-- On a valid state `pmm_request_pages` returns, keeps the state valid, and does on the list of
-- free pages what the specification says: on every branch, for every count.
pub request_pages-refines :
    (n : ℕ) {s : Pmm}
    → IsValid s
    → (r : ℕ × Pmm) × (request_pages n s ≡ returned r)
      × IsValid r.1
      × (◌≡◌ {A = ℕ × List ℕ} (r.0, live r.1) (request_spec n (live s)))
request_pages-refines n {s} v = elim (Bool-cases ((n == 0) || ltb s.stack_idx n)) [
  | inl refused ↦
      ((0, s), unfold request_pages in rw refused refl, v, rw (length-live v, refused) refl)
  | inr granted ↦
      let pos : 0 < n = ground arith in
      let enough : n ≤ s.stack_idx = ground arith in
      (
        (get_or s.stack (s.stack_idx - n) 0, without n s),
        request_pages-granted n v pos enough,
        without-IsValid n v enough,
        rw (length-live v, granted)
            (ap₂ (λ p (xs : List ℕ). (p, xs))
              (sym (get_or-take s.stack_idx (s.stack_idx - n) s.stack 0 (omega arith)))
              (sym (take-take (s.stack_idx - n) s.stack_idx s.stack (omega arith)))),
      )
]

-- The loop of `pmm_free_pages` with room for every page: the pages stand on the stack in order,
-- and nothing but the stack and its index has changed.
record Filled (a i n : ℕ) (s : Pmm) : Type 0 where
  pub out : Pmm
  pub runs : free_loop a n i s ≡ all_pushed out
  pub pages : live out ≡ live s ++ run a i n
  pub idx : out.stack_idx ≡ s.stack_idx + n
  pub same_free : out.free_pages ≡ s.free_pages
  pub same_used : out.used_pages ≡ s.used_pages
  pub same_total : out.total_pages ≡ s.total_pages
  pub same_length : length out.stack ≡ length s.stack

abbrev pub pushed : ℕ → ℕ → Pmm → Pmm
pushed a i s = record s {
  stack = set s.stack s.stack_idx (u64 (a + i * page_size));
  stack_idx = s.stack_idx + 1;
}

pub live-pushed :
    (a i : ℕ) (s : Pmm)
    → s.stack_idx < length s.stack
    → live (pushed a i s) ≡ live s ++ (u64 (a + i * page_size) ∷ [])
live-pushed a i s h =
    ap (λ k. take k (set s.stack s.stack_idx (u64 (a + i * page_size))))
      (let e : s.stack_idx + 1 ≡ suc s.stack_idx = omega arith in e)
    ∙ take-set-suc s.stack_idx s.stack (u64 (a + i * page_size)) h

pub free_loop-step :
    (a n i : ℕ) (s : Pmm)
    → s.stack_idx < s.total_pages
    → s.total_pages ≤ length s.stack
    → free_loop a (suc n) i s ≡ free_loop a n (i + 1) (pushed a i s)
unfolding free_loop
free_loop-step a n i s h fits = ground arith

-- One round pushes one page; the rest is the loop from the next index.
Filled-step :
    (a i n : ℕ) (s : Pmm)
    → s.stack_idx < s.total_pages
    → s.total_pages ≤ length s.stack
    → Filled a (i + 1) n (pushed a i s)
    → Filled a i (suc n) s
Filled-step a i n s h fits rest = record {
  out = rest.out;
  runs = free_loop-step a n i s h fits ∙ rest.runs;
  pages =
      rest.pages
      ∙ ap (λ xs. xs ++ run a (i + 1) n) (live-pushed a i s (omega arith))
      ∙ append_assoc (live s) (u64 (a + i * page_size) ∷ []) (run a (i + 1) n);
  idx = omega (arith, rest.idx);
  same_free = rest.same_free;
  same_used = rest.same_used;
  same_total = rest.same_total;
  same_length = rest.same_length ∙ length-set s.stack s.stack_idx (u64 (a + i * page_size));
}

free_loop-Filled :
    (a n i : ℕ) (s : Pmm)
    → s.stack_idx + n ≤ s.total_pages
    → s.total_pages ≤ length s.stack
    → Filled a i n s
free_loop-Filled a zero i s h fits = record {
  out = s;
  runs = unfold free_loop in refl;
  pages = sym (append-nil (live s));
  idx = omega arith;
  same_free = refl;
  same_used = refl;
  same_total = refl;
  same_length = refl;
}
free_loop-Filled a (suc n) i s h fits = Filled-step a i n s (omega arith) fits (
    free_loop-Filled a n (i + 1) (pushed a i s) (omega arith)
      (omega (arith, length-set s.stack s.stack_idx (u64 (a + i * page_size)))))

pub free_pages-asserted :
    (a n : ℕ) (s : Pmm)
    → a ≢ 0
    → a % page_size ≡ 0
    → 0 < n
    → free_pages a n s ≡ settle n (free_loop a n 0 s)
unfolding free_pages
free_pages-asserted a n s ne aligned pos = ground arith

-- The state after the loop, with the counters brought up to date.
abbrev settled : ℕ → Pmm → Pmm
settled n t = record t { free_pages = u64 (t.free_pages + n); used_pages = sub64 t.used_pages n }

settled-IsValid :
    (a n : ℕ) {s : Pmm}
    → IsValid s
    → n ≤ s.used_pages
    → (f : Filled a 0 n s) → IsValid (settled n f.out)
settled-IsValid a n v in_use f = record {
  counted = omega arith;
  room = omega arith;
  fits = omega arith;
  small = omega arith;
}

settled-used :
    {a : ℕ} (n : ℕ) {s : Pmm}
    → IsValid s
    → n ≤ s.used_pages
    → (f : Filled a 0 n s) → (settled n f.out).used_pages + n ≡ s.used_pages
settled-used n v in_use f = omega arith

-- Giving back at most as many pages as are in use never overflows the stack: on a valid state
-- `pmm_free_pages` of a page-aligned, non-null block returns a valid state, and appends the
-- block's pages to the free list, and counts them as no longer in use.
pub free_pages-refines :
    (a n : ℕ) {s : Pmm}
    → IsValid s
    → a ≢ 0
    → a % page_size ≡ 0
    → 0 < n
    → n ≤ s.used_pages
    → (t : Pmm) × (free_pages a n s ≡ returned t)
      × IsValid t
      × (live t ≡ free_spec a n (live s))
      × (t.used_pages + n ≡ s.used_pages)
free_pages-refines a n {s} v ne aligned pos in_use =
    let filled = free_loop-Filled a n 0 s (omega arith) v.fits in
    (
      settled n filled.out,
      free_pages-asserted a n s ne aligned pos ∙ ap (settle n) filled.runs,
      settled-IsValid a n v in_use filled,
      filled.pages,
      settled-used n v in_use filled,
    )
