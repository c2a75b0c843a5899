-- ===== src/Pmm/Series.antt =====
-- Series of single pages: `pmm_request_pages(1)` and `pmm_free_pages(p, 1)` of olive/src/mm/pmm.c many
-- times in a row.
use mathlib.Core.List.{
  Mem, Perm, foldr, reverse, reverse-cons, reverse_perm, mem-cons_self, mem-cons_of_mem, append-nil,
  append_assoc, mem-append_right,
}
use mathlib.Core.List.Perm
use native.Mathlib.Nat.{ℕ_set}
use fwp_athix.Prelude.{
  ℕ, zero, suc, ◌+◌, ◌≤◌, ◌≡◌, refl, sym, ap, subst, ◌∙◌, inl, inr, arith, List, [], ◌∷◌, ◌++◌,
  length, All, length-append,
}
use fwp_athix.Outcome.{Outcome, returned, ◌>>=◌}
use fwp_athix.Pmm.{Pmm, request_pages, free_pages, live}
use fwp_athix.Pmm.Spec.{IsValid}
use fwp_athix.Pmm.Interface.{IsPage}
use fwp_athix.Pmm.Shared.{last_cases}
use fwp_athix.Pmm.Owners.{pmm, IsPage-Mem}

-- `n` requests of one page in a row, and what they return, the first page first
unfoldable pub take_all : ℕ → Pmm → Outcome (List ℕ × Pmm)
take_all zero s = returned ([], s)
take_all (suc n) s = do (p, t) ← request_pages 1 s; (ps, u) ← take_all n t; returned (p ∷ ps, u)

-- Pages given back one at a time
unfoldable pub give_all : List ℕ → Pmm → Outcome Pmm
give_all [] s = returned s
give_all (p ∷ ps) s = do t ← free_pages p 1 s; give_all ps t

length-foldr : (xs : List ℕ) → foldr (λ x n. suc n) 0 xs ≡ length xs
length-foldr [] = refl
length-foldr (x ∷ xs) = ap suc (length-foldr xs)

length-Perm : {xs ys : List ℕ} → Perm xs ys → length xs ≡ length ys
length-Perm {xs} {ys} h =
    sym (length-foldr xs) ∙ Perm.foldr-eq ℕ_set (λ x n. suc n) (λ x y n. refl) h 0 ∙ length-foldr ys

record Taken (n : ℕ) (s : Pmm) : Type 0 where
  pages : List ℕ
  out : Pmm
  runs : take_all n s ≡ returned (pages, out)
  valid : IsValid out
  number : length pages ≡ n
  kept : live s ≡ live out ++ reverse pages
  used : out.used_pages ≡ s.used_pages + n

take_all-Taken : (n : ℕ) (s : Pmm) → IsValid s → n ≤ length (live s) → Taken n s
unfolding take_all
take_all-Taken zero s v enough = record {
  pages = [];
  out = s;
  runs = refl;
  valid = v;
  number = omega arith;
  kept = sym (append-nil (live s));
  used = omega arith;
}
take_all-Taken (suc n) s v enough = elim (last_cases (live s)) [
  | inl e ↦ absurd (omega (arith, enough, ap length e))
  | inr (xs, p, e) ↦
      let (t, runs, valid, rest, used) = pmm.grants s xs p v e in
      let more =
        take_all-Taken n t valid
          (omega (arith, ap length e, length-append xs (p ∷ []), ap length rest)) in
      record {
        pages = p ∷ more.pages;
        out = more.out;
        runs =
            ap (λ o. o >>= (λ r. take_all n r.1 >>= (λ q. returned (r.0 ∷ q.0, q.1)))) runs
            ∙ ap (λ o. o >>= (λ q. returned (p ∷ q.0, q.1))) more.runs;
        valid = more.valid;
        number = omega (arith, more.number);
        kept =
            e
            ∙ ap (λ ys. ys ++ (p ∷ [])) (sym rest ∙ more.kept)
            ∙ append_assoc (live more.out) (reverse more.pages) (p ∷ [])
            ∙ ap (λ ys. live more.out ++ ys) (sym (reverse-cons p more.pages));
        used = omega (arith, more.used, used);
      }
]

give_all-append :
    (ps : List ℕ) (s : Pmm)
    → IsValid s
    → ((p : ℕ) → Mem p ps → IsPage p)
    → length ps ≤ s.used_pages
    → (t : Pmm) × (give_all ps s ≡ returned t) × (live t ≡ live s ++ ps)
unfolding give_all
give_all-append [] s v pages held = (s, refl, sym (append-nil (live s)))
give_all-append (p ∷ ps) s v pages held =
    let (t, runs, valid, rest, used) =
      pmm.takes_back s p v (pages p mem-cons_self) (omega (arith, held)) in
    let (u, more, all) =
      give_all-append ps t valid (λ q h. pages q (mem-cons_of_mem p h))
        (omega (arith, held, used)) in
    (
      u,
      ap (λ o. o >>= give_all ps) runs ∙ more,
      all ∙ ap (λ ys. ys ++ ps) rest ∙ append_assoc (live s) (p ∷ []) ps,
    )

-- In a valid state whose free pages are page addresses and where `n` of them are free, `n` requests of
-- one page return the last `n` pages of the free list, the last one first. Given back one at a time,
-- the page that was requested last first, each call returns, and the free list is the one that there
-- was; given back in any other order, the list ends with them in that order.
pub give_all-take_all :
    (n : ℕ) (s : Pmm) (reorder : List ℕ → List ℕ)
    → ((xs : List ℕ) → Perm (reorder xs) xs)
    → IsValid s
    → All IsPage (live s)
    → n ≤ length (live s)
    → (ps : List ℕ) × (t u w : Pmm) × (take_all n s ≡ returned (ps, t))
      × (length ps ≡ n)
      × (live s ≡ live t ++ reverse ps)
      × (give_all (reverse ps) t ≡ returned u)
      × (live u ≡ live s)
      × (give_all (reorder ps) t ≡ returned w)
      × (live w ≡ live t ++ reorder ps)
give_all-take_all n s reorder same v pages enough =
    let r = take_all-Taken n s v enough in
    let held = λ (ys : List ℕ) (h : Perm ys (reverse r.pages)) (p : ℕ) (m : Mem p ys).
      IsPage-Mem (live s) pages p
        (subst (Mem p) (sym r.kept) (mem-append_right (live r.out) (Perm.subset h p m))) in
    let number : length r.pages ≤ r.out.used_pages = omega (arith, r.number, r.used) in
    let backward = reverse_perm r.pages in
    let other = Perm.trans (same r.pages) (Perm.symm backward) in
    let (u, runs, all) =
      give_all-append (reverse r.pages) r.out r.valid (held (reverse r.pages) (Perm.refl _))
        (subst (λ k. k ≤ r.out.used_pages) (sym (length-Perm backward)) number) in
    let (w, runs', all') =
      give_all-append (reorder r.pages) r.out r.valid (held (reorder r.pages) other)
        (subst (λ k. k ≤ r.out.used_pages) (sym (length-Perm (same r.pages))) number) in
    (r.pages, r.out, u, w, r.runs, r.number, r.kept, runs, all ∙ sym r.kept, runs', all')
