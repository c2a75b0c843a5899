-- ===== src/Pmm/Shared.antt =====
-- What holds between the calls of a page allocator, olive/include/mm/pmm.h: which pages the callers
-- hold and which are free.
use mathlib.Core.List.{
  Mem, Perm, perm_append_singleton, perm_middle, append_assoc, mem-append_right, mem-append_left,
  mem-cons_self,
}
use mathlib.Core.List.Perm
use fwp_athix.Prelude.{
  ℕ, ◌+◌, ◌<◌, ◌≤◌, ◌≡◌, ◌≢◌, ◌⊎◌, ◌↔◌, refl, sym, ap, subst, ◌∙◌, inl, inr, arith, List, [], ◌∷◌,
  ◌++◌, length, length-append,
}
use fwp_athix.Outcome.{returned}
use fwp_athix.Pmm.Interface.{
  PageAllocator, IsPage, World, Step, granted, refused, given, Reach, begin, later, Serves,
}

-- A list is empty or has a last element.
pub last_cases : (xs : List ℕ) → (xs ≡ []) ⊎ ((ys : List ℕ) × (p : ℕ) × (xs ≡ ys ++ (p ∷ [])))
last_cases [] = inl refl
last_cases (x ∷ xs) = elim (last_cases xs) [
  | inl e ↦ inr ([], x, ap (λ ys. x ∷ ys) e)
  | inr (ys, p, e) ↦ inr (x ∷ ys, p, ap (λ zs. x ∷ zs) e)
]

snoc-nil : (xs : List ℕ) (p : ℕ) → xs ++ (p ∷ []) ≢ []
snoc-nil xs p e = omega (arith, ap length e, length-append xs (p ∷ []))

-- What holds between the calls: every page of the start is free or with one caller.
pub record Shared (m : PageAllocator) (s : m.State) (w : World m) : Type 0 where
  pub valid : m.IsValid w.state
  pub enough : length w.lent ≤ m.used w.state
  pub kept : Perm (w.lent ++ m.waiting w.state) (m.waiting s)

-- A page at the end of the free list becomes the first lent one.
lend-Perm : (ls xs : List ℕ) (p : ℕ) → Perm (p ∷ (ls ++ xs)) (ls ++ (xs ++ (p ∷ [])))
lend-Perm ls xs p =
    subst (Perm (p ∷ (ls ++ xs))) (append_assoc ls xs (p ∷ []))
      (Perm.symm (perm_append_singleton p (ls ++ xs)))

-- And a lent one goes to the end of the free list.
give-Perm :
    (xs ys ws : List ℕ) (p : ℕ) → Perm ((xs ++ ys) ++ (ws ++ (p ∷ []))) ((xs ++ (p ∷ ys)) ++ ws)
give-Perm xs ys ws p =
    Perm.trans (Perm.symm (lend-Perm (xs ++ ys) ws p))
      (Perm.append_right ws (Perm.symm (perm_middle xs ys)))

module _ {m : PageAllocator} {s : m.State} where
  granted-Shared :
      {v : World m} (xs : List ℕ) (p : ℕ) (t : m.State)
      → Shared m s v
      → m.waiting v.state ≡ xs ++ (p ∷ [])
      → m.IsValid t
      → m.waiting t ≡ xs
      → m.used t ≡ m.used v.state + 1
      → Shared m s (record { state = t; lent = p ∷ v.lent })
  granted-Shared {v} xs p t h e valid rest used = record {
    valid = valid;
    enough = omega (arith, h.enough);
    kept = Perm.trans (rw (rest, e) (lend-Perm v.lent xs p)) h.kept;
  }

  refused-Shared :
      {v : World m} (t : m.State)
      → Shared m s v
      → m.waiting v.state ≡ []
      → m.IsValid t
      → m.waiting t ≡ []
      → m.used t ≡ m.used v.state
      → Shared m s (record { state = t; lent = v.lent })
  refused-Shared {v} t h e valid rest used = record {
    valid = valid;
    enough = omega (arith, h.enough);
    kept = rw (rest, sym e) (h.kept);
  }

  request-Shared :
      {v : World m}
      → ((p : ℕ) → Mem p (m.waiting s) → IsPage p)
      → Shared m s v
      → (r : ℕ × m.State) × (m.pmm_request_pages 1 v.state ≡ returned r)
        × ((r.0 ≡ 0) ↔ (m.waiting v.state ≡ []))
        × (r.0 ≢ 0 → Shared m s (record { state = r.1; lent = r.0 ∷ v.lent }))
        × (r.0 ≡ 0 → Shared m s (record { state = r.1; lent = v.lent }))
  request-Shared {v} pages h = elim (last_cases (m.waiting v.state)) [
    | inl e ↦
        let (t, runs, valid, rest, used) = m.refuses v.state h.valid e in
        (
          (0, t),
          runs,
          ((λ _. e), (λ _. refl)),
          (λ ne. absurd (ne refl)),
          (λ _. refused-Shared t h e valid rest used),
        )
    | inr (xs, p, e) ↦
        let (t, runs, valid, rest, used) = m.grants v.state xs p h.valid e in
        let free : Mem p (m.waiting v.state) =
          subst (Mem p) (sym e) (mem-append_right xs mem-cons_self) in
        let page = pages p (Perm.subset h.kept p (mem-append_right v.lent free)) in
        (
          (p, t),
          runs,
          ((λ z. absurd (page.0 z)), (λ z. absurd (snoc-nil xs p (sym e ∙ z)))),
          (λ _. granted-Shared xs p t h e valid rest used),
          (λ z. absurd (page.0 z)),
        )
  ]

  -- A page that a caller holds is a page of the start.
  lent-Mem :
      {w : World m} (xs ys : List ℕ) (p : ℕ)
      → Shared m s w
      → w.lent ≡ xs ++ (p ∷ ys)
      → Mem p (m.waiting s)
  lent-Mem {w} xs ys p h e = Perm.subset h.kept p (
      mem-append_left (m.waiting w.state)
        (subst (Mem p) (sym e) (mem-append_right xs mem-cons_self)))

  give-Shared :
      {v : World m} (xs ys : List ℕ) (p : ℕ)
      → Shared m s v
      → v.lent ≡ xs ++ (p ∷ ys)
      → IsPage p
      → (t : m.State) × (m.pmm_free_pages p 1 v.state ≡ returned t)
        × Shared m s (record { state = t; lent = xs ++ ys })
  give-Shared {v} xs ys p h e page =
      let positive : 0 < m.used v.state =
        omega (arith, h.enough, ap length e, length-append xs (p ∷ ys)) in
      let (t, runs, valid, rest, used) = m.takes_back v.state p h.valid page positive in
      (
        t,
        runs,
        record {
          valid = valid;
          enough =
              omega (
                arith,
                h.enough,
                used,
                ap length e,
                length-append xs (p ∷ ys),
                length-append xs ys,
              );
          kept = Perm.trans (rw (rest, e) (give-Perm xs ys (m.waiting v.state) p)) h.kept;
        },
      )

  Step-Shared :
      {v w : World m}
      → ((p : ℕ) → Mem p (m.waiting s) → IsPage p)
      → Step m v w
      → Shared m s v
      → Shared m s w
  Step-Shared {v} pages (granted p t e ne) h =
      let (r, runs, empty, some_page, none) = request-Shared pages h in
      let same : r ≡ (p, t) = cc in
      subst
        (λ (q : ℕ × m.State). q.0 ≢ 0 → Shared m s (record { state = q.1; lent = q.0 ∷ v.lent }))
        same some_page ne
  Step-Shared {v} pages (refused t e) h =
      let (r, runs, empty, some_page, none) = request-Shared pages h in
      let same : r ≡ (0, t) = cc in
      subst (λ (q : ℕ × m.State). q.0 ≡ 0 → Shared m s (record { state = q.1; lent = v.lent })) same
        none refl
  Step-Shared {v} pages (given xs ys p t held e) h =
      let (u, runs, shared) = give-Shared xs ys p h held (pages p (lent-Mem xs ys p h held)) in
      let same : u ≡ t = cc in
      subst (λ q. Shared m s (record { state = q; lent = xs ++ ys })) same shared

  pub Reach-Shared :
      {w : World m}
      → ((p : ℕ) → Mem p (m.waiting s) → IsPage p)
      → m.IsValid s
      → Reach m s w
      → Shared m s w
  Reach-Shared pages v begin = record {
    valid = v;
    enough = omega arith;
    kept = Perm.refl (m.waiting s);
  }
  Reach-Shared pages v (later r st) = Step-Shared pages st (Reach-Shared pages v r)

  pub Shared-Serves :
      {w : World m} → ((p : ℕ) → Mem p (m.waiting s) → IsPage p) → Shared m s w → Serves m w
  Shared-Serves {w} pages h =
      let (q, runs, empty, _, _) = request-Shared pages h in
      (
        (q, runs, empty),
        λ xs ys p held.
            let back = give-Shared xs ys p h held (pages p (lent-Mem xs ys p h held)) in
            (back.0, back.1),
      )
