-- ===== src/Vmm/Below.antt =====
-- `get_below_pml` of olive/src/mm/vmm.c on page tables that form a tree.
use fwp_athix.Prelude.{
  ℕ, suc, ◌+◌, ◌-◌, ◌<◌, ◌≤◌, ◌≡◌, ◌≢◌, inl, inr, refl, sym, ap, subst, ◌∙◌, true, false,
  Bool-cases, arith, u64, ◌==◌, All, All-append_left, List, [], ◌∷◌, ◌++◌, length, length-append,
  get_or, take, take-suc, ne→==, ==→eq,
}
use fwp_athix.Outcome.{returned}
use fwp_athix.Pmm.{Pmm, live}
use fwp_athix.Pmm.Spec.{IsValid, Distinct, Distinct-last}
use fwp_athix.Pmm.Refine.{length-live}
use fwp_athix.Pmm.Reuse.{Granted, request_pages-append}
use fwp_athix.Vmm.{Vmm, is_present, get_below_pml}
use fwp_athix.Vmm.Entry.{frame_of, IsFrame, entry, table_entry-present}
use fwp_athix.Vmm.Tree.{
  Levels, at_level, IsTree, install, install-IsTree, install_self, install_other, level_old,
  link-frame,
}
use fwp_athix.Vmm.Walk.{leaf, AreIndices, leaf-install}

-- A free page can become a table.
abbrev pub IsSpare : ℕ → Levels → ℕ → Type 0
IsSpare h lvl p = IsFrame h p × (lvl p ≡ 0) × (p ≢ 0)

-- The state between two calls: the tables form a tree, and no table is on the free list.
pub record Inv (lvl : Levels) (s : Vmm) : Type 0 where
  pub tree : IsTree s.hhdm_offset lvl s.mem
  pub offset : 0 < s.hhdm_offset
  pub valid : IsValid s.pmm
  pub distinct : Distinct (live s.pmm)
  pub spare : All (IsSpare s.hhdm_offset lvl) (live s.pmm)

-- `get_below_pml` changes the memory and the page allocator only.
abbrev pub after : Vmm → (ℕ → ℕ) → Pmm → Vmm
after s m p = record s { mem = m; pmm = p }

-- The state with memory `m` and allocator `p` is `s` with more tables or none: `lvl'` gives the
-- levels. At most `n` pages have left the free list.
pub record Grown (n : ℕ) (lvl : Levels) (s : Vmm) (lvl' : Levels) (m : ℕ → ℕ) (p : Pmm)
    : Type 0 where
  pub inv : Inv lvl' (after s m p)
  pub keeps : (q : ℕ) → 0 < lvl q → lvl' q ≡ lvl q
  pub walks :
      (is : List ℕ) (q : ℕ)
      → lvl q ≡ length is
      → AreIndices is
      → leaf m s.hhdm_offset q is ≡ leaf s.mem s.hhdm_offset q is
  pub stays :
      (q j : ℕ)
      → 1 < lvl q
      → j < 512
      → is_present (entry s.mem s.hhdm_offset q j) ≡ true
      → entry m s.hhdm_offset q j ≡ entry s.mem s.hhdm_offset q j
  pub left : s.pmm.stack_idx ≤ n + p.stack_idx

-- Entry `i` of table `t` now names the table that the call returned.
pub record Found (lvl : Levels) (s : Vmm) (t i : ℕ) : Type 0 where
  pub lvl' : Levels
  pub mem : ℕ → ℕ
  pub pmm : Pmm
  pub child : ℕ
  pub runs :
      get_below_pml (u64 (t + s.hhdm_offset)) i true s
      ≡ returned (u64 (child + s.hhdm_offset), after s mem pmm)
  pub grown : Grown 1 lvl s lvl' mem pmm
  pub on : is_present (entry mem s.hhdm_offset t i) ≡ true
  pub link : frame_of (entry mem s.hhdm_offset t i) ≡ child

-- The last page of a free list that is not empty.
live-snoc :
    {s : Pmm}
    → IsValid s
    → 0 < s.stack_idx
    → live s ≡ take (s.stack_idx - 1) s.stack ++ (get_or s.stack (s.stack_idx - 1) 0 ∷ [])
live-snoc {s} v pos =
    ap (λ k. take k s.stack) (let e : s.stack_idx ≡ suc (s.stack_idx - 1) = omega arith in e)
    ∙ take-suc (s.stack_idx - 1) s.stack 0 (omega arith)

module _ {lvl : Levels} {s : Vmm} (inv : Inv lvl s) {t i : ℕ} (above : 1 < lvl t)
    (within : i < 512) where
  -- The entry is present: nothing changes.
  unfoldable pub Found-present : is_present (entry s.mem s.hhdm_offset t i) ≡ true → Found lvl s t i
  unfolding get_below_pml
  Found-present on = record {
    lvl' = lvl;
    mem = s.mem;
    pmm = s.pmm;
    child = frame_of (entry s.mem s.hhdm_offset t i);
    runs = rw on refl;
    grown = record {
      inv = inv;
      keeps = λ q table. refl;
      walks = λ is q l b. refl;
      stays = λ q j a hj p. refl;
      left = omega arith;
    };
    on = on;
    link = refl;
  }

  -- The entry is absent, and `p` is the page that the allocator gives.
  module _ (absent : is_present (entry s.mem s.hhdm_offset t i) ≡ false) (xs : List ℕ) (p : ℕ)
      (pages : live s.pmm ≡ xs ++ (p ∷ [])) (got : Granted s.pmm xs (p ∷ [])) where
    spares : All (IsSpare s.hhdm_offset lvl) xs × All (IsSpare s.hhdm_offset lvl) (p ∷ [])
    spares =
        All-append_left (IsSpare s.hhdm_offset lvl) xs (p ∷ [])
          (subst (All (IsSpare s.hhdm_offset lvl)) pages inv.spare)

    apart : Distinct xs × All (λ x. p ≢ x) xs
    apart = Distinct-last xs p (subst Distinct pages inv.distinct)

    abbrev linked : Vmm
    linked = after s (install s.mem s.hhdm_offset t i p) got.out

    linked-runs :
        get_below_pml (u64 (t + s.hhdm_offset)) i true s
        ≡ returned (u64 (p + s.hhdm_offset), linked)
    unfolding get_below_pml
    linked-runs = rw (absent, got.runs, ne→== p 0 spares.1.0.2) refl

    frame : IsFrame s.hhdm_offset p
    frame = spares.1.0.0

    unused : lvl p ≡ 0
    unused = spares.1.0.1

    abbrev linked_lvl : Levels
    linked_lvl = at_level lvl p (lvl t - 1)

    -- A page that stays free is another page, and still no table.
    still-IsSpare :
        (ys : List ℕ)
        → All (IsSpare s.hhdm_offset lvl) ys
        → All (λ y. p ≢ y) ys
        → All (IsSpare s.hhdm_offset linked_lvl) ys
    still-IsSpare [] a b = tt
    still-IsSpare (y ∷ ys) a b = (
      (
        a.0.0,
        level_old inv.tree above within absent frame unused y (λ e. b.0 (sym e)) ∙ a.0.1,
        a.0.2,
      ),
      still-IsSpare ys a.1 b.1,
    )

    linked-Inv : Inv linked_lvl linked
    linked-Inv = record {
      tree = install-IsTree inv.tree above within absent frame unused;
      offset = inv.offset;
      valid = got.valid;
      distinct = subst Distinct (sym got.rest) apart.0;
      spare =
          subst (All (IsSpare s.hhdm_offset linked_lvl)) (sym got.rest)
            (still-IsSpare xs spares.0 apart.1);
    }

    linked-stays :
        (q j : ℕ)
        → 1 < lvl q
        → j < 512
        → is_present (entry s.mem s.hhdm_offset q j) ≡ true
        → entry linked.mem s.hhdm_offset q j ≡ entry s.mem s.hhdm_offset q j
    linked-stays q j above_q hj on =
        install_other inv.tree above within absent frame unused q j (omega arith) hj
          (elim (Bool-cases (q == t)) [
            | inl here ↦ inr (λ e. cc (on, absent, ==→eq q t here, e))
            | inr there ↦ inl (ground arith)
          ])

    linked-Grown : Grown 1 lvl s linked_lvl linked.mem linked.pmm
    linked-Grown = record {
      inv = linked-Inv;
      keeps = λ q table.
          level_old inv.tree above within absent frame unused q
            (λ e. absurd (omega (arith, unused, ap lvl e)));
      walks = leaf-install inv.tree above within absent frame unused;
      stays = linked-stays;
      left = omega (
        arith,
        length-live got.valid,
        ap length got.rest,
        length-live inv.valid,
        ap length pages,
        length-append xs (p ∷ []),
      );
    }

    Found-linked : Found lvl s t i
    Found-linked = record {
      lvl' = linked_lvl;
      mem = linked.mem;
      pmm = linked.pmm;
      child = p;
      runs = linked-runs;
      grown = linked-Grown;
      on =
          ap is_present (install_self inv.tree above within absent frame unused)
          ∙ table_entry-present p frame.aligned;
      link = link-frame inv.tree above within absent frame unused;
    }

  -- With a page to spare, `get_below_pml` with `force` finds or makes the table below.
  pub get_below_pml-Found : 0 < s.pmm.stack_idx → Found lvl s t i
  get_below_pml-Found pos = elim (Bool-cases (is_present (entry s.mem s.hhdm_offset t i))) [
    | inl on ↦ Found-present on
    | inr off ↦
        let p = get_or s.pmm.stack (s.pmm.stack_idx - 1) 0 in
        let xs = take (s.pmm.stack_idx - 1) s.pmm.stack in
        let pages = live-snoc inv.valid pos in
        Found-linked off xs p pages (request_pages-append xs (p ∷ []) inv.valid pages (omega arith))
  ]
