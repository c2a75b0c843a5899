-- ===== src/Vmm/Tree.antt =====
-- The invariant of the page tables of olive/src/mm/vmm.c: they form a tree. `lvl` gives each frame
-- that holds a table its level (4 for a PML4, 1 for a page table), and 0 to every other frame.
use fwp_athix.Prelude.{
  ℕ, suc, ◌+◌, ◌-◌, ◌%◌, ◌<◌, ◌≡◌, ◌≢◌, ◌⊎◌, inl, inr, refl, sym, ap, ap₂, subst, ◌∙◌, true, false,
  Bool-cases, arith, u64, ◌==◌, if◌then◌else◌, eq→==, ne→==, ==→eq,
}
use fwp_athix.Macros.{page_size}
use fwp_athix.Vmm.{slot, write, zero_page, is_present, table_entry}
use fwp_athix.Vmm.Entry.{
  frame_of, IsFrame, entry, slot_injective, zero_page_self, zero_page_other, table_entry-frame,
}

abbrev pub Levels : Type 0
Levels = ℕ → ℕ

-- `p` becomes a table of level `k`.
abbrev pub at_level : Levels → ℕ → ℕ → Levels
at_level lvl p k q = if p == q then k else lvl q

pub record IsTree (h : ℕ) (lvl : Levels) (m : ℕ → ℕ) : Type 0 where
  pub base : h % page_size ≡ 0
  pub table : (t : ℕ) → 0 < lvl t → IsFrame h t
  pub child :
      (t i : ℕ)
      → 1 < lvl t
      → i < 512
      → is_present (entry m h t i) ≡ true
      → suc (lvl (frame_of (entry m h t i))) ≡ lvl t
  pub unique :
      (t i u j : ℕ)
      → 1 < lvl t
      → 1 < lvl u
      → i < 512
      → j < 512
      → is_present (entry m h t i) ≡ true
      → is_present (entry m h u j) ≡ true
      → frame_of (entry m h t i) ≡ frame_of (entry m h u j)
      → (t ≡ u) × (i ≡ j)

-- The memory after a zeroed page at frame `p` has become the table below entry `i` of table `t`.
abbrev pub install : (m : ℕ → ℕ) (h t i p : ℕ) → ℕ → ℕ
install m h t i p = write (zero_page (u64 (p + h)) m) (slot (u64 (t + h)) i) (table_entry p)

module _ {h : ℕ} {lvl : Levels} {m : ℕ → ℕ} (tree : IsTree h lvl m) {t i p : ℕ} (above : 1 < lvl t)
    (within : i < 512) (absent : is_present (entry m h t i) ≡ false) (frame : IsFrame h p)
    (unused : lvl p ≡ 0) where
  abbrev new : ℕ → ℕ
  new = install m h t i p

  abbrev new_lvl : Levels
  new_lvl = at_level lvl p (lvl t - 1)

  pub install_self : entry new h t i ≡ table_entry p
  install_self = ground arith

  -- The new table is empty.
  pub install_new : (j : ℕ) → j < 512 → entry new h p j ≡ 0
  install_new j hj =
      let apart : slot (u64 (t + h)) i ≢ slot (u64 (p + h)) j = λ e. absurd (
        let same =
          (slot_injective tree.base i j (tree.table t (omega arith)) frame within hj e).0 in
        omega (arith, ap lvl same)) in
      rw (ne→== (slot (u64 (t + h)) i) (slot (u64 (p + h)) j) apart)
        (zero_page_self tree.base m j frame hj)

  -- Every other entry of every other table is as before.
  pub install_other :
      (q j : ℕ) → 0 < lvl q → j < 512 → (q ≢ t) ⊎ (j ≢ i) → entry new h q j ≡ entry m h q j
  install_other q j table hj other =
      let fq = tree.table q table in
      let apart : slot (u64 (t + h)) i ≢ slot (u64 (q + h)) j = λ e.
        let same = slot_injective tree.base i j (tree.table t (omega arith)) fq within hj e in
        elim other [ inl ne ↦ ne (sym same.0) | inr ne ↦ ne (sym same.1) ] in
      rw (ne→== (slot (u64 (t + h)) i) (slot (u64 (q + h)) j) apart)
        (zero_page_other tree.base m j frame fq (λ e. absurd (omega (arith, ap lvl e))) hj)

  p≢t : p ≢ t
  p≢t e = absurd (omega (arith, ap lvl e))

  -- An entry of a table of the new tree is in the new table, or the new link, or as before.
  pub data Kind (q j : ℕ) : Type 0 where
    fresh : q ≡ p → is_present (entry new h q j) ≡ false → Kind q j
    link : q ≡ t → j ≡ i → Kind q j
    old : 0 < lvl q → q ≢ p → entry new h q j ≡ entry m h q j → Kind q j

  pub Kind-old : (q j : ℕ) → 0 < lvl q → q ≢ p → j < 512 → Kind q j
  Kind-old q j table ne hj = elim (Bool-cases (q == t)) [
    | inl here ↦ elim (Bool-cases (j == i)) [
      | inl same ↦ link (==→eq q t here) (==→eq j i same)
      | inr other ↦ old table ne (install_other q j table hj (inr (ground arith)))
    ]
    | inr there ↦ old table ne (install_other q j table hj (inl (ground arith)))
  ]

  pub kind : (q j : ℕ) → 0 < new_lvl q → j < 512 → Kind q j
  kind q j table hj = elim (Bool-cases (p == q)) [
    | inl e ↦
        let at : p ≡ q = ==→eq p q e in
        fresh (sym at)
          (subst (λ x. is_present (entry new h x j) ≡ false) at (ap is_present (install_new j hj)))
    | inr ne ↦ Kind-old q j (rw ne at table) (ground arith) hj
  ]

  -- Levels of old tables are unchanged.
  pub level_old : (q : ℕ) → q ≢ p → new_lvl q ≡ lvl q
  level_old q ne = rw (ne→== p q (λ e. ne (sym e)))

  pub level_new : new_lvl p ≡ lvl t - 1
  level_new = rw (eq→== p p refl)

  pub link-frame : frame_of (entry new h t i) ≡ p
  link-frame = ap frame_of install_self ∙ table_entry-frame p frame.aligned frame.small

  -- A present entry of a table above the lowest level names an old table, if it is not the link.
  old_child :
      (q j : ℕ)
      → 1 < lvl q
      → j < 512
      → entry new h q j ≡ entry m h q j
      → is_present (entry new h q j) ≡ true
      → (is_present (entry m h q j) ≡ true) × (suc (lvl (frame_of (entry new h q j))) ≡ lvl q)
  old_child q j above_q hj same on =
      let on' : is_present (entry m h q j) ≡ true = sym (ap is_present same) ∙ on in
      (on', ap (λ e. suc (lvl (frame_of e))) same ∙ tree.child q j above_q hj on')

  new_child-Kind :
      (q j : ℕ)
      → Kind q j
      → 1 < new_lvl q
      → j < 512
      → is_present (entry new h q j) ≡ true
      → suc (new_lvl (frame_of (entry new h q j))) ≡ new_lvl q
  new_child-Kind q j (fresh e off) above_q hj on = cc
  new_child-Kind q j (link eq ej) above_q hj on =
      ap₂ (λ x y. suc (new_lvl (frame_of (entry new h x y)))) eq ej
      ∙ ap (λ x. suc (new_lvl x)) link-frame
      ∙ ap suc level_new
      ∙ (let e : suc (lvl t - 1) ≡ lvl t = omega arith in e)
      ∙ sym (level_old t (λ e. p≢t (sym e)))
      ∙ ap new_lvl (sym eq)
  new_child-Kind q j (old table ne same) above_q hj on =
      let (on', below) = old_child q j (omega (arith, level_old q ne)) hj same on in
      ap suc (
        level_old (frame_of (entry new h q j))
          (λ e. absurd (omega (arith, below, ap lvl e, level_old q ne))))
      ∙ below
      ∙ sym (level_old q ne)

  -- No old table's entry names the new frame.
  old_ne_link :
      (q j : ℕ)
      → 1 < lvl q
      → j < 512
      → entry new h q j ≡ entry m h q j
      → is_present (entry new h q j) ≡ true
      → frame_of (entry new h q j) ≢ p
  old_ne_link q j above_q hj same on e =
      absurd (omega (arith, (old_child q j above_q hj same on).1, ap lvl e))

  new_unique-Kind :
      (q j u k : ℕ)
      → Kind q j
      → Kind u k
      → 1 < new_lvl q
      → 1 < new_lvl u
      → j < 512
      → k < 512
      → is_present (entry new h q j) ≡ true
      → is_present (entry new h u k) ≡ true
      → frame_of (entry new h q j) ≡ frame_of (entry new h u k)
      → (q ≡ u) × (j ≡ k)
  new_unique-Kind q j u k (fresh e off) b aq au hj hk onq onu f = cc
  new_unique-Kind q j u k (link eq ej) (fresh e off) aq au hj hk onq onu f = cc
  new_unique-Kind q j u k (link eq ej) (link eu ek) aq au hj hk onq onu f =
      (eq ∙ sym eu, ej ∙ sym ek)
  new_unique-Kind q j u k (link eq ej) (old table ne same) aq au hj hk onq onu f = absurd (
      old_ne_link u k (omega (arith, level_old u ne)) hk same onu
        (sym f ∙ ap₂ (λ x y. frame_of (entry new h x y)) eq ej ∙ link-frame))
  new_unique-Kind q j u k (old table ne same) (fresh e off) aq au hj hk onq onu f = cc
  new_unique-Kind q j u k (old table ne same) (link eu ek) aq au hj hk onq onu f = absurd (
      old_ne_link q j (omega (arith, level_old q ne)) hj same onq
        (f ∙ ap₂ (λ x y. frame_of (entry new h x y)) eu ek ∙ link-frame))
  new_unique-Kind q j u k (old tq nq sq) (old tu nu su) aq au hj hk onq onu f =
      tree.unique q j u k (omega (arith, level_old q nq)) (omega (arith, level_old u nu)) hj hk
        (sym (ap is_present sq) ∙ onq) (sym (ap is_present su) ∙ onu)
        (sym (ap frame_of sq) ∙ f ∙ ap frame_of su)

  new_table : (q : ℕ) → 0 < new_lvl q → IsFrame h q
  new_table q table = elim (Bool-cases (p == q)) [
    | inl e ↦ subst (IsFrame h) (==→eq p q e) frame
    | inr ne ↦ tree.table q (rw ne at table)
  ]

  -- Linking a zeroed, unused frame below an absent entry keeps the tree.
  pub install-IsTree : IsTree h new_lvl new
  install-IsTree = record {
    base = tree.base;
    table = new_table;
    child = λ q j above_q hj on. new_child-Kind q j (kind q j (omega arith) hj) above_q hj on;
    unique = λ q j u k aq au hj hk onq onu f.
        new_unique-Kind q j u k (kind q j (omega arith) hj) (kind u k (omega arith) hk) aq au hj hk
          onq onu f;
  }
