-- ===== src/Vmm/Leaf.antt =====
-- A write to an entry of a page table, a table of level 1: `pt[pt_index] = ...` in
-- olive/src/mm/vmm.c. The tree stays, and one walk ends at another value.
use fwp_athix.Prelude.{
  ℕ, suc, ◌+◌, ◌<◌, ◌≡◌, ◌≢◌, ◌⊎◌, inl, inr, refl, sym, ap, ap₂, ◌∙◌, true, Bool-cases, arith, u64,
  ◌==◌, List, [], ◌∷◌, length, some, ne→==, ==→eq,
}
use fwp_athix.Vmm.{slot, write, is_present}
use fwp_athix.Vmm.Entry.{frame_of, entry, slot_injective}
use fwp_athix.Vmm.Tree.{Levels, IsTree}
use fwp_athix.Vmm.Walk.{leaf, dest, AreIndices}

module _ {h : ℕ} {lvl : Levels} {m : ℕ → ℕ} (tree : IsTree h lvl m) {t i : ℕ} (v : ℕ)
    (low : lvl t ≡ 1) (within : i < 512) where
  abbrev new : ℕ → ℕ
  new = write m (slot (u64 (t + h)) i) v

  entry_self : entry new h t i ≡ v
  entry_self = ground arith

  entry_other :
      (q j : ℕ) → 0 < lvl q → j < 512 → (q ≢ t) ⊎ (j ≢ i) → entry new h q j ≡ entry m h q j
  entry_other q j table hj other =
      let apart : slot (u64 (t + h)) i ≢ slot (u64 (q + h)) j = λ e.
        let same =
          slot_injective tree.base i j (tree.table t (omega arith)) (tree.table q table) within hj
            e in
        elim other [ inl ne ↦ ne (sym same.0) | inr ne ↦ ne (sym same.1) ] in
      rw (ne→== (slot (u64 (t + h)) i) (slot (u64 (q + h)) j) apart)

  entry_upper : (q j : ℕ) → 1 < lvl q → j < 512 → entry new h q j ≡ entry m h q j
  entry_upper q j above hj =
      entry_other q j (omega arith) hj (inl (λ e. absurd (omega (arith, ap lvl e))))

  upper_present :
      (q j : ℕ)
      → 1 < lvl q
      → j < 512
      → is_present (entry new h q j) ≡ true
      → is_present (entry m h q j) ≡ true
  upper_present q j above hj on = sym (ap is_present (entry_upper q j above hj)) ∙ on

  pub write-IsTree : IsTree h lvl new
  write-IsTree = record {
    base = tree.base;
    table = tree.table;
    child = λ q j above hj on.
        ap (λ e. suc (lvl (frame_of e))) (entry_upper q j above hj)
        ∙ tree.child q j above hj (upper_present q j above hj on);
    unique = λ q j u k aq au hj hk onq onu f.
        tree.unique q j u k aq au hj hk (upper_present q j aq hj onq) (upper_present u k au hk onu)
          (sym (ap frame_of (entry_upper q j aq hj)) ∙ f ∙ ap frame_of (entry_upper u k au hk));
  }

  -- The walk that ends at the entry now ends at the new value.
  pub leaf-write_self :
      (is : List ℕ) (q : ℕ)
      → lvl q ≡ length is
      → AreIndices is
      → dest m h q is ≡ some (t, i)
      → leaf new h q is ≡ v
  unfolding leaf dest
  leaf-write_self [] q l b e = cc
  leaf-write_self (j ∷ []) q l b e = ap₂ (λ x y. entry new h x y) (cc e) (cc e) ∙ entry_self
  leaf-write_self (j ∷ k ∷ is) q l b e =
      rw (entry_upper q j (omega arith) b.0) (elim (Bool-cases (is_present (entry m h q j))) [
        | inl on ↦ rw on (
            leaf-write_self (k ∷ is) (frame_of (entry m h q j))
              (omega (arith, tree.child q j (omega arith) b.0 on)) b.1 (rw on at e))
        | inr off ↦ cc (rw off at e)
      ])

  -- Every other walk ends at the value it ended at before.
  pub leaf-write_other :
      (is : List ℕ) (q : ℕ)
      → lvl q ≡ length is
      → AreIndices is
      → dest m h q is ≢ some (t, i)
      → leaf new h q is ≡ leaf m h q is
  unfolding leaf dest
  leaf-write_other [] q l b ne = refl
  leaf-write_other (j ∷ []) q l b ne = elim (Bool-cases (q == t)) [
    | inl here ↦
        entry_other q j (omega arith) b.0
          (inr (λ e. ne (ap₂ (λ x y. some (x, y)) (==→eq q t here) e)))
    | inr there ↦ entry_other q j (omega arith) b.0 (inl (ground arith))
  ]
  leaf-write_other (j ∷ k ∷ is) q l b ne =
      rw (entry_upper q j (omega arith) b.0) (elim (Bool-cases (is_present (entry m h q j))) [
        | inl on ↦ rw on (
            leaf-write_other (k ∷ is) (frame_of (entry m h q j))
              (omega (arith, tree.child q j (omega arith) b.0 on)) b.1 (rw on at ne))
        | inr off ↦ rw off refl
      ])

  -- The write changes no walk's way.
  pub dest-write :
      (is : List ℕ) (q : ℕ) → lvl q ≡ length is → AreIndices is → dest new h q is ≡ dest m h q is
  unfolding dest
  dest-write [] q l b = refl
  dest-write (j ∷ []) q l b = refl
  dest-write (j ∷ k ∷ is) q l b =
      rw (entry_upper q j (omega arith) b.0) (elim (Bool-cases (is_present (entry m h q j))) [
        | inl on ↦ rw on (
            dest-write (k ∷ is) (frame_of (entry m h q j))
              (omega (arith, tree.child q j (omega arith) b.0 on)) b.1)
        | inr off ↦ rw off refl
      ])
