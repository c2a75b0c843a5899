-- ===== src/Vmm/Walk.antt =====
-- The page walk of the processor, as a function on memory, and what the writes of
-- olive/src/mm/vmm.c do to it.
use fwp_athix.Prelude.{
  ℕ, ◌<◌, ◌≡◌, inl, inr, refl, sym, ap, ap₂, ◌∙◌, true, false, Bool-cases, arith, if◌then◌else◌,
  All, List, [], ◌∷◌, length, Option, none, some,
}
use fwp_athix.Vmm.{is_present}
use fwp_athix.Vmm.Entry.{frame_of, table_entry-present, IsFrame, entry}
use fwp_athix.Vmm.Tree.{
  Levels, IsTree, install, install_self, install_new, Kind-old, Kind, fresh, link, old, link-frame,
}

-- The entry that the walk from table `t` along the indices `is` ends at; 0 if a table is missing.
unfoldable pub leaf : (ℕ → ℕ) → ℕ → ℕ → List ℕ → ℕ
leaf m h t [] = 0
leaf m h t (i ∷ []) = entry m h t i
leaf m h t (i ∷ j ∷ is) =
    let e = entry m h t i in if is_present e then leaf m h (frame_of e) (j ∷ is) else 0

-- Where that entry stands: table and index.
unfoldable pub dest : (ℕ → ℕ) → ℕ → ℕ → List ℕ → Option (ℕ × ℕ)
dest m h t [] = none
dest m h t (i ∷ []) = some (t, i)
dest m h t (i ∷ j ∷ is) =
    let e = entry m h t i in if is_present e then dest m h (frame_of e) (j ∷ is) else none

-- The walk ends at the entry that stands where it ends.
pub leaf-dest :
    (m : ℕ → ℕ) (h q : ℕ) (is : List ℕ) (t i : ℕ)
    → dest m h q is ≡ some (t, i)
    → leaf m h q is ≡ entry m h t i
unfolding leaf dest
leaf-dest m h q [] t i e = cc
leaf-dest m h q (j ∷ []) t i e = ap₂ (entry m h) (cc e) (cc e)
leaf-dest m h q (j ∷ k ∷ is) t i e = elim (Bool-cases (is_present (entry m h q j))) [
  | inl on ↦ rw on (leaf-dest m h (frame_of (entry m h q j)) (k ∷ is) t i (rw on at e))
  | inr off ↦ cc (rw off at e)
]

pub leaf-dest-none : (m : ℕ → ℕ) (h q : ℕ) (is : List ℕ) → dest m h q is ≡ none → leaf m h q is ≡ 0
unfolding leaf dest
leaf-dest-none m h q [] e = refl
leaf-dest-none m h q (j ∷ []) e = cc
leaf-dest-none m h q (j ∷ k ∷ is) e = elim (Bool-cases (is_present (entry m h q j))) [
  | inl on ↦ rw on (leaf-dest-none m h (frame_of (entry m h q j)) (k ∷ is) (rw on at e))
  | inr off ↦ rw off refl
]

abbrev pub AreIndices : List ℕ → Type 0
AreIndices = All (λ i. i < 512)

module _ {h : ℕ} {lvl : Levels} {m : ℕ → ℕ} (tree : IsTree h lvl m) {t i p : ℕ} (above : 1 < lvl t)
    (within : i < 512) (absent : is_present (entry m h t i) ≡ false) (frame : IsFrame h p)
    (unused : lvl p ≡ 0) where
  abbrev new : ℕ → ℕ
  new = install m h t i p

  -- A walk into the empty table ends at 0.
  leaf_fresh : (is : List ℕ) → AreIndices is → leaf new h p is ≡ 0
  unfolding leaf
  leaf_fresh [] b = refl
  leaf_fresh (j ∷ []) b = install_new tree above within absent frame unused j b.0
  leaf_fresh (j ∷ k ∷ is) b =
      rw (ap is_present (install_new tree above within absent frame unused j b.0)) refl

  old-Kind : (q j : ℕ) → 0 < lvl q → j < 512 → Kind tree above within absent frame unused q j
  old-Kind q j table hj =
      Kind-old tree above within absent frame unused q j table
        (λ e. absurd (omega (arith, ap lvl e))) hj

  -- Through the new link the walk ends at 0, as it did when the entry was absent.
  leaf_link :
      (k : ℕ) (is : List ℕ)
      → AreIndices (k ∷ is)
      → leaf new h t (i ∷ k ∷ is) ≡ leaf m h t (i ∷ k ∷ is)
  unfolding leaf
  leaf_link k is b =
      let on : is_present (entry new h t i) ≡ true =
        ap is_present (install_self tree above within absent frame unused)
        ∙ table_entry-present p frame.aligned in
      rw (on, link-frame tree above within absent frame unused, absent) (leaf_fresh (k ∷ is) b)

  -- An installed table changes no walk.
  pub leaf-install :
      (is : List ℕ) (q : ℕ) → lvl q ≡ length is → AreIndices is → leaf new h q is ≡ leaf m h q is
  unfolding leaf
  leaf-install [] q l b = refl
  leaf-install (j ∷ []) q l b = elim (old-Kind q j (omega arith) b.0) [
    | fresh e off ↦ absurd (omega (arith, ap lvl e))
    | link e f ↦ absurd (omega (arith, ap lvl e))
    | old table ne same ↦ same
  ]
  leaf-install (j ∷ k ∷ is) q l b = elim (old-Kind q j (omega arith) b.0) [
    | fresh e off ↦ absurd (omega (arith, ap lvl e))
    | link e f ↦
        ap₂ (λ x y. leaf new h x (y ∷ k ∷ is)) e f
        ∙ leaf_link k is b.1
        ∙ sym (ap₂ (λ x y. leaf m h x (y ∷ k ∷ is)) e f)
    | old table ne same ↦ rw same (elim (Bool-cases (is_present (entry m h q j))) [
      | inl on ↦ rw on (
          leaf-install (k ∷ is) (frame_of (entry m h q j))
            (omega (arith, tree.child q j (omega arith) b.0 on)) b.1)
      | inr off ↦ rw off refl
    ])
  ]

module _ {h : ℕ} {lvl : Levels} {m : ℕ → ℕ} (tree : IsTree h lvl m) where
  -- A walk ends in a table of level 1.
  pub dest_level :
      (is : List ℕ) (q t i : ℕ)
      → lvl q ≡ length is
      → AreIndices is
      → dest m h q is ≡ some (t, i)
      → (lvl t ≡ 1) × (i < 512)
  unfolding dest
  dest_level [] q t i l b e = cc
  dest_level (j ∷ []) q t i l b e = ground arith
  dest_level (j ∷ k ∷ is) q t i l b e = elim (Bool-cases (is_present (entry m h q j))) [
    | inl on ↦
        dest_level (k ∷ is) (frame_of (entry m h q j)) t i
          (omega (arith, tree.child q j (omega arith) b.0 on)) b.1 (rw on at e)
    | inr off ↦ cc (rw off at e)
  ]

  -- Two walks of one length end at one entry only if they are the same.
  pub dest_unique :
      (is js : List ℕ) (q u : ℕ) (d : ℕ × ℕ)
      → lvl q ≡ length is
      → lvl u ≡ length js
      → length is ≡ length js
      → AreIndices is
      → AreIndices js
      → dest m h q is ≡ some d
      → dest m h u js ≡ some d
      → (q ≡ u) × (is ≡ js)
  unfolding dest
  dest_unique [] js q u d l k n b c e f = cc
  dest_unique (i ∷ []) [] q u d l k n b c e f = cc
  dest_unique (i ∷ []) (j ∷ []) q u d l k n b c e f = ground arith
  dest_unique (i ∷ []) (j ∷ j' ∷ js) q u d l k n b c e f = absurd (omega arith)
  dest_unique (i ∷ i' ∷ is) [] q u d l k n b c e f = cc
  dest_unique (i ∷ i' ∷ is) (j ∷ []) q u d l k n b c e f = absurd (omega arith)
  dest_unique (i ∷ i' ∷ is) (j ∷ j' ∷ js) q u d l k n b c e f =
      elim (Bool-cases (is_present (entry m h q i))) [
        | inl on ↦ elim (Bool-cases (is_present (entry m h u j))) [
          | inl on' ↦
              let same =
                dest_unique (i' ∷ is) (j' ∷ js) (frame_of (entry m h q i))
                  (frame_of (entry m h u j)) d (omega (arith, tree.child q i (omega arith) b.0 on))
                  (omega (arith, tree.child u j (omega arith) c.0 on')) (omega arith) b.1 c.1
                  (rw on at e) (rw on' at f) in
              let top = tree.unique q i u j (omega arith) (omega arith) b.0 c.0 on on' same.0 in
              (top.0, ap₂ (λ x (xs : List ℕ). x ∷ xs) top.1 same.1)
          | inr off ↦ cc (rw off at f)
        ]
        | inr off ↦ cc (rw off at e)
      ]
