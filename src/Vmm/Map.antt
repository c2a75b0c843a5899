-- ===== src/Vmm/Map.antt =====
-- `pml4_to_pt` and `vmm_map` of olive/src/mm/vmm.c on page tables that form a tree.
use native.Mathlib.Nat.{one-le-pow}
use fwp_athix.Prelude.{
  ℕ, suc, ◌+◌, ◌*◌, ◌/◌, ◌%◌, ◌^◌, ◌<◌, ◌≤◌, ◌≡◌, refl, sym, ap, ap₂, ◌∙◌, true, false, arith, u64,
  bit_and, ◌==◌, ◌<<<◌, ◌>>>◌, List, [], ◌∷◌, length, some, ne→==, bit_and-fields, bit_and_mask,
  bit_and-zero,
}
use fwp_athix.Outcome.{returned}
use fwp_athix.Pmm.{Pmm}
use fwp_athix.Vmm.{Vmm, is_present, pml4_to_pt, pml4_index, pdpt_index, pd_index, pt_index}
use fwp_athix.Vmm.Entry.{frame_of, entry}
use fwp_athix.Vmm.Tree.{Levels}
use fwp_athix.Vmm.Walk.{leaf, dest, AreIndices}
use fwp_athix.Vmm.Below.{Inv, after, Grown, Found, get_below_pml-Found}

-- The nine bits of an index that stand from bit `k` on.
pub index_bits : (k virt : ℕ) → bit_and virt (0x1ff <<< k) >>> k ≡ virt / 2 ^ k % 512
index_bits k virt =
    ap (λ x. x / 2 ^ k)
      (ap₂ bit_and parts (let e : 0x1ff * 2 ^ k ≡ 511 * 2 ^ k + 0 = omega arith in e)
        ∙ bit_and-fields k (virt / 2 ^ k) 511 (virt % 2 ^ k) 0 small (omega (arith, one-le-pow k 2))
        ∙ ap₂ (λ x y. x * 2 ^ k + y) (bit_and_mask 9 (virt / 2 ^ k)) (bit_and-zero (virt % 2 ^ k)))
    ∙ grind (arith, one-le-pow k 2)
  where
    small : virt % 2 ^ k < 2 ^ k
    small = omega (arith, one-le-pow k 2)

    parts : virt ≡ virt / 2 ^ k * 2 ^ k + virt % 2 ^ k
    parts = grind arith

-- The four indices of an address.
abbrev pub indices : ℕ → List ℕ
indices virt = pml4_index virt ∷ pdpt_index virt ∷ pd_index virt ∷ pt_index virt ∷ []

pub indices-AreIndices : (virt : ℕ) → AreIndices (indices virt)
indices-AreIndices virt =
    omega (arith, index_bits 39 virt, index_bits 30 virt, index_bits 21 virt, index_bits 12 virt)

-- Growing twice.
pub Grown-trans :
    {a b : ℕ} {lvl lvl' lvl'' : Levels} {s : Vmm} {m m' : ℕ → ℕ} {p p' : Pmm}
    → Grown a lvl s lvl' m p
    → Grown b lvl' (after s m p) lvl'' m' p'
    → Grown (a + b) lvl s lvl'' m' p'
Grown-trans {lvl} {lvl'} {s} {m} {m'} x y = record {
  inv = y.inv;
  keeps = λ q table. y.keeps q (omega (arith, x.keeps q table)) ∙ x.keeps q table;
  walks = walks;
  stays = λ q j above hj on.
      y.stays q j (omega (arith, x.keeps q (omega arith))) hj
        (ap is_present (x.stays q j above hj on) ∙ on)
      ∙ x.stays q j above hj on;
  left = omega (arith, x.left, y.left);
}
  where
    walks :
        (is : List ℕ) (q : ℕ)
        → lvl q ≡ length is
        → AreIndices is
        → leaf m' s.hhdm_offset q is ≡ leaf s.mem s.hhdm_offset q is
    walks [] q l b = unfold leaf in refl
    walks (i ∷ is) q l b =
        y.walks (i ∷ is) q (x.keeps q (omega arith) ∙ l) b ∙ x.walks (i ∷ is) q l b

module _ {lvl : Levels} {s : Vmm} (inv : Inv lvl s) {t i : ℕ} (above : 1 < lvl t) (within : i < 512)
    (f : Found lvl s t i) where
  child-level : suc (f.lvl' f.child) ≡ lvl t
  child-level =
      ap (λ c. suc (f.lvl' c)) (sym f.link)
      ∙ f.grown.inv.tree.child t i (omega (arith, f.grown.keeps t (omega arith))) within f.on
      ∙ f.grown.keeps t (omega arith)

  -- A table's virtual address is not NULL.
  pub child-nonzero : (u64 (f.child + s.hhdm_offset) == 0) ≡ false
  child-nonzero =
      let frame = f.grown.inv.tree.table f.child (omega (arith, child-level)) in
      ne→== (u64 (f.child + s.hhdm_offset)) 0
        (λ e. absurd (omega (arith, e, frame.mapped, inv.offset)))

-- What `pml4_to_pt` with `force` does for the address `virt` under the PML4 in frame `root`.
pub record Reached (lvl : Levels) (s : Vmm) (root virt : ℕ) : Type 0 where
  pub lvl' : Levels
  pub mem : ℕ → ℕ
  pub pmm : Pmm
  pub pt : ℕ
  pub runs :
      pml4_to_pt (u64 (root + s.hhdm_offset)) virt true s
      ≡ returned (u64 (pt + s.hhdm_offset), after s mem pmm)
  pub grown : Grown 3 lvl s lvl' mem pmm
  pub ends : dest mem s.hhdm_offset root (indices virt) ≡ some (pt, pt_index virt)
  pub nonzero : (u64 (pt + s.hhdm_offset) == 0) ≡ false

pub dest-three :
    (m : ℕ → ℕ) (h t1 t2 t3 t4 i1 i2 i3 i4 : ℕ)
    → is_present (entry m h t1 i1) ≡ true
    → frame_of (entry m h t1 i1) ≡ t2
    → is_present (entry m h t2 i2) ≡ true
    → frame_of (entry m h t2 i2) ≡ t3
    → is_present (entry m h t3 i3) ≡ true
    → frame_of (entry m h t3 i3) ≡ t4
    → dest m h t1 (i1 ∷ i2 ∷ i3 ∷ i4 ∷ []) ≡ some (t4, i4)
unfolding dest
dest-three m h t1 t2 t3 t4 i1 i2 i3 i4 on1 e1 on2 e2 on3 e3 = rw (on1, e1, on2, e2, on3, e3) refl

-- Three calls of `get_below_pml`, each on the table that the one before found.
module _ {lvl : Levels} {s : Vmm} (inv : Inv lvl s) (root virt : ℕ) (top : lvl root ≡ 4)
    (f1 : Found lvl s root (pml4_index virt))
    (f2 : Found f1.lvl' (after s f1.mem f1.pmm) f1.child (pdpt_index virt))
    (f3 : Found f2.lvl' (after s f2.mem f2.pmm) f2.child (pd_index virt)) where
  pub level1 : suc (f1.lvl' f1.child) ≡ 4
  level1 = child-level inv (omega arith) (omega (arith, index_bits 39 virt)) f1 ∙ top

  pub level2 : suc (f2.lvl' f2.child) ≡ 3
  level2 =
      child-level f1.grown.inv (omega (arith, level1)) (omega (arith, index_bits 30 virt)) f2
      ∙ omega (arith, level1)

  pub later : Grown 2 f1.lvl' (after s f1.mem f1.pmm) f3.lvl' f3.mem f3.pmm
  later = Grown-trans f2.grown f3.grown

  -- The links that the first two calls found are still there after the third.
  pub stays1 :
      entry f3.mem s.hhdm_offset root (pml4_index virt)
      ≡ entry f1.mem s.hhdm_offset root (pml4_index virt)
  stays1 =
      later.stays root (pml4_index virt) (omega (arith, f1.grown.keeps root (omega arith)))
        (omega (arith, index_bits 39 virt)) f1.on

  pub stays2 :
      entry f3.mem s.hhdm_offset f1.child (pdpt_index virt)
      ≡ entry f2.mem s.hhdm_offset f1.child (pdpt_index virt)
  stays2 =
      f3.grown.stays f1.child (pdpt_index virt)
        (omega (arith, level1, f2.grown.keeps f1.child (omega (arith, level1))))
        (omega (arith, index_bits 30 virt)) f2.on

  pub chain-runs :
      pml4_to_pt (u64 (root + s.hhdm_offset)) virt true s
      ≡ returned (u64 (f3.child + s.hhdm_offset), after s f3.mem f3.pmm)
  unfolding pml4_to_pt
  chain-runs =
      rw
        (
          f1.runs,
          child-nonzero inv (omega arith) (omega (arith, index_bits 39 virt)) f1,
          f2.runs,
          child-nonzero f1.grown.inv (omega (arith, level1)) (omega (arith, index_bits 30 virt)) f2,
          f3.runs,
          child-nonzero f2.grown.inv (omega (arith, level2)) (omega (arith, index_bits 21 virt)) f3,
        )
        refl

  unfoldable pub chain-Reached : Reached lvl s root virt
  chain-Reached = record {
    lvl' = f3.lvl';
    mem = f3.mem;
    pmm = f3.pmm;
    pt = f3.child;
    runs = chain-runs;
    grown = Grown-trans f1.grown later;
    ends =
        dest-three f3.mem s.hhdm_offset root f1.child f2.child f3.child (pml4_index virt)
          (pdpt_index virt) (pd_index virt) (pt_index virt) (ap is_present stays1 ∙ f1.on)
          (ap frame_of stays1 ∙ f1.link) (ap is_present stays2 ∙ f2.on)
          (ap frame_of stays2 ∙ f2.link) f3.on f3.link;
    nonzero =
        child-nonzero f2.grown.inv (omega (arith, level2)) (omega (arith, index_bits 21 virt)) f3;
  }

-- On page tables that form a tree, with three pages to spare, `pml4_to_pt` with `force` reaches a
-- page table for every address.
pub pml4_to_pt-Reached :
    {lvl : Levels} {s : Vmm} (root virt : ℕ)
    → Inv lvl s
    → lvl root ≡ 4
    → 3 ≤ s.pmm.stack_idx
    → Reached lvl s root virt
pml4_to_pt-Reached {lvl} {s} root virt inv top spare =
    let f1 : Found lvl s root (pml4_index virt) =
      get_below_pml-Found inv (omega arith) (omega (arith, index_bits 39 virt)) (omega arith) in
    let l1 = child-level inv (omega arith) (omega (arith, index_bits 39 virt)) f1 in
    let f2 : Found f1.lvl' (after s f1.mem f1.pmm) f1.child (pdpt_index virt) =
      get_below_pml-Found f1.grown.inv (omega (arith, l1)) (omega (arith, index_bits 30 virt))
        (omega (arith, f1.grown.left)) in
    let l2 = child-level f1.grown.inv (omega (arith, l1)) (omega (arith, index_bits 30 virt)) f2 in
    let f3 : Found f2.lvl' (after s f2.mem f2.pmm) f2.child (pd_index virt) =
      get_below_pml-Found f2.grown.inv (omega (arith, l1, l2)) (omega (arith, index_bits 21 virt))
        (omega (arith, f1.grown.left, f2.grown.left)) in
    chain-Reached inv root virt top f1 f2 f3
