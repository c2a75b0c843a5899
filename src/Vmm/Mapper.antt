-- ===== src/Vmm/Mapper.antt =====
-- The functions of olive/src/mm/vmm.c keep the promises of the page mapper's interface, on the page
-- tables below the PML4 in frame `root`.
use fwp_athix.Prelude.{
  ◌⊎◌, inl, inr, refl, Option, none, some, false, ℕ, ◌+◌, ◌%◌, bit_or, ◌≤◌, ◌≡◌, ◌≢◌, true, false,
  sym, ap, ap₂, ◌∙◌, arith, u64, List, [], ◌∷◌,
}
use fwp_athix.Outcome.{returned}
use fwp_athix.Lock.{spinlock_init}
use fwp_athix.Vmm.{Vmm, vmm_map, vmm_unmap, vmm_set_pm, virt2phys}
use fwp_athix.Vmm.Stored.{IsStorable, virt2phys-stored}
use fwp_athix.Vmm.Tree.{Levels}
use fwp_athix.Vmm.Walk.{leaf, dest, leaf-dest-none}
use fwp_athix.Vmm.Below.{Inv}
use fwp_athix.Vmm.Map.{indices, index_bits}
use fwp_athix.Vmm.Translate.{page_number, translation, Mapped, vmm_map-Mapped}
use fwp_athix.Vmm.Unmap.{Unmapped, vmm_unmap-Unmapped, vmm_unmap-missing}
use fwp_athix.Vmm.Lookup.{dest-index}
use fwp_athix.Vmm.Again.{HasTable, HasTable-region, vmm_map-again}
use fwp_athix.Vmm.Interface.{PageMapper}

-- Page tables that form a tree below `root`, the lock free, and `n` pages on the free list.
pub record IsReady (h width root : ℕ) (s : Vmm) (n : ℕ) : Type 0 where
  pub lvl : Levels
  pub inv : Inv lvl s
  pub top : lvl root ≡ 4
  pub unlocked : s.map_lock ≡ spinlock_init
  pub offset : s.hhdm_offset ≡ h
  pub same_width : s.physical_address_width ≡ width
  pub spare : n ≤ s.pmm.stack_idx

pub IsReady-fewer :
    {h width root : ℕ} {s : Vmm} (m n : ℕ)
    → m ≤ n
    → IsReady h width root s n
    → IsReady h width root s m
IsReady-fewer m n le ready = record {
  lvl = ready.lvl;
  inv = ready.inv;
  top = ready.top;
  unlocked = ready.unlocked;
  offset = ready.offset;
  same_width = ready.same_width;
  spare = omega (arith, ready.spare);
}

-- Addresses of one page take the same way through the tables.
pub indices-page_number : (v w : ℕ) → page_number v ≡ page_number w → indices v ≡ indices w
indices-page_number v w e =
    ap₂ (λ a (is : List ℕ). a ∷ is) (omega (arith, index_bits 39 v, index_bits 39 w))
      (ap₂ (λ a (is : List ℕ). a ∷ is) (omega (arith, index_bits 30 v, index_bits 30 w))
        (ap₂ (λ a (is : List ℕ). a ∷ is) (omega (arith, index_bits 21 v, index_bits 21 w))
          (ap (λ a. a ∷ []) (omega (arith, index_bits 12 v, index_bits 12 w)))))

-- What a call of `vmm_map` leaves, with `k` pages taken at most.
pub Mapped-IsReady :
    {h width root virt phys flags : ℕ} {s : Vmm} (m : Mapped s root virt phys flags) (n : ℕ)
    → s.hhdm_offset ≡ h
    → s.physical_address_width ≡ width
    → n ≤ m.out.pmm.stack_idx
    → IsReady h width root m.out n
Mapped-IsReady m n offset width spare = record {
  lvl = m.lvl';
  inv = m.inv;
  top = m.top;
  unlocked = m.unlocked;
  offset = m.same_offset ∙ offset;
  same_width = m.same_width ∙ width;
  spare = spare;
}

pub at_offset :
    {h root virt phys flags : ℕ} {s : Vmm} (m : Mapped s root virt phys flags)
    → s.hhdm_offset ≡ h
    → vmm_map (u64 (root + h)) virt phys flags s ≡ returned m.out
at_offset {root} {virt} {phys} {flags} {s} m offset =
    ap (λ h'. vmm_map (u64 (root + h')) virt phys flags s) (sym offset) ∙ m.runs

-- What `vmm_unmap` leaves.
Unmapped-IsReady :
    {lvl : Levels} {h width root virt : ℕ} {s : Vmm} (u : Unmapped lvl s root virt) (n : ℕ)
    → lvl root ≡ 4
    → s.hhdm_offset ≡ h
    → s.physical_address_width ≡ width
    → n ≤ s.pmm.stack_idx
    → IsReady h width root u.out n
Unmapped-IsReady {lvl} u n top offset width spare = record {
  lvl = lvl;
  inv = u.inv;
  top = top;
  unlocked = ap (λ t. t.map_lock) u.rest;
  offset = ap (λ t. t.hhdm_offset) u.rest ∙ offset;
  same_width = ap (λ t. t.physical_address_width) u.rest ∙ width;
  spare = omega (arith, ap (λ t. t.pmm.stack_idx) u.rest, spare);
}

pub unmapped :
    (h width root n virt : ℕ) (s : Vmm)
    → IsReady h width root s n
    → HasTable s root virt
    → (out : Vmm) × (vmm_unmap (u64 (root + h)) virt false s ≡ returned (true, out))
      × IsReady h width root out n
      × HasTable out root virt
      × (translation out root virt ≡ 0)
      × ((w : ℕ) → page_number w ≢ page_number virt → translation out root w ≡ translation s root w)
unmapped h width root n virt s ready (t, ends) =
    let u = vmm_unmap-Unmapped root virt t (ready.inv) (ready.top) (ready.unlocked) ends in
    (
      u.out,
      ap (λ h'. vmm_unmap (u64 (root + h')) virt false s) (sym (ready.offset)) ∙ u.runs,
      Unmapped-IsReady u n (ready.top) (ready.offset) (ready.same_width) (ready.spare),
      (
        t,
        ap (λ h'. dest u.out.mem h' root (indices virt)) (ap (λ v. v.hhdm_offset) u.rest)
            ∙ u.kept_table
            ∙ ends,
      ),
      u.here,
      u.elsewhere,
    )

-- There is a page table for `virt`, or `vmm_unmap` does nothing but return false.
pub missed :
    (h width root n virt : ℕ) (s : Vmm)
    → IsReady h width root s n
    → HasTable s root virt
      ⊎ ((out : Vmm) × (vmm_unmap (u64 (root + h)) virt false s ≡ returned (false, out))
          × IsReady h width root out n
          × (translation s root virt ≡ 0)
          × ((w : ℕ) → translation out root w ≡ translation s root w))
missed h width root n virt s ready = missed_at (dest s.mem s.hhdm_offset root (indices virt)) refl
  where
    missed_at :
        (o : Option (ℕ × ℕ))
        → dest s.mem s.hhdm_offset root (indices virt) ≡ o
        → HasTable s root virt
          ⊎ ((out : Vmm) × (vmm_unmap (u64 (root + h)) virt false s ≡ returned (false, out))
              × IsReady h width root out n
              × (translation s root virt ≡ 0)
              × ((w : ℕ) → translation out root w ≡ translation s root w))
    missed_at (some (t, i)) e =
        inl (t, e ∙ ap (λ j. some (t, j)) (dest-index s.mem s.hhdm_offset root virt t i e))
    missed_at none e = inr (
      record s { map_lock = spinlock_init },
      ap (λ h'. vmm_unmap (u64 (root + h')) virt false s) (sym (ready.offset))
          ∙ vmm_unmap-missing root virt false (ready.inv) (ready.top) (ready.unlocked) e,
      record {
        lvl = ready.lvl;
        inv = record {
          tree = ready.inv.tree;
          offset = ready.inv.offset;
          valid = ready.inv.valid;
          distinct = ready.inv.distinct;
          spare = ready.inv.spare;
        };
        top = ready.top;
        unlocked = refl;
        offset = ready.offset;
        same_width = ready.same_width;
        spare = ready.spare;
      },
      leaf-dest-none s.mem s.hhdm_offset root (indices virt) e,
      λ w. refl,
    )

pub switched :
    (h width root n : ℕ) (s : Vmm)
    → IsReady h width root s n
    → ((vmm_set_pm (u64 (root + h)) s).cr3 ≡ root)
      × IsReady h width root (vmm_set_pm (u64 (root + h)) s) n
unfolding vmm_set_pm
switched h width root n s ready =
    let frame = ready.inv.tree.table root (omega (arith, ready.top)) in
    (
      omega (arith, ready.offset, frame.mapped),
      record {
        lvl = ready.lvl;
        inv = record {
          tree = ready.inv.tree;
          offset = ready.inv.offset;
          valid = ready.inv.valid;
          distinct = ready.inv.distinct;
          spare = ready.inv.spare;
        };
        top = ready.top;
        unlocked = ready.unlocked;
        offset = ready.offset;
        same_width = ready.same_width;
        spare = ready.spare;
      },
    )

pub switched-translation :
    (pml4 root : ℕ) (s : Vmm) (w : ℕ)
    → translation (vmm_set_pm pml4 s) root w ≡ translation s root w
unfolding vmm_set_pm
switched-translation pml4 root s w = refl

pub fetched :
    (h width root n virt phys flags : ℕ) (s : Vmm)
    → IsReady h width root s n
    → HasTable s root virt
    → IsStorable width phys flags
    → translation s root virt ≡ bit_or phys flags
    → virt2phys (u64 (root + h)) virt s ≡ returned (phys + virt % 4096, s)
fetched h width root n virt phys flags s ready (t, table) at here =
    ap (λ h'. virt2phys (u64 (root + h')) virt s) (sym ready.offset)
    ∙ virt2phys-stored root virt phys flags width t ready.inv ready.top ready.same_width at table
        here

-- The functions of vmm.c keep the promises of vmm.h.
abbrev pub vmm_mapper : ℕ → ℕ → ℕ → PageMapper
vmm_mapper h width root = record {
  State = Vmm;
  Ready = IsReady h width root;
  HasTable = λ s v. HasTable s root v;
  IsActive = λ s. s.cr3 ≡ root;
  Storable = IsStorable width;
  translation = λ s w. translation s root w;
  vmm_set_pm = vmm_set_pm (u64 (root + h));
  virt2phys = virt2phys (u64 (root + h));
  switches = λ s n ready.
      let (active, ready') = switched h width root n s ready in
      (active, ready', λ w. switched-translation (u64 (root + h)) root s w);
  fetches = λ s n virt phys flags. fetched h width root n virt phys flags s;
  vmm_map = vmm_map (u64 (root + h));
  vmm_unmap = vmm_unmap (u64 (root + h));
  unmaps = λ s n virt ready has. unmapped h width root n virt s ready has;
  misses = λ s n virt ready. missed h width root n virt s ready;
  one_page = λ s v w e. ap (leaf s.mem s.hhdm_offset root) (indices-page_number v w e);
  maps = λ s n virt phys flags ready.
      let m =
        vmm_map-Mapped root virt phys flags (ready.inv) (ready.top) (ready.unlocked)
          (omega (arith, ready.spare)) in
      (
        m.out,
        at_offset m (ready.offset),
        Mapped-IsReady m n (ready.offset) (ready.same_width) (omega (arith, m.left, ready.spare)),
        (m.pt, m.table),
        m.here,
        m.elsewhere,
      );
  again = λ s n v virt phys flags ready has same.
      let (m, kept) =
        vmm_map-again root virt phys flags (ready.inv) (ready.top) (ready.unlocked)
          (HasTable-region s root v virt same has) in
      (
        m.out,
        at_offset m (ready.offset),
        Mapped-IsReady m n (ready.offset) (ready.same_width)
            (omega (arith, ap (λ p. p.stack_idx) kept, ready.spare)),
        (m.pt, m.table),
        m.here,
        m.elsewhere,
      );
}
