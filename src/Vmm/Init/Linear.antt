-- ===== src/Vmm/Init/Linear.antt =====
-- The direct map that `vmm_init` of olive/src/mm/vmm.c builds of usable memory.
use fwp_athix.Prelude.{
  ℕ, zero, suc, ◌+◌, ◌-◌, ◌*◌, ◌/◌, ◌%◌, ◌^◌, ◌<◌, ◌≤◌, ◌≡◌, ◌≢◌, refl, sym, ap, subst, ◌∙◌, arith,
  u64, bit_or,
}
use fwp_athix.Outcome.{Outcome, returned, ◌>>=◌}
use fwp_athix.Macros.{page_size, Entry, EntryType}
use fwp_athix.Lock.{spinlock_init}
use fwp_athix.Vmm.{Vmm, vmm_map}
use fwp_athix.Vmm.Tree.{Levels}
use fwp_athix.Vmm.Below.{Inv}
use fwp_athix.Vmm.Translate.{page_number, translation, Mapped, vmm_map-Mapped}
use fwp_athix.Vmm.Init.{map_all, map_entry}
use fwp_athix.Vmm.Init.Ranges.{each_page, map_all-each_page}

-- Where the direct map at `h` has page `i` of the block at `off`.
abbrev pub direct : ℕ → ℕ → ℕ → ℕ
direct h off i = u64 (off + i * page_size + h)

-- The body of a loop over usable memory
abbrev pub map_page : ℕ → ℕ → ℕ → Vmm → Outcome Vmm
map_page pml4 flags off t = vmm_map pml4 (u64 (off + t.hhdm_offset)) off flags t

-- `n` pages from `off` have been mapped in the direct map, and no other translation has changed.
pub record IsLinear (s : Vmm) (root off n flags : ℕ) (r : Outcome Vmm) : Type 0 where
  pub lvl' : Levels
  pub out : Vmm
  pub runs : r ≡ returned out
  pub inv : Inv lvl' out
  pub top : lvl' root ≡ 4
  pub here :
      (i : ℕ)
      → i < n
      → translation out root (direct s.hhdm_offset off i) ≡ bit_or (off + i * page_size) flags
  pub elsewhere :
      (w : ℕ)
      → ((i : ℕ) → i < n → page_number w ≢ page_number (direct s.hhdm_offset off i))
      → translation out root w ≡ translation s root w
  pub unlocked : out.map_lock ≡ spinlock_init
  pub left : s.pmm.stack_idx ≤ 3 * n + out.pmm.stack_idx
  pub same_offset : out.hhdm_offset ≡ s.hhdm_offset

direct-suc : (h off i : ℕ) → direct h (off + page_size) i ≡ direct h off (suc i)
direct-suc h off i = ap (λ a. u64 (a + h)) (omega arith)

-- Different pages of a block that fits the lower 48 bits have different page numbers.
page_number-direct :
    (h off n i j : ℕ)
    → h % 2 ^ 48 + off + n * page_size ≤ 2 ^ 48
    → i < n
    → j < n
    → i ≢ j
    → page_number (direct h off i) ≢ page_number (direct h off j)
page_number-direct h off n i j fits lt lt' ne = omega arith

-- The first page, then the others.
IsLinear-suc :
    {s : Vmm} (root pml4 flags n off : ℕ)
    → pml4 ≡ u64 (root + s.hhdm_offset)
    → s.hhdm_offset % 2 ^ 48 + off + suc n * page_size ≤ 2 ^ 48
    → (m : Mapped s root (u64 (off + s.hhdm_offset)) off flags)
    → IsLinear m.out root
        (off + page_size)
        n
        flags
        (each_page (map_page pml4 flags) (off + page_size) n m.out)
    → IsLinear s root off (suc n) flags (each_page (map_page pml4 flags) off (suc n) s)
unfolding each_page
IsLinear-suc {s} root pml4 flags n off at fits m rest = record {
  lvl' = rest.lvl';
  out = rest.out;
  runs =
      ap (λ o. o >>= each_page (map_page pml4 flags) (off + page_size) n)
        (ap (λ p. vmm_map p (u64 (off + s.hhdm_offset)) off flags s) at ∙ m.runs)
      ∙ rest.runs;
  inv = rest.inv;
  top = rest.top;
  here = here;
  elsewhere = λ w apart.
      rest.elsewhere w (λ i lt e. apart (suc i) (omega arith) (e ∙ ap page_number (shift i)))
      ∙ m.elsewhere w (λ e. apart 0 (omega arith) (e ∙ ap page_number (sym first)));
  unlocked = rest.unlocked;
  left = omega (arith, rest.left, m.left);
  same_offset = rest.same_offset ∙ m.same_offset;
}
  where
    first : direct s.hhdm_offset off 0 ≡ u64 (off + s.hhdm_offset)
    first = ap (λ a. u64 (a + s.hhdm_offset)) (omega arith)

    shift :
        (i : ℕ) → direct m.out.hhdm_offset (off + page_size) i ≡ direct s.hhdm_offset off (suc i)
    shift i =
        ap (λ k. direct k (off + page_size) i) m.same_offset ∙ direct-suc (s.hhdm_offset) off i

    here :
        (i : ℕ)
        → i < suc n
        → translation rest.out root (direct s.hhdm_offset off i)
          ≡ bit_or (off + i * page_size) flags
    here zero lt =
        rest.elsewhere (direct s.hhdm_offset off 0) (λ i lt' e.
          page_number-direct (s.hhdm_offset) off (suc n) 0 (suc i) fits (omega arith) (omega arith)
            (omega arith) (e ∙ ap page_number (shift i)))
        ∙ ap (translation m.out root) first
        ∙ m.here
        ∙ ap (λ a. bit_or a flags) (omega arith)
    here (suc i) lt =
        ap (translation rest.out root) (sym (shift i))
        ∙ rest.here i (omega arith)
        ∙ ap (λ a. bit_or a flags) (omega arith)

each_page-IsLinear :
    (n : ℕ) (lvl : Levels) (s : Vmm) (root pml4 flags off : ℕ)
    → pml4 ≡ u64 (root + s.hhdm_offset)
    → Inv lvl s
    → lvl root ≡ 4
    → s.map_lock ≡ spinlock_init
    → 3 * n ≤ s.pmm.stack_idx
    → s.hhdm_offset % 2 ^ 48 + off + n * page_size ≤ 2 ^ 48
    → IsLinear s root off n flags (each_page (map_page pml4 flags) off n s)
unfolding each_page
each_page-IsLinear zero lvl s root pml4 flags off at inv top open_lock spare fits = record {
  lvl' = lvl;
  out = s;
  runs = refl;
  inv = inv;
  top = top;
  here = λ i lt. absurd (omega arith);
  elsewhere = λ w apart. refl;
  unlocked = open_lock;
  left = omega arith;
  same_offset = refl;
}
each_page-IsLinear (suc n) lvl s root pml4 flags off at inv top open_lock spare fits =
    let m =
      vmm_map-Mapped root (u64 (off + s.hhdm_offset)) off flags inv top open_lock (omega arith) in
    let rest =
      each_page-IsLinear n m.lvl' m.out root pml4 flags (off + page_size)
        (at ∙ ap (λ h. u64 (root + h)) (sym m.same_offset)) m.inv m.top m.unlocked
        (omega (arith, m.left)) (omega (arith, m.same_offset)) in
    IsLinear-suc root pml4 flags n off at fits m rest

-- On page tables that form a tree, with the lock free, and for a usable entry of whole pages that
-- fits the direct map and for each page of which three pages are to spare, the loop of `vmm_init`
-- returns: each page of the entry is found in the direct map, present and writable, and no other
-- translation has changed.
map_entry-IsLinear :
    {lvl : Levels} {s : Vmm} (root n : ℕ) (e : Entry)
    → e.kind ≡ EntryType.usable
    → e.size ≡ n * page_size
    → Inv lvl s
    → lvl root ≡ 4
    → s.map_lock ≡ spinlock_init
    → 3 * n ≤ s.pmm.stack_idx
    → s.hhdm_offset % 2 ^ 48 + e.base + e.size ≤ 2 ^ 48
    → IsLinear s root (e.base) n 3 (map_entry (u64 (root + s.hhdm_offset)) e s)
unfolding map_entry
map_entry-IsLinear {lvl} {s} root n e kind size inv top open_lock spare fits =
    subst (IsLinear s root (e.base) n 3) (sym (enters ∙ ends ∙ counts)) (
      each_page-IsLinear n lvl s root (u64 (root + s.hhdm_offset)) 3 (e.base) refl inv top open_lock
        spare (omega arith))
  where
    enters :
        map_entry (u64 (root + s.hhdm_offset)) e s
        ≡ map_all (map_page (u64 (root + s.hhdm_offset)) 3) (e.base) (u64 (e.base + e.size)) s
    enters = rw (kind) refl

    ends :
        map_all (map_page (u64 (root + s.hhdm_offset)) 3) (e.base) (u64 (e.base + e.size)) s
        ≡ each_page
            (map_page (u64 (root + s.hhdm_offset)) 3)
            (e.base)
            ((u64 (e.base + e.size) - e.base + 4095) / 4096)
            s
    ends =
        map_all-each_page (map_page (u64 (root + s.hhdm_offset)) 3) (e.base) (u64 (e.base + e.size))
          s (omega arith)

    counts :
        each_page
          (map_page (u64 (root + s.hhdm_offset)) 3)
          (e.base)
          ((u64 (e.base + e.size) - e.base + 4095) / 4096)
          s
        ≡ each_page (map_page (u64 (root + s.hhdm_offset)) 3) (e.base) n s
    counts =
        ap (λ k. each_page (map_page (u64 (root + s.hhdm_offset)) 3) (e.base) k s) (omega arith)
