-- ===== src/Pmm/Init/Carve.antt =====
-- The first two loops of `pmm_init` in olive/src/mm/pmm.c: the count, and the carved entry.
use fwp_athix.Prelude.{
  ℕ, zero, suc, ◌+◌, ◌*◌, ◌/◌, ◌%◌, ◌^◌, ◌<◌, ◌≤◌, ◌≡◌, true, inl, inr, Bool-cases, ◌&&◌, some,
  List, [], ◌∷◌, arith, u64, leb, length, get_or, set, All-set, All-get_or, subst,
}
use fwp_athix.Macros.{page_size, align_up, Entry, is_usable}
use fwp_athix.Pmm.Init.{count_pages, locate, stack_size, no_entry, shrink}
use fwp_athix.Pmm.Init.Load.{page_count, IsWhole, IsWholeMap}

-- The counting loop adds up the pages, if the sum fits a word.
pub count_pages-page_count :
    (es : List Entry) (total : ℕ)
    → total + page_count es < 2 ^ 64
    → count_pages es total ≡ total + page_count es
unfolding count_pages
count_pages-page_count [] total h = omega arith
count_pages-page_count (e ∷ es) total h = ground (
  arith,
  count_pages-page_count es total,
  count_pages-page_count es (u64 (total + e.size / page_size)),
)

-- The array is made of whole pages, and has a slot for every page.
pub stack_size_bounds :
    (total : ℕ)
    → total ≤ 2 ^ 52
    → (stack_size total % page_size ≡ 0)
      × (total * 8 ≤ stack_size total)
      × (stack_size total < total * 8 + page_size)
unfolding stack_size align_up
stack_size_bounds total h = omega arith

-- What the second loop finds is usable and large enough, and lies in the map.
pub record Located (bytes : ℕ) (es : List Entry) (k : ℕ) : Type 0 where
  pub holds : is_usable (get_or es k no_entry) ≡ true
  pub large : bytes ≤ (get_or es k no_entry).size

here-Located :
    (bytes i : ℕ) (es : List Entry) (k : ℕ)
    → i ≡ k
    → (is_usable (get_or es i no_entry) && leb bytes (get_or es i no_entry).size) ≡ true
    → (k < suc i) × Located bytes es k
here-Located bytes i es k e hit = (
  omega arith,
  subst (Located bytes es) e (record { holds = ground arith; large = ground arith }),
)

pub locate-Located :
    (bytes n : ℕ) (es : List Entry) (k : ℕ)
    → locate bytes n es ≡ some k
    → (k < n) × Located bytes es k
unfolding locate
locate-Located bytes zero es k h = cc
locate-Located bytes (suc i) es k h =
    elim (Bool-cases (is_usable (get_or es i no_entry) && leb bytes (get_or es i no_entry).size)) [
      | inl hit ↦ here-Located bytes i es k (cc (rw hit at h)) hit
      | inr miss ↦
          let (below, found) = locate-Located bytes i es k (rw miss at h) in (omega arith, found)
    ]

-- The pages of the map before and after the carving.
pub page_count-shrink :
    (bytes k : ℕ) (es : List Entry)
    → IsWholeMap es
    → Located bytes es k
    → k < length es
    → bytes % page_size ≡ 0
    → page_count (set es k (shrink bytes (get_or es k no_entry))) + bytes / page_size
      ≡ page_count es
page_count-shrink bytes k [] w l lt whole = absurd (omega arith)
page_count-shrink bytes zero (e ∷ es) w l lt whole =
    let size = (w.0 l.holds).size_aligned in ground (arith, l.holds, l.large)
page_count-shrink bytes (suc k) (e ∷ es) w l lt whole = ground (
  arith,
  page_count-shrink bytes k es w.1 (record { holds = l.holds; large = l.large }) (omega arith)
      whole,
)

IsWhole-shrink :
    (bytes : ℕ) (e : Entry)
    → IsWhole e
    → bytes ≤ e.size
    → bytes % page_size ≡ 0
    → IsWhole (shrink bytes e)
IsWhole-shrink bytes e w h whole = record {
  base_aligned = w.base_aligned;
  size_aligned = omega (arith, w.size_aligned);
  below = omega (arith, w.below);
}

pub IsWholeMap-shrink :
    (bytes k : ℕ) (es : List Entry)
    → IsWholeMap es
    → Located bytes es k
    → k < length es
    → bytes % page_size ≡ 0
    → IsWholeMap (set es k (shrink bytes (get_or es k no_entry)))
IsWholeMap-shrink bytes k es w l lt whole =
    All-set (λ e. is_usable e ≡ true → IsWhole e) es k (shrink bytes (get_or es k no_entry)) w
      λ holds.
        IsWhole-shrink bytes (get_or es k no_entry)
          (All-get_or (λ e. is_usable e ≡ true → IsWhole e) es k no_entry w lt l.holds) l.large
          whole
