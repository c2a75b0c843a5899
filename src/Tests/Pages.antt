-- ===== src/Tests/Pages.antt =====
-- The page allocator of olive/src/mm/pmm.c and liballoc's pages, on three pages from 0x1000.
use mathlib.Core.List.{Perm, Nodup, reverse}
use mathlib.Core.List.Perm
use fwp_athix.Prelude.{
  ℕ, ◌+◌, ◌<◌, ◌≡◌, ◌≢◌, refl, List, [], ◌∷◌, ◌++◌, arith, All, length, some, ℤ, pos, replicate,
  length-replicate,
}
use fwp_athix.Outcome.{returned}
use fwp_athix.Console.Output.{ready, IsFormatter}
use fwp_athix.Log.{Line, default_build}
use fwp_athix.Log.Message.{Message}
use fwp_athix.Macros.{align_up, Entry, EntryType}
use fwp_athix.Lock.{spinlock_init}
use fwp_athix.Pmm.{Pmm, request_pages, free_pages, live}
use fwp_athix.Pmm.Spec.{IsValid, request_spec, free_spec, run}
use fwp_athix.Pmm.Refine.{request_pages-refines, free_pages-refines}
use fwp_athix.Pmm.Reuse.{free-request_pages}
use fwp_athix.Pmm.Exclusive.{fragment, fragment_overlaps}
use fwp_athix.Pmm.Interface.{IsPage, World, Reach, Serves}
use fwp_athix.Pmm.Series.{take_all, give_all, give_all-take_all}
use fwp_athix.Pmm.Full.{free_pages-overflow}
use fwp_athix.Pmm.Start.{PhysicalMemory, Leaves, olive_pmm, Reach-usable}
use fwp_athix.Console.{Console}
use fwp_athix.Pmm.Init.{Physical, stack_size, locate}
use fwp_athix.Pmm.Init.Load.{IsWholeMap, page_count}
use fwp_athix.Pmm.Init.Success.{zeroed, Ready, pmm_init-Ready}
use fwp_athix.HeapPages.{HeapPages, liballoc_alloc, liballoc_free}
use fwp_athix.HeapPages.Faults.{liballoc_alloc-exhausted, liballoc_free-alloc}

abbrev pages : List ℕ
pages = 0x1000 ∷ 0x2000 ∷ 0x3000 ∷ []

-- All three pages are free.
abbrev three : Pmm
three = record { stack = pages; stack_idx = 3; free_pages = 3; used_pages = 0; total_pages = 3 }

three-IsValid : IsValid three
three-IsValid = record {
  counted = refl;
  room = omega arith;
  fits = omega arith;
  small = omega arith;
}

-- The first page is free, the others are in use.
abbrev one : Pmm
one = record { stack = pages; stack_idx = 1; free_pages = 1; used_pages = 2; total_pages = 3 }

one-IsValid : IsValid one
one-IsValid = record { counted = refl; room = omega arith; fits = omega arith; small = omega arith }

request_pages-refines_example :
    (r : ℕ × Pmm) × (request_pages 2 three ≡ returned r)
    × IsValid r.1
    × (◌≡◌ {A = ℕ × List ℕ} (r.0, live r.1) (request_spec 2 (live three)))
request_pages-refines_example = request_pages-refines 2 three-IsValid

free_pages-refines_example :
    (t : Pmm) × (free_pages 0x2000 2 one ≡ returned t)
    × IsValid t
    × (live t ≡ free_spec 0x2000 2 (live one))
    × (t.used_pages + 2 ≡ one.used_pages)
free_pages-refines_example =
    free_pages-refines 0x2000 2 one-IsValid (omega arith) (omega arith) (omega arith) (omega arith)

free-request_pages_example :
    (t u : Pmm) × (request_pages 2 three ≡ returned (0x2000, t))
    × (free_pages 0x2000 2 t ≡ returned u)
    × IsValid u
    × (live u ≡ live three)
free-request_pages_example =
    free-request_pages 0x2000 2 (0x1000 ∷ []) three-IsValid refl (omega arith) (omega arith)
      (omega arith) (omega arith)

fragment_overlaps_example : fragment three ≡ returned (0x1000, 0x2000)
fragment_overlaps_example =
    fragment_overlaps [] 0x1000 three-IsValid refl (omega arith) (omega arith) (omega arith)

free_pages-overflow_example :
    (t : Pmm) × (free_pages 0x4000 3 one ≡ returned t)
    × (live t ≡ live one ++ run 0x4000 0 2)
    × (t.free_pages ≡ 1)
    × (t.used_pages ≡ 2)
    × (1 < 3 → ¬ IsValid t)
free_pages-overflow_example =
    free_pages-overflow 0x4000 3 one-IsValid (omega arith) (omega arith) (omega arith)

-- A map with one usable entry of three pages: one holds the stack, two are left.
abbrev entries : List Entry
entries =
    record { base = 0; size = 0x1000; kind = EntryType.other }
    ∷ record { base = 0x1000; size = 0x3000; kind = EntryType.usable }
    ∷ []

entries-IsWholeMap : IsWholeMap entries
entries-IsWholeMap = (
  λ other. cc other,
  (λ kind. record { base_aligned = refl; size_aligned = refl; below = omega arith }, tt),
)

located : locate (stack_size (page_count entries)) (length entries) entries ≡ some 1
unfolding locate stack_size align_up
located = refl

pmm_init-Ready_example : Ready entries 0xffff800000000000 1
pmm_init-Ready_example =
    pmm_init-Ready entries 0xffff800000000000 1 (omega arith) entries-IsWholeMap (omega arith)
      located

abbrev heap : Pmm → HeapPages
heap p = record { pmm = p; hhdm_offset = 0xffff800000000000; liballoc_lock_var = spinlock_init }

liballoc_alloc-exhausted_example :
    (liballoc_alloc 4 (heap three) ≡ returned (0xffff800000000000, heap three))
    × ((heap three).hhdm_offset ≢ 0)
liballoc_alloc-exhausted_example =
    liballoc_alloc-exhausted 4 (heap three) (omega arith) (omega arith) (omega arith)

liballoc_free-alloc_example :
    (t u : HeapPages) × (liballoc_alloc 2 (heap three) ≡ returned (0xffff800000002000, t))
    × (liballoc_free 0xffff800000002000 2 t ≡ returned u)
    × (live u.pmm ≡ (0x1000 ∷ []) ++ run 0xffff800000002000 0 2)
liballoc_free-alloc_example =
    liballoc_free-alloc 0x2000 2 (heap three) (0x1000 ∷ []) three-IsValid refl (omega arith)
      (omega arith) (omega arith) (omega arith) (omega arith)

three-IsPage : All IsPage (live three)
three-IsPage = (
  (omega arith, refl, omega arith),
  ((omega arith, refl, omega arith), ((omega arith, refl, omega arith), tt)),
)

abbrev usable : List ℕ
usable = 0x1000 ∷ 0x2000 ∷ []

entries-Leaves : Leaves entries 0xffff800000000000 usable
unfolding locate stack_size align_up
entries-Leaves = record {
  k = 1;
  offset = omega arith;
  whole = entries-IsWholeMap;
  few = omega arith;
  located = refl;
  usable = refl;
}

-- A formatter that prints a `*` for each line
abbrev star : ℕ → Line Message → ℤ × List ℕ
star size line = (pos 1, replicate 1024 42)

star-IsFormatter : IsFormatter star
star-IsFormatter f = length-replicate {A = ℕ} 1024 42

abbrev star_pmm : PhysicalMemory
star_pmm = olive_pmm star default_build "src/mm/pmm.c" star-IsFormatter [] []

Reach-usable_example :
    (t : Physical × Console) × (star_pmm.pmm_init
        (some entries)
        0xffff800000000000
        (zeroed, ready [] [])
      ≡ returned (0, t))
    × ((w : World (star_pmm.pages))
        → Reach (star_pmm.pages) (t.0.pmm, t.1) w
        → Perm (w.lent ++ live w.state.0) usable
          × Nodup (w.lent ++ live w.state.0)
          × Serves (star_pmm.pages) w)
Reach-usable_example =
    Reach-usable star_pmm entries 0xffff800000000000 usable entries-Leaves
      ((omega arith, refl, omega arith), ((omega arith, refl, omega arith), tt))
      ((omega arith, tt), (tt, tt))

-- Two of the three pages are requested, and given back in both orders.
give_all-take_all_example :
    (ps : List ℕ) × (t u w : Pmm) × (take_all 2 three ≡ returned (ps, t))
    × (length ps ≡ 2)
    × (pages ≡ live t ++ reverse ps)
    × (give_all (reverse ps) t ≡ returned u)
    × (live u ≡ pages)
    × (give_all ps t ≡ returned w)
    × (live w ≡ live t ++ ps)
give_all-take_all_example =
    give_all-take_all 2 three (λ xs. xs) Perm.refl three-IsValid three-IsPage (omega arith)
