-- ===== src/Pmm/Interface.antt =====
-- olive/include/mm/pmm.h as its callers see it: a page allocator, and the kernel code that asks it
-- for single pages and gives them back, in any order.
use fwp_athix.Prelude.{ℕ, ◌+◌, ◌%◌, ◌^◌, ◌<◌, ◌≡◌, ◌≢◌, ◌↔◌, List, [], ◌∷◌, ◌++◌}
use fwp_athix.Outcome.{Outcome, returned}
use fwp_athix.Macros.{page_size}

-- An address that the allocator takes back: not null, at a page boundary, 64 bits wide.
abbrev pub IsPage : ℕ → Type 0
IsPage p = (p ≢ 0) × (p % page_size ≡ 0) × (p < 2 ^ 64)

-- `waiting s` are the free pages, `used s` counts the others. The laws are for one page at a time.
pub record PageAllocator : Type 1 where
  pub State : Type 0
  pub IsValid : State → Type 0
  pub waiting : State → List ℕ
  pub used : State → ℕ
  pub pmm_request_pages : ℕ → State → Outcome (ℕ × State)
  pub pmm_free_pages : ℕ → ℕ → State → Outcome State
  pub grants :
      (s : State) (xs : List ℕ) (p : ℕ)
      → IsValid s
      → waiting s ≡ xs ++ (p ∷ [])
      → (t : State) × (pmm_request_pages 1 s ≡ returned (p, t))
        × IsValid t
        × (waiting t ≡ xs)
        × (used t ≡ used s + 1)
  pub refuses :
      (s : State)
      → IsValid s
      → waiting s ≡ []
      → (t : State) × (pmm_request_pages 1 s ≡ returned (0, t))
        × IsValid t
        × (waiting t ≡ [])
        × (used t ≡ used s)
  pub takes_back :
      (s : State) (p : ℕ)
      → IsValid s
      → IsPage p
      → 0 < used s
      → (t : State) × (pmm_free_pages p 1 s ≡ returned t)
        × IsValid t
        × (waiting t ≡ waiting s ++ (p ∷ []))
        × (used t + 1 ≡ used s)

-- The allocator and the pages that its callers hold.
pub record World (m : PageAllocator) : Type 0 where
  pub state : m.State
  pub lent : List ℕ

-- A caller is granted a page, is refused one, or gives back a page that it holds.
pub data Step (m : PageAllocator) (w : World m) : World m → Type 0 where
  granted :
      (p : ℕ) (t : m.State)
      → m.pmm_request_pages 1 w.state ≡ returned (p, t)
      → p ≢ 0
      → Step m w (record { state = t; lent = p ∷ w.lent })
  refused :
      (t : m.State)
      → m.pmm_request_pages 1 w.state ≡ returned (0, t)
      → Step m w (record { state = t; lent = w.lent })
  given :
      (xs ys : List ℕ) (p : ℕ) (t : m.State)
      → w.lent ≡ xs ++ (p ∷ ys)
      → m.pmm_free_pages p 1 w.state ≡ returned t
      → Step m w (record { state = t; lent = xs ++ ys })

-- The worlds that any number of such steps lead to from `s`, where no caller holds a page.
pub data Reach (m : PageAllocator) (s : m.State) : World m → Type 0 where
  begin : Reach m s (record { state = s; lent = [] })
  later : {v w : World m} → Reach m s v → Step m v w → Reach m s w

-- The next request of a page returns, with NULL exactly where no page is free, and so does giving
-- back any page that a caller holds.
abbrev pub Serves : (m : PageAllocator) → World m → Type 0
Serves m w =
    ((r : ℕ × m.State) × (m.pmm_request_pages 1 w.state ≡ returned r)
      × ((r.0 ≡ 0) ↔ (m.waiting w.state ≡ [])))
    × ((xs ys : List ℕ) (p : ℕ)
        → w.lent ≡ xs ++ (p ∷ ys)
        → (t : m.State) × (m.pmm_free_pages p 1 w.state ≡ returned t))
