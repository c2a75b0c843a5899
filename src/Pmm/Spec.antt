-- ===== src/Pmm/Spec.antt =====
-- What the page allocator of olive/src/mm/pmm.c promises, on a plain list of free pages.
use fwp_athix.Prelude.{
  ℕ, zero, suc, ◌+◌, ◌-◌, ◌*◌, ◌<◌, ◌≤◌, ◌^◌, ◌≡◌, ◌≢◌, ◌||◌, List, [], ◌∷◌, ◌++◌, arith, u64, ltb,
  ◌==◌, if◌then◌else◌, length, get_or, take, All, All-append, All-append_left, sym,
}
use fwp_athix.Macros.{page_size}
use fwp_athix.Pmm.{Pmm}

-- The counters agree with the stack, and the pages handed out still fit on it.
pub record IsValid (s : Pmm) : Type 0 where
  pub counted : s.free_pages ≡ s.stack_idx
  pub room : s.used_pages + s.free_pages ≤ s.total_pages
  pub fits : s.total_pages ≤ length s.stack
  pub small : length s.stack < 2 ^ 61

-- `n` pages from index `i` of the block at `a`, in rising order.
abbrev pub run : ℕ → ℕ → ℕ → List ℕ
run a i zero = []
run a i (suc n) = u64 (a + i * page_size) ∷ run a (i + 1) n

-- The last `n` pages leave the list, and the first of these is the result; 0 is the refusal.
abbrev pub request_spec : ℕ → List ℕ → ℕ × List ℕ
request_spec n xs =
    if (n == 0) || ltb (length xs) n
    then (0, xs)
    else (get_or xs (length xs - n) 0, take (length xs - n) xs)

abbrev pub free_spec : ℕ → ℕ → List ℕ → List ℕ
free_spec a n xs = xs ++ run a 0 n

-- No page twice.
abbrev pub Distinct : List ℕ → Type 0
Distinct [] = Unit
Distinct (x ∷ xs) = All (λ y. x ≢ y) xs × Distinct xs

pub length-run : (a i n : ℕ) → length (run a i n) ≡ n
length-run a i zero = omega arith
length-run a i (suc n) = omega (arith, length-run a (i + 1) n)

-- Dropping the last page keeps the rest distinct, and the page is not among the rest.
pub Distinct-last :
    (xs : List ℕ) (p : ℕ) → Distinct (xs ++ (p ∷ [])) → Distinct xs × All (λ x. p ≢ x) xs
Distinct-last [] p h = (tt, tt)
Distinct-last (x ∷ xs) p h =
    let (rest, apart) = Distinct-last xs p h.1 in
    let (front, last) = All-append_left (λ y. x ≢ y) xs (p ∷ []) h.0 in
    ((front, rest), (λ e. last.0 (sym e), apart))

pub Distinct-snoc :
    (xs : List ℕ) (p : ℕ) → Distinct xs → All (λ x. p ≢ x) xs → Distinct (xs ++ (p ∷ []))
Distinct-snoc [] p d h = (tt, tt)
Distinct-snoc (x ∷ xs) p d h =
    (All-append (λ y. x ≢ y) xs (p ∷ []) d.0 ((λ e. h.0 (sym e)), tt), Distinct-snoc xs p d.1 h.1)
