-- ===== src/HeapPages/Session.antt =====
-- The hooks of olive/src/mm/liballoc/liballoc_wrappers.c as liballoc uses them: pages are requested
-- between `liballoc_lock` and `liballoc_unlock`.
use fwp_athix.Prelude.{ℕ, ◌≡◌, ◌≢◌, refl, ap, ◌∙◌, ◌+◌, arith, u64, ne→==, List, [], ◌∷◌}
use fwp_athix.Outcome.{Outcome, returned, halt, hang, ◌>>=◌}
use fwp_athix.Lock.{spinlock_init, spinlock_acquire, spinlock_release, test_and_set}
use fwp_athix.Pmm.{free_pages}
use fwp_athix.Pmm.Spec.{IsValid}
use fwp_athix.Pmm.Refine.{request_pages-refines}
use fwp_athix.HeapPages.{HeapPages, liballoc_lock, liballoc_unlock, liballoc_alloc, liballoc_free}

-- `IsFree s` and `IsHeld s` say that the state is sound and that the lock is free, or held.
pub record Hooks : Type 1 where
  pub State : Type 0
  pub IsFree : State → Type 0
  pub IsHeld : State → Type 0
  pub liballoc_lock : State → Outcome State
  pub liballoc_unlock : State → State
  pub liballoc_alloc : ℕ → State → Outcome (ℕ × State)
  pub liballoc_free : ℕ → ℕ → State → Outcome State
  pub locks : (s : State) → IsFree s → (t : State) × (liballoc_lock s ≡ returned t) × IsHeld t
  pub excludes : (s : State) → IsHeld s → liballoc_lock s ≡ hang
  pub unlocks : (s : State) → IsHeld s → IsFree (liballoc_unlock s)
  pub allocates :
      (n : ℕ) (s : State)
      → IsHeld s
      → (r : ℕ × State) × (liballoc_alloc n s ≡ returned r) × IsHeld r.1
  pub frees_null : (n : ℕ) (s : State) → liballoc_free 0 n s ≡ halt

pub record Held (s : HeapPages) : Type 0 where
  pub valid : IsValid s.pmm
  pub locked : s.liballoc_lock_var.locked ≢ 0

pub record Free (s : HeapPages) : Type 0 where
  pub valid : IsValid s.pmm
  pub unlocked : s.liballoc_lock_var ≡ spinlock_init

pub lock-locks :
    (s : HeapPages) → Free s → (t : HeapPages) × (liballoc_lock s ≡ returned t) × Held t
unfolding liballoc_lock spinlock_acquire test_and_set
lock-locks s free = (
  record s { liballoc_lock_var = record { locked = 1 } },
  rw (free.unlocked) refl,
  record { valid = free.valid; locked = omega arith },
)

pub lock-excludes : (s : HeapPages) → Held s → liballoc_lock s ≡ hang
unfolding liballoc_lock spinlock_acquire test_and_set
lock-excludes s held = rw (ne→== s.liballoc_lock_var.locked 0 held.locked) refl

pub unlock-unlocks : (s : HeapPages) → Held s → Free (liballoc_unlock s)
unfolding liballoc_unlock spinlock_release
unlock-unlocks s held = record { valid = held.valid; unlocked = refl }

pub alloc-allocates :
    (n : ℕ) (s : HeapPages)
    → Held s
    → (r : ℕ × HeapPages) × (liballoc_alloc n s ≡ returned r) × Held r.1
unfolding liballoc_alloc
alloc-allocates n s held =
    let (r, runs, valid, _) = request_pages-refines n held.valid in
    (
      (u64 (r.0 + s.hhdm_offset), record s { pmm = r.1 }),
      rw runs refl,
      record { valid = valid; locked = held.locked },
    )

pub free-frees_null : (n : ℕ) (s : HeapPages) → liballoc_free 0 n s ≡ halt
unfolding liballoc_free free_pages
free-frees_null n s = refl

abbrev pub olive_hooks : Hooks
olive_hooks = record {
  State = HeapPages;
  IsFree = Free;
  IsHeld = Held;
  liballoc_lock = liballoc_lock;
  liballoc_unlock = liballoc_unlock;
  liballoc_alloc = liballoc_alloc;
  liballoc_free = liballoc_free;
  locks = lock-locks;
  excludes = lock-excludes;
  unlocks = unlock-unlocks;
  allocates = alloc-allocates;
  frees_null = free-frees_null;
}

module _ (m : Hooks) where
  unfoldable pub allocate_all : List ℕ → m.State → Outcome (List ℕ × m.State)
  allocate_all [] s = returned ([], s)
  allocate_all (n ∷ ns) s = do
    (p, t) ← m.liballoc_alloc n s
    (ps, u) ← allocate_all ns t
    returned (p ∷ ps, u)

  -- `liballoc_lock`, requests of pages, `liballoc_unlock`
  unfoldable pub session : List ℕ → m.State → Outcome (List ℕ × m.State)
  unfolding allocate_all
  session ns s = do
    t ← m.liballoc_lock s
    (ps, u) ← allocate_all ns t
    returned (ps, m.liballoc_unlock u)

  allocate_all-held :
      (ns : List ℕ) (s : m.State)
      → m.IsHeld s
      → (r : List ℕ × m.State) × (allocate_all ns s ≡ returned r) × m.IsHeld r.1
  unfolding allocate_all
  allocate_all-held [] s held = (([], s), refl, held)
  allocate_all-held (n ∷ ns) s held =
      let (r, runs, held') = m.allocates n s held in
      let (q, runs', held2) = allocate_all-held ns r.1 held' in
      (
        (r.0 ∷ q.0, q.1),
        ap
              (λ o. o >>= (λ (p : ℕ × m.State).
                allocate_all ns p.1 >>= (λ ps. returned (p.0 ∷ ps.0, ps.1))))
              runs
            ∙ ap (λ o. o >>= (λ (ps : List ℕ × m.State). returned (r.0 ∷ ps.0, ps.1))) runs',
        held2,
      )

  -- A session of any number of requests of any size returns and leaves the lock free.
  pub session-IsFree :
      (ns : List ℕ) (s : m.State)
      → m.IsFree s
      → (r : List ℕ × m.State) × (session ns s ≡ returned r) × m.IsFree r.1
  unfolding session
  session-IsFree ns s free =
      let (t, locked, held) = m.locks s free in
      let (r, runs, held') = allocate_all-held ns t held in
      (
        (r.0, m.liballoc_unlock r.1),
        ap (λ o. o >>= (λ u. allocate_all ns u >>= (λ ps. returned (ps.0, m.liballoc_unlock ps.1))))
              locked
            ∙ ap (λ o. o >>= (λ (ps : List ℕ × m.State). returned (ps.0, m.liballoc_unlock ps.1)))
                runs,
        m.unlocks r.1 held',
      )
