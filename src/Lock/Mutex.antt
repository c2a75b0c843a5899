-- ===== src/Lock/Mutex.antt =====
-- Any number of CPUs take and release one spinlock of olive/include/lib/stdlock.h, in any order.
use fwp_athix.Prelude.{ℕ, ◌≡◌, ◌≢◌, ◌⊎◌, inl, inr, refl, arith, ◌==◌, if◌then◌else◌, Bool-cases}
use fwp_athix.Lock.{Spinlock, spinlock_init, test_and_set, spinlock_release}

-- Where a CPU stands: elsewhere, in the loop of `spinlock_acquire`, or between its return and
-- `spinlock_release`.
pub data Place : Type 0 where
  outside waiting inside : Place

pub record Cpus : Type 0 where
  pub lock : Spinlock
  pub place : ℕ → Place

abbrev pub move : (ℕ → Place) → ℕ → Place → ℕ → Place
move f i p j = if i == j then p else f j

-- One step of CPU `i`: it calls `spinlock_acquire`, makes one round of the loop, or releases.
pub data Step (s : Cpus) : Cpus → Type 0 where
  call :
      (i : ℕ)
      → s.place i ≡ Place.outside
      → Step s (record s { place = move s.place i Place.waiting })
  spin :
      (i : ℕ)
      → s.place i ≡ Place.waiting
      → (test_and_set s.lock).0 ≢ 0
      → Step s (record s { lock = (test_and_set s.lock).1 })
  enter :
      (i : ℕ)
      → s.place i ≡ Place.waiting
      → (test_and_set s.lock).0 ≡ 0
      → Step s (record { lock = (test_and_set s.lock).1; place = move s.place i Place.inside })
  leave :
      (i : ℕ)
      → s.place i ≡ Place.inside
      → Step s (record { lock = spinlock_release s.lock; place = move s.place i Place.outside })

abbrev pub start : Cpus
start = record { lock = spinlock_init; place = λ _. Place.outside }

pub data Reach : Cpus → Type 0 where
  begin : Reach start
  later : {s t : Cpus} → Reach s → Step s t → Reach t

-- The lock is 0 while nobody is inside, and whoever is inside is alone.
record Inv (s : Cpus) : Type 0 where
  pub free : s.lock.locked ≡ 0 → (i : ℕ) → s.place i ≢ Place.inside
  pub alone : (i j : ℕ) → s.place i ≡ Place.inside → s.place j ≡ Place.inside → i ≡ j
  pub taken : s.lock.locked ≢ 0 → (i : ℕ) × (s.place i ≡ Place.inside)

Step-Inv : {s t : Cpus} → Step s t → Inv s → Inv t
unfolding test_and_set spinlock_release
Step-Inv (call i e) v = record {
  free = λ z j. ground (arith, v.free z j);
  alone = λ j k. ground (arith, v.alone j k);
  taken = λ ne. let (j, in_j) = v.taken ne in (j, ground arith);
}
Step-Inv (spin i e busy) v = record {
  free = λ z j. absurd (omega arith);
  alone = v.alone;
  taken = λ ne. v.taken busy;
}
Step-Inv (enter i e idle) v = record {
  free = λ z j. absurd (omega arith);
  alone = λ j k. ground (arith, v.free idle j, v.free idle k);
  taken = λ ne. (i, ground arith);
}
Step-Inv (leave i e) v = record {
  free = λ z j. ground (arith, v.alone i j);
  alone = λ j k. ground (arith, v.alone j k);
  taken = λ ne. absurd (ne refl);
}

Reach-Inv : {s : Cpus} → Reach s → Inv s
Reach-Inv begin = record { free = λ z i. cc; alone = λ i j. cc; taken = λ ne. absurd (ne refl) }
Reach-Inv (later r st) = Step-Inv st (Reach-Inv r)

-- Mutual exclusion: in every reachable state at most one CPU is between the return of
-- `spinlock_acquire` and `spinlock_release`.
pub mutual_exclusion :
    {s : Cpus} (i j : ℕ) → Reach s → s.place i ≡ Place.inside → s.place j ≡ Place.inside → i ≡ j
mutual_exclusion i j r = (Reach-Inv r).alone i j

-- No deadlock between CPUs: in every reachable state where a CPU waits, either its next round
-- takes the lock, or some CPU is inside and can release it.
pub no_deadlock :
    {s : Cpus} (i : ℕ)
    → Reach s
    → s.place i ≡ Place.waiting
    → (Step s (record { lock = (test_and_set s.lock).1; place = move s.place i Place.inside }))
      ⊎ ((j : ℕ) × (s.place j ≡ Place.inside)
          × Step s
              (record { lock = spinlock_release s.lock; place = move s.place j Place.outside }))
no_deadlock {s} i r e = elim (Bool-cases (s.lock.locked == 0)) [
  | inl idle ↦ inl (enter i e (unfold test_and_set in ground arith))
  | inr busy ↦ let (j, in_j) = (Reach-Inv r).taken (ground arith) in inr (j, in_j, leave j in_j)
]
