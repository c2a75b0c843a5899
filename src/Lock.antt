-- ===== src/Lock.antt =====
-- olive/include/lib/stdlock.h: the spinlock. `acquire` and `release` are what one CPU does while
-- no other runs; `Lock.Mutex` has any number of CPUs that take the lock in any order.
pub mod Mutex
use fwp_athix.Prelude.{ℕ, ◌==◌, if◌then◌else◌}
use fwp_athix.Outcome.{Outcome, returned, hang}

-- `spinlock_t` and `SPINLOCK_INIT`
pub record Spinlock : Type 0 where
  pub locked : ℕ

abbrev pub spinlock_init : Spinlock
spinlock_init = record { locked = 0 }

-- `__sync_lock_test_and_set(&lock->locked, 1)`: the old value, and the lock with 1 stored.
unfoldable pub test_and_set : Spinlock → ℕ × Spinlock
test_and_set l = (l.locked, record { locked = 1 })

-- With nobody to release the lock, a first test that finds it taken is followed by the same test
-- for ever.
unfoldable pub spinlock_acquire : Spinlock → Outcome Spinlock
unfolding test_and_set
spinlock_acquire l = let (old, l') = test_and_set l in if old == 0 then returned l' else hang

-- `__sync_lock_release`
unfoldable pub spinlock_release : Spinlock → Spinlock
spinlock_release l = record { locked = 0 }
