-- ===== src/HeapPages.antt =====
-- olive/src/mm/liballoc/liballoc_wrappers.c: the pages and the lock that liballoc asks the kernel
-- for. The page counts are the values of liballoc's `int`s: from 0 to 2 ^ 31 - 1, since it asks for no
-- negative number of pages; such a value is the same as a `size_t`.
pub mod Faults
pub mod Session
use fwp_athix.Prelude.{ℕ, ◌+◌, u64}
use fwp_athix.Outcome.{Outcome, returned, ◌>>=◌}
use fwp_athix.Lock.{Spinlock, spinlock_acquire, spinlock_release}
use fwp_athix.Pmm.{Pmm, request_pages, free_pages}

pub record HeapPages : Type 0 where
  pub pmm : Pmm
  pub hhdm_offset : ℕ
  pub liballoc_lock_var : Spinlock

unfoldable pub liballoc_lock : HeapPages → Outcome HeapPages
liballoc_lock s = do
  lock ← spinlock_acquire s.liballoc_lock_var
  returned (record s { liballoc_lock_var = lock })

unfoldable pub liballoc_unlock : HeapPages → HeapPages
liballoc_unlock s = record s { liballoc_lock_var = spinlock_release s.liballoc_lock_var }

-- `pmm_request_pages(pages) + _hhdm_offset`
unfoldable pub liballoc_alloc : ℕ → HeapPages → Outcome (ℕ × HeapPages)
liballoc_alloc pages s = do
  (p, pmm) ← request_pages pages s.pmm
  returned (u64 (p + s.hhdm_offset), record s { pmm = pmm })

-- `pmm_free_pages(ptr, pages)`: the pointer is passed on as it is.
unfoldable pub liballoc_free : ℕ → ℕ → HeapPages → Outcome HeapPages
liballoc_free ptr pages s = do pmm ← free_pages ptr pages s.pmm; returned (record s { pmm = pmm })
