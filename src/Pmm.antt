-- ===== src/Pmm.antt =====
-- olive/src/mm/pmm.c: the physical page allocator, a stack of page addresses.
-- `stack` is the array behind `pm_stack`; it is empty while `pm_stack` is NULL. An access to an
-- index outside it is a `fault`, and a failed ASSERT ends in `halt` (`hcf` in sys/cpu.c).

pub mod Spec
pub mod Refine
pub mod Series
pub mod Reuse
pub mod Exclusive
pub mod Interface
pub mod Shared
pub mod Owners
pub mod Start
pub mod Logged
pub mod Printing
pub mod Full
pub mod Init
use fwp_athix.Prelude.{
  ℕ, zero, suc, ◌+◌, ◌-◌, ◌*◌, ◌%◌, ◌||◌, List, u64, sub64, ltb, leb, ◌==◌, if◌then◌else◌, length,
  get_or, set, take,
}
use fwp_athix.Outcome.{Outcome, returned, halt, fault}
use fwp_athix.Macros.{page_size}

pub record Pmm : Type 0 where
  pub stack : List ℕ
  pub stack_idx : ℕ
  pub free_pages : ℕ
  pub used_pages : ℕ
  pub total_pages : ℕ

-- `pmm_request_pages`: the address of the block, 0 for NULL, and the new state.
unfoldable pub request_pages : ℕ → Pmm → Outcome (ℕ × Pmm)
request_pages pages s =
    if (pages == 0) || ltb s.stack_idx pages
    then returned (0, s)
    else (let idx = s.stack_idx - pages in
        if ltb idx (length s.stack)
        then returned (
          get_or s.stack idx 0,
          record s {
            stack_idx = idx;
            used_pages = u64 (s.used_pages + pages);
            free_pages = sub64 s.free_pages pages;
          },
        )
        else fault)

-- What the loop of `pmm_free_pages` ends with: all pages pushed, the return on a full stack, or a
-- write outside the array.
pub data Pushed : Type 0 where
  all_pushed : Pmm → Pushed
  overflow : Pmm → Pushed
  out_of_bounds : Pushed

-- The loop at index `i`, with `left` rounds to go.
unfoldable pub free_loop : ℕ → ℕ → ℕ → Pmm → Pushed
free_loop page_addr zero i s = all_pushed s
free_loop page_addr (suc left) i s =
    let slot = s.stack_idx in
    let pushed = record s {
      stack = set s.stack slot (u64 (page_addr + i * page_size));
      stack_idx = slot + 1;
    } in
    let rest = free_loop page_addr left (i + 1) pushed in
    if leb s.total_pages slot
    then overflow s
    else (if ltb slot (length s.stack) then rest else out_of_bounds)

-- The counters are updated only after the last page.
abbrev pub settle : ℕ → Pushed → Outcome Pmm
settle pages (all_pushed s) =
    returned
      (record s { free_pages = u64 (s.free_pages + pages); used_pages = sub64 s.used_pages pages })
settle pages (overflow s) = returned s
settle pages out_of_bounds = fault

-- `pmm_free_pages`, with its three assertions in order.
unfoldable pub free_pages : ℕ → ℕ → Pmm → Outcome Pmm
free_pages ptr pages s =
    if ptr == 0
    then halt
    else (if ptr % page_size == 0
        then (if ltb 0 pages then settle pages (free_loop ptr pages 0 s) else halt)
        else halt)

-- The pages that wait on the stack, the oldest first.
abbrev pub live : Pmm → List ℕ
live s = take s.stack_idx s.stack
