-- ===== src/Pmm/Init.antt =====
-- `pmm_init` of olive/src/mm/pmm.c: count the usable pages, carve the page stack out of the last
-- usable entry that is large enough, and push the pages that remain.
pub mod Load
pub mod Carve
pub mod Success
pub mod Logged
use fwp_athix.Prelude.{
  ℕ, zero, suc, ◌+◌, ◌-◌, ◌*◌, ◌/◌, ◌≡◌, true, false, ◌&&◌, Option, none, some, List, [], ◌∷◌, u64,
  ltb, leb, ◌==◌, if◌then◌else◌, length, get_or, set, replicate,
}
use fwp_athix.Macros.{page_size, align_up, Entry, EntryType, is_usable}
use fwp_athix.Outcome.{Outcome, returned, fault}
use fwp_athix.Pmm.{Pmm}

-- The globals of pmm.c beside the stack: `_memmap` and `_hhdm_offset`.
pub record Physical : Type 0 where
  pub pmm : Pmm
  pub memmap : List Entry
  pub hhdm_offset : ℕ

-- The first loop: `pm_total_pages += entry->length / PAGE_SIZE` for the usable entries.
unfoldable pub count_pages : List Entry → ℕ → ℕ
count_pages [] total = total
count_pages (e ∷ es) total =
    count_pages es (if is_usable e then u64 (total + e.size / page_size) else total)

unfoldable pub stack_size : ℕ → ℕ
stack_size total = align_up (u64 (total * 8))

abbrev pub no_entry : Entry
no_entry = record { base = 0; size = 0; kind = EntryType.other }

-- The second loop, from index `i - 1` down: the entry that the stack is carved from.
unfoldable pub locate : ℕ → ℕ → List Entry → Option ℕ
locate bytes zero es = none
locate bytes (suc i) es =
    let e = get_or es i no_entry in
    let rest = locate bytes i es in if is_usable e && leb bytes e.size then some i else rest

-- `entry->length -= pm_stack_size`
abbrev pub shrink : ℕ → Entry → Entry
shrink bytes e = record e { size = e.size - bytes }

-- What a loop that pushes pages ends with: all pages pushed, the return of 1 on a full stack, a
-- write outside the array, or no fuel left.
pub data Loaded : Type 0 where
  loaded : Pmm → Loaded
  full : Pmm → Loaded
  bad_write : Loaded
  spent : Loaded

-- The inner loop of the third loop, from offset `j`. Each round takes one free slot of the stack.
unfoldable pub push_entry : Entry → ℕ → ℕ → Pmm → Loaded
push_entry e zero j s = spent
push_entry e (suc fuel) j s =
    let slot = s.stack_idx in
    let next =
      push_entry e fuel (u64 (j + page_size))
        (record s { stack = set s.stack slot (u64 (e.base + j)); stack_idx = slot + 1 }) in
    if ltb j e.size
    then (if leb s.total_pages slot
        then full s
        else (if ltb slot (length s.stack) then next else bad_write))
    else loaded s

-- Enough fuel: a round for each free slot, and one to notice the end.
abbrev pub enough : Pmm → ℕ
enough s = s.total_pages - s.stack_idx + 1

abbrev pub then_load : Loaded → (Pmm → Loaded) → Loaded
then_load (loaded s) f = f s
then_load (full s) f = full s
then_load bad_write f = bad_write
then_load spent f = spent

-- The third loop, over the entries.
unfoldable pub push_entries : List Entry → Pmm → Loaded
push_entries [] s = loaded s
push_entries (e ∷ es) s =
    then_load (if is_usable e then push_entry e (enough s) 0 s else loaded s)
      (λ t. push_entries es t)

-- The second loop's effect: where an entry was found, its length shrinks and the array, zeroed by
-- `memset`, is the stack; where none was, both stay as they are.
unfoldable pub carve : ℕ → Option ℕ → Physical → Physical
carve bytes none st = st
carve bytes (some k) st = record st {
  memmap = set st.memmap k (shrink bytes (get_or st.memmap k no_entry));
  pmm = record (st.pmm) { stack = replicate (bytes / 8) 0 };
}

-- The end of `pmm_init`: 0 and the count of free pages, or 1 on a full stack.
abbrev pub finish : Physical → Loaded → Outcome (ℕ × Physical)
finish st (loaded s) = returned (0, record st { pmm = record s { free_pages = s.stack_idx } })
finish st (full s) = returned (1, record st { pmm = s })
finish st bad_write = fault
finish st spent = fault

-- The state when the third loop begins.
unfoldable pub prepare : List Entry → ℕ → Physical → Physical
prepare es hhdm st =
    let total = count_pages es st.pmm.total_pages in
    let bytes = stack_size total in
    carve bytes (locate bytes (length es) es)
      (record { pmm = record (st.pmm) { total_pages = total }; memmap = es; hhdm_offset = hhdm })

-- `pmm_init(memmap, hhdm_offset)`; `none` is a null memory map.
unfoldable pub pmm_init : Option (List Entry) → ℕ → Physical → Outcome (ℕ × Physical)
pmm_init none hhdm st = returned (1, st)
pmm_init (some es) hhdm st =
    if hhdm == 0
    then returned (1, st)
    else (let ready = prepare es hhdm st in finish ready (push_entries ready.memmap ready.pmm))
