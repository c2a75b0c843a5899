-- ===== src/Vmm/Pte.antt =====
-- The bits `PTE_BIT_*` of a page-table entry, from olive/include/mm/vmm.h.
use fwp_athix.Prelude.{ℕ, ◌<<<◌}

abbrev pub present : ℕ
present = 1

abbrev pub read_write : ℕ
read_write = 1 <<< 1

abbrev pub access_all : ℕ
access_all = 1 <<< 2

abbrev pub write_through_caching : ℕ
write_through_caching = 1 <<< 3

abbrev pub execute_disable : ℕ
execute_disable = 1 <<< 63

abbrev pub disable_caching : ℕ
disable_caching = 1 <<< 4

abbrev pub pde_or_pte_accessed : ℕ
pde_or_pte_accessed = 1 <<< 5

abbrev pub dirty : ℕ
dirty = 1 <<< 6

abbrev pub pat_supported : ℕ
pat_supported = 1 <<< 7

abbrev pub global : ℕ
global = 1 <<< 8
