-- ===== src/Vmm/Logged.antt =====
-- `vmm_map` and `vmm_unmap` of olive/src/mm/vmm.c with their log and that of the page allocator, on
-- the console. virt2phys logs nothing: with `force` false, get_below_pml has no log call to make.
use Prim.Native.String.{String}
use fwp_athix.Prelude.{
  ℕ, ◌+◌, Bool, true, false, not, bit_and, bit_or, u64, ◌==◌, if◌then◌else◌, ℤ, List, [], ◌∷◌,
}
use fwp_athix.Outcome.{Outcome, returned, ◌>>=◌}
use fwp_athix.Console.{Console}
use fwp_athix.Console.Output.{IsFormatter}
use fwp_athix.Log.{Build, Line, error_level}
use fwp_athix.Log.Series.{LogCall, log_all}
use fwp_athix.Log.Quiet.{
  Logged, Logged-returned, Logged-bind, Logged-first, Logged-result, Logged-if, Logged-log,
}
use fwp_athix.Log.Message.{Message, call}
use fwp_athix.Pmm.{Pmm, request_pages, free_pages}
use fwp_athix.Pmm.Logged.{
  request_on_console, free_on_console, request_on_console-EndsAs, free_on_console-EndsAs,
}
use fwp_athix.Vmm.{
  Vmm, slot, write, zero_page, tlb_flush, is_present, frame_mask, table_entry, get_below_pml,
  pml4_index, pdpt_index, pd_index, pt_index, pml4_to_pt, acquire_map, release_map, vmm_map,
  vmm_unmap,
}

abbrev pub no_page_lines : List (LogCall Message)
no_page_lines = call error_level "Failed to allocate page for lower level page table\n" [] ∷ []

abbrev pub no_table_lines : List (LogCall Message)
no_table_lines = call error_level "Page table doesn't exist and didn't get created?" [] ∷ []

-- `pmm_file` and `vmm_file` are the names of pmm.c and vmm.c in a debug build's tags.
module _ (npf : ℕ → Line Message → ℤ × List ℕ) (build : Build) (pmm_file vmm_file : String) where
  unfoldable pub get_below_logged : ℕ → ℕ → Bool → Vmm → Console → Outcome ((ℕ × Vmm) × Console)
  unfolding request_on_console log_all
  get_below_logged pml index force s c =
      let entry = s.mem (slot pml index) in
      if is_present entry
      then returned ((u64 (bit_and entry frame_mask + s.hhdm_offset), s), c)
      else (if not force then returned ((0, s), c) else (do
        ((below, pmm), c1) ← request_on_console npf build pmm_file 1 s.pmm c
        let table = u64 (below + s.hhdm_offset)
        if below == 0
            then (do
              c2 ← log_all npf build vmm_file no_page_lines c1
              returned ((0, record s { pmm = pmm }), c2))
            else returned (
              (
                table,
                record s {
                  pmm = pmm;
                  mem = write (zero_page table s.mem) (slot pml index) (table_entry below);
                },
              ),
              c1,
            )))

  unfoldable pub pml4_to_pt_logged : ℕ → ℕ → Bool → Vmm → Console → Outcome ((ℕ × Vmm) × Console)
  unfolding get_below_logged
  pml4_to_pt_logged pml4 virt force s c = do
    ((pdpt, s1), c1) ← get_below_logged pml4 (pml4_index virt) force s c
    if pdpt == 0 then returned ((0, s1), c1) else (do
      ((pd, s2), c2) ← get_below_logged pdpt (pdpt_index virt) force s1 c1
      if pd == 0 then returned ((0, s2), c2) else (do
        ((pt, s3), c3) ← get_below_logged pd (pd_index virt) force s2 c2
        if pt == 0 then returned ((0, s3), c3) else returned ((pt, s3), c3)))

  unfoldable pub map_logged : ℕ → ℕ → ℕ → ℕ → Vmm → Console → Outcome (Vmm × Console)
  unfolding acquire_map release_map pml4_to_pt_logged log_all
  map_logged pml4 virt phys flags s c = do
    s1 ← acquire_map s
    ((pt, s2), c1) ← pml4_to_pt_logged pml4 virt true s1 c
    if pt == 0
        then (do c2 ← log_all npf build vmm_file no_table_lines c1; returned (release_map s2, c2))
        else returned (
          release_map (
              tlb_flush
                (record s2 { mem = write s2.mem (slot pt (pt_index virt)) (bit_or phys flags) })),
          c1,
        )

  unfoldable pub unmap_logged : ℕ → ℕ → Bool → Vmm → Console → Outcome ((Bool × Vmm) × Console)
  unfolding acquire_map release_map pml4_to_pt_logged free_on_console
  unmap_logged pml4 virt free_phys s c = do
    s1 ← acquire_map s
    ((pt, s2), c1) ← pml4_to_pt_logged pml4 virt false s1 c
    let leaf = slot pt (pt_index virt)
    if pt == 0 then returned ((false, release_map s2), c1) else (do
      (pmm, c2) ←
          if free_phys
          then free_on_console npf build pmm_file (bit_and (s2.mem leaf) frame_mask) 1 s2.pmm c1
          else returned (s2.pmm, c1)
      returned (
        (true, release_map (tlb_flush (record s2 { pmm = pmm; mem = write s2.mem leaf 0 }))),
        c2,
      ))

module _ (npf : ℕ → Line Message → ℤ × List ℕ) (build : Build) (pmm_file vmm_file : String)
    (size : IsFormatter npf) where
  pub request-Logged :
      (s : Pmm)
      → Logged npf build size (request_pages 1 s) (request_on_console npf build pmm_file 1 s)
  request-Logged s =
      Logged-result npf build size pmm_file _ _
        (request_on_console-EndsAs npf build pmm_file size 1 s)

  get_below-Logged :
      (pml index : ℕ) (force : Bool) (s : Vmm)
      → Logged npf build size
          (get_below_pml pml index force s)
          (get_below_logged npf build pmm_file vmm_file pml index force s)
  unfolding get_below_logged get_below_pml
  get_below-Logged pml index force s =
      let entry = s.mem (slot pml index) in
      Logged-if npf build size (is_present entry) (Logged-returned npf build size _) (
        Logged-if npf build size (not force) (Logged-returned npf build size _) (
          Logged-bind npf build size _ (request-Logged s.pmm) (λ r.
            Logged-if npf build size (r.0 == 0)
              (Logged-log npf build size vmm_file no_page_lines (Logged-returned npf build size _))
              (Logged-returned npf build size _))))

  pml4_to_pt-Logged :
      (pml4 virt : ℕ) (force : Bool) (s : Vmm)
      → Logged npf build size
          (pml4_to_pt pml4 virt force s)
          (pml4_to_pt_logged npf build pmm_file vmm_file pml4 virt force s)
  unfolding pml4_to_pt pml4_to_pt_logged
  pml4_to_pt-Logged pml4 virt force s =
      Logged-bind npf build size _ (get_below-Logged pml4 (pml4_index virt) force s) (λ r.
        Logged-if npf build size (r.0 == 0) (Logged-returned npf build size _) (
          Logged-bind npf build size _ (get_below-Logged r.0 (pdpt_index virt) force r.1) (λ q.
            Logged-if npf build size (q.0 == 0) (Logged-returned npf build size _) (
              Logged-bind npf build size _ (get_below-Logged q.0 (pd_index virt) force q.1) (λ p.
                Logged-if npf build size (p.0 == 0) (Logged-returned npf build size _)
                  (Logged-returned npf build size _))))))

  pub map-Logged :
      (pml4 virt phys flags : ℕ) (s : Vmm)
      → Logged npf build size
          (vmm_map pml4 virt phys flags s)
          (map_logged npf build pmm_file vmm_file pml4 virt phys flags s)
  unfolding vmm_map map_logged
  map-Logged pml4 virt phys flags s = Logged-first npf build size (acquire_map s) (λ s1.
      Logged-bind npf build size _ (pml4_to_pt-Logged pml4 virt true s1) (λ r.
        Logged-if npf build size (r.0 == 0)
          (Logged-log npf build size vmm_file no_table_lines (Logged-returned npf build size _))
          (Logged-returned npf build size _)))

  free-Logged :
      (ptr : ℕ) (s : Pmm)
      → Logged npf build size (free_pages ptr 1 s) (free_on_console npf build pmm_file ptr 1 s)
  free-Logged ptr s =
      Logged-result npf build size pmm_file _ _
        (free_on_console-EndsAs npf build pmm_file size ptr 1 s)

  pub unmap-Logged :
      (pml4 virt : ℕ) (free_phys : Bool) (s : Vmm)
      → Logged npf build size
          (vmm_unmap pml4 virt free_phys s)
          (unmap_logged npf build pmm_file vmm_file pml4 virt free_phys s)
  unfolding vmm_unmap unmap_logged
  unmap-Logged pml4 virt free_phys s = Logged-first npf build size (acquire_map s) (λ s1.
      Logged-bind npf build size _ (pml4_to_pt-Logged pml4 virt false s1) (λ r.
        Logged-if npf build size (r.0 == 0) (Logged-returned npf build size _) (
          Logged-bind npf build size _
            (Logged-if npf build size free_phys
              (free-Logged (bit_and (r.1.mem (slot r.0 (pt_index virt))) frame_mask) r.1.pmm)
              (Logged-returned npf build size r.1.pmm))
            (λ pmm. Logged-returned npf build size _))))
