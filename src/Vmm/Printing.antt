-- ===== src/Vmm/Printing.antt =====
-- olive/src/mm/vmm.c with its log, on a console that can print, as the page mapper of
-- olive/include/mm/vmm.h. Any page mapper whose functions have a version with their log gives one.
use Prim.Native.String.{String}
use fwp_athix.Prelude.{ℕ, ◌+◌, refl, inl, inr, Bool, false, ℤ, List, u64}
use fwp_athix.Outcome.{Outcome, returned, ◌>>=◌}
use fwp_athix.Console.{Console}
use fwp_athix.Console.Output.{IsFormatter, IsReady}
use fwp_athix.Log.{Build, Line}
use fwp_athix.Log.Quiet.{Logged, Logged-IsReady}
use fwp_athix.Log.Message.{Message}
use fwp_athix.Vmm.Interface.{PageMapper}
use fwp_athix.Vmm.Mapper.{vmm_mapper}
use fwp_athix.Vmm.Logged.{map_logged, unmap_logged, map-Logged, unmap-Logged}

-- The functions of a page mapper with their log
pub record LoggedMapper (npf : ℕ → Line Message → ℤ × List ℕ) (build : Build)
    (size : IsFormatter npf) (m : PageMapper) : Type 0 where
  pub map_on : ℕ → ℕ → ℕ → m.State → Console → Outcome (m.State × Console)
  pub unmap_on : ℕ → Bool → m.State → Console → Outcome ((Bool × m.State) × Console)
  pub map_log :
      (virt phys flags : ℕ) (s : m.State)
      → Logged npf build size (m.vmm_map virt phys flags s) (map_on virt phys flags s)
  pub unmap_log :
      (virt : ℕ) (free_phys : Bool) (s : m.State)
      → Logged npf build size (m.vmm_unmap virt free_phys s) (unmap_on virt free_phys s)

module _ (npf : ℕ → Line Message → ℤ × List ℕ) (build : Build) (size : IsFormatter npf) where
  abbrev pub printing : (m : PageMapper) → LoggedMapper npf build size m → PageMapper
  printing m l = record {
    State = m.State × Console;
    Ready = λ s n. m.Ready s.0 n × IsReady s.1;
    HasTable = λ s v. m.HasTable s.0 v;
    IsActive = λ s. m.IsActive s.0;
    Storable = m.Storable;
    translation = λ s w. m.translation s.0 w;
    vmm_set_pm = λ s. (m.vmm_set_pm s.0, s.1);
    vmm_map = λ virt phys flags s. l.map_on virt phys flags s.0 s.1;
    vmm_unmap = λ virt free_phys s.
        l.unmap_on virt free_phys s.0 s.1 >>= (λ r. returned (r.0.0, (r.0.1, r.1)));
    virt2phys = λ virt s. m.virt2phys virt s.0 >>= (λ r. returned (r.0, (r.1, s.1)));
    switches = λ s n ready.
        let (active, ready', same) = m.switches s.0 n ready.0 in (active, (ready', ready.1), same);
    fetches = λ s n virt phys flags ready has at here.
        rw (m.fetches s.0 n virt phys flags ready.0 has at here) refl;
    one_page = λ s v w e. m.one_page s.0 v w e;
    maps = λ s n virt phys flags ready.
        let (out, runs, ready', has, here, elsewhere) = m.maps s.0 n virt phys flags ready.0 in
        let (d, printed, z) =
          Logged-IsReady npf build size (l.map_on virt phys flags s.0) s.1
            (l.map_log virt phys flags s.0) runs ready.1 in
        ((out, d), printed, (ready', z), has, here, elsewhere);
    again = λ s n v virt phys flags ready has same.
        let (out, runs, ready', has', here, elsewhere) =
          m.again s.0 n v virt phys flags ready.0 has same in
        let (d, printed, z) =
          Logged-IsReady npf build size (l.map_on virt phys flags s.0) s.1
            (l.map_log virt phys flags s.0) runs ready.1 in
        ((out, d), printed, (ready', z), has', here, elsewhere);
    unmaps = λ s n virt ready has.
        let (out, runs, ready', has', here, elsewhere) = m.unmaps s.0 n virt ready.0 has in
        let (d, printed, z) =
          Logged-IsReady npf build size (l.unmap_on virt false s.0) s.1 (l.unmap_log virt false s.0)
            runs ready.1 in
        ((out, d), rw (printed) refl, (ready', z), has', here, elsewhere);
    misses = λ s n virt ready. elim (m.misses s.0 n virt ready.0) [
      | inl has ↦ inl has
      | inr (out, runs, ready', none_there, same) ↦
          let (d, printed, z) =
            Logged-IsReady npf build size (l.unmap_on virt false s.0) s.1
              (l.unmap_log virt false s.0) runs ready.1 in
          inr ((out, d), rw (printed) refl, (ready', z), none_there, same)
    ];
  }

-- vmm.c, on the page tables below the PML4 in frame `root`
module _ (npf : ℕ → Line Message → ℤ × List ℕ) (build : Build) (pmm_file vmm_file : String)
    (size : IsFormatter npf) (h width root : ℕ) where
  abbrev pub olive_log : LoggedMapper npf build size (vmm_mapper h width root)
  olive_log = record {
    map_on = map_logged npf build pmm_file vmm_file (u64 (root + h));
    unmap_on = unmap_logged npf build pmm_file vmm_file (u64 (root + h));
    map_log = map-Logged npf build pmm_file vmm_file size (u64 (root + h));
    unmap_log = unmap-Logged npf build pmm_file vmm_file size (u64 (root + h));
  }

  abbrev pub printing_mapper : PageMapper
  printing_mapper = printing npf build size (vmm_mapper h width root) olive_log
