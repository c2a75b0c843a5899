-- ===== src/Vmm/Init/Interface.antt =====
-- `_kernel_pm` and `vmm_init` of olive/include/mm/vmm.h as the kernel sees them, with
-- olive/src/mm/vmm.c with its log as the implementation, and any use of the page map afterwards.
use Prim.Native.String.{String}
use fwp_athix.Prelude.{
  ℕ, ℤ, ◌+◌, ◌≤◌, ◌≡◌, ◌≢◌, ◌⊎◌, refl, sym, ap, ◌∙◌, inl, inr, arith, List, All, length, sub64,
}
use fwp_athix.Outcome.{Outcome, returned, ◌>>=◌}
use fwp_athix.Console.{Console}
use fwp_athix.Console.Output.{IsFormatter}
use fwp_athix.Console.Output as Output
use fwp_athix.Log.{Build, Line}
use fwp_athix.Log.Quiet.{Logged-IsReady}
use fwp_athix.Log.Message.{Message}
use fwp_athix.Vmm.Printing.{printing_mapper}
use fwp_athix.Vmm.Init.Logged.{vmm_init_logged}
use fwp_athix.Vmm.Init.Quiet.{vmm_init-Logged}
use fwp_athix.Macros.{Entry}
use fwp_athix.Cpu.{Registers}
use fwp_athix.Vmm.{Pagemap}
use fwp_athix.Vmm.Translate.{translation}
use fwp_athix.Vmm.Interface.{PageMapper, Request, assign}
use fwp_athix.Vmm.Mapper.{IsReady}
use fwp_athix.Vmm.Init.{Sections, KernelMap, vmm_init}
use fwp_athix.Vmm.Init.Plan.{IsBounded}
use fwp_athix.Vmm.Init.Fresh.{IsFresh}
use fwp_athix.Vmm.Init.Loops.{AreBounded, init_plan, init_cost}
use fwp_athix.Vmm.Init.Total.{IsBuilt, vmm_init-IsBuilt}

-- `IsSound s` says that the functions can work in the state `s`, and `memory s` is what the memory
-- holds. `mapper s` has the functions on `_kernel_pm`, which work on `tables s`. `CanStart s virt phys rs n`
-- says that `vmm_init(virt, phys)` can map the requests `rs` and leave `n` pages.
pub record VirtualMemory : Type 1 where
  pub State : Type 0
  pub IsSound : State → Type 0
  pub memory : State → ℕ → ℕ
  pub kernel_pm : State → Pagemap
  pub mapper : State → PageMapper
  pub tables : (s : State) → (mapper s).State
  pub CanStart : State → ℕ → ℕ → List Request → ℕ → Type 0
  pub vmm_init : ℕ → ℕ → State → Outcome (ℕ × State)
  pub builds :
      (s : State) (virt phys n : ℕ) (rs : List Request)
      → CanStart s virt phys rs n
      → (t : State) × (vmm_init virt phys s ≡ returned (0, t))
        × (mapper t).Ready (tables t) n
        × (mapper t).IsActive (tables t)
        × ((w : ℕ) → (mapper t).translation (tables t) w ≡ assign rs (λ v. 0) w)
  pub refuses :
      (s : State) (virt phys : ℕ)
      → IsSound s
      → (virt ≡ 0) ⊎ (phys ≡ 0)
      → (t : State) × (vmm_init virt phys s ≡ returned (1, t))
        × IsSound t
        × (memory t ≡ memory s)
        × (kernel_pm t ≡ kernel_pm s)

-- The frame of the PML4 of `_kernel_pm`.
abbrev pub root_of : KernelMap → ℕ
root_of k = sub64 k.kernel_pm.pml4 k.vmm.hhdm_offset

module _ (b : Sections) (cpuid : ℕ → Registers) (es : List Entry) where
  pub record Startable (k : KernelMap) (virt phys : ℕ) (rs : List Request) (n : ℕ) : Type 0 where
    pub root : ℕ
    pub xs : List ℕ
    pub fresh : IsFresh k.vmm xs root
    pub virt_given : virt ≢ 0
    pub phys_given : phys ≢ 0
    pub bounded : All IsBounded es
    pub ends : AreBounded b
    pub enough : init_cost k.vmm.hhdm_offset es b virt phys + n ≤ length xs
    pub plan : init_plan k.vmm.hhdm_offset es b virt phys ≡ rs

  built-root :
      (virt phys root n : ℕ) (k : KernelMap) (built : IsBuilt b cpuid es virt phys root k n)
      → root_of built.out ≡ root
  built-root virt phys root n k built =
      let frame = built.ready.inv.tree.table root (omega (arith, built.ready.top)) in
      omega (arith, built.kernel_pm, built.ready.offset, frame.mapped)

  pub init-builds :
      (k : KernelMap) (virt phys n : ℕ) (rs : List Request)
      → Startable k virt phys rs n
      → (t : KernelMap) × (vmm_init b cpuid es virt phys k ≡ returned (0, t))
        × IsReady t.vmm.hhdm_offset t.vmm.physical_address_width (root_of t) t.vmm n
        × (t.vmm.cr3 ≡ root_of t)
        × ((w : ℕ) → translation t.vmm (root_of t) w ≡ assign rs (λ v. 0) w)
  init-builds k virt phys n rs start =
      let built =
        vmm_init-IsBuilt b cpuid es virt phys start.root k start.xs n start.fresh start.virt_given
          start.phys_given start.bounded start.ends start.enough in
      let same = built-root virt phys start.root n k built in
      (
        built.out,
        built.runs,
        record {
          lvl = built.ready.lvl;
          inv = built.ready.inv;
          top = ap built.ready.lvl same ∙ built.ready.top;
          unlocked = built.ready.unlocked;
          offset = refl;
          same_width = refl;
          spare = built.ready.spare;
        },
        built.cr3 ∙ sym same,
        λ w.
            ap (λ r. translation built.out.vmm r w) same
            ∙ built.space w
            ∙ ap (λ qs. assign qs (λ v. 0) w) start.plan,
      )

  pub init-refuses :
      (k : KernelMap) (virt phys : ℕ)
      → (virt ≡ 0) ⊎ (phys ≡ 0)
      → vmm_init b cpuid es virt phys k ≡ returned (1, k)
  unfolding vmm_init
  init-refuses k virt phys (inl e) = rw (e) refl
  init-refuses k virt phys (inr e) = ground (arith, e)

module _ (npf : ℕ → Line Message → ℤ × List ℕ) (build : Build) (pmm_file vmm_file : String)
    (size : IsFormatter npf) (b : Sections) (cpuid : ℕ → Registers) (es : List Entry) where
  -- With the log, on a console that can print
  pub init-printed :
      (virt phys : ℕ) {r : ℕ × KernelMap} (k : KernelMap) (c : Console)
      → Output.IsReady c
      → vmm_init b cpuid es virt phys k ≡ returned r
      → (d : Console) × (vmm_init_logged npf build pmm_file vmm_file b cpuid es virt phys k c
          ≡ returned (r, d))
        × Output.IsReady d
  init-printed virt phys k c z runs =
      Logged-IsReady npf build size
        (vmm_init_logged npf build pmm_file vmm_file b cpuid es virt phys k) c
        (vmm_init-Logged npf build pmm_file vmm_file size b cpuid es virt phys k) runs z

  abbrev pub olive_vmm : VirtualMemory
  olive_vmm = record {
    State = KernelMap × Console;
    IsSound = λ s. Output.IsReady s.1;
    memory = λ s. s.0.vmm.mem;
    kernel_pm = λ s. s.0.kernel_pm;
    mapper = λ s.
        printing_mapper npf build pmm_file vmm_file size s.0.vmm.hhdm_offset
          s.0.vmm.physical_address_width (root_of s.0);
    tables = λ s. (s.0.vmm, s.1);
    CanStart = λ s virt phys rs n. Startable b cpuid es s.0 virt phys rs n × Output.IsReady s.1;
    vmm_init = λ virt phys s.
        vmm_init_logged npf build pmm_file vmm_file b cpuid es virt phys s.0 s.1
        >>= (λ r. returned (r.0.0, (r.0.1, r.1)));
    builds = λ s virt phys n rs start.
        let (t, runs, ready, active, built) = init-builds b cpuid es s.0 virt phys n rs start.0 in
        let (d, printed, z) = init-printed virt phys s.0 s.1 start.1 runs in
        ((t, d), rw (printed) refl, (ready, z), active, built);
    refuses = λ s virt phys sound why.
        let (d, printed, z) =
          init-printed virt phys s.0 s.1 sound (init-refuses b cpuid es s.0 virt phys why) in
        ((s.0, d), rw (printed) refl, z, refl, refl);
  }
