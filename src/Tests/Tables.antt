-- ===== src/Tests/Tables.antt =====
-- The page tables of olive/src/mm/vmm.c: an empty PML4 in frame 0x10000 and three free pages.
use fwp_athix.Prelude.{
  ◌+◌, ◌-◌, ◌/◌, inr, ℕ, ◌%◌, ◌<◌, ◌≡◌, refl, ap, ◌∙◌, true, false, [], ◌∷◌, arith,
}
use fwp_athix.Outcome.{Outcome, returned, halt}
use fwp_athix.Cpu.{Registers}
use fwp_athix.Lock.{spinlock_init}
use fwp_athix.Vmm.{Vmm, vmm_map, vmm_unmap, virt2phys}
use fwp_athix.Vmm.Entry.{frame_of, IsFrame}
use fwp_athix.Vmm.Tree.{Levels, at_level}
use fwp_athix.Vmm.Walk.{leaf, dest}
use fwp_athix.Vmm.Below.{Inv, after}
use fwp_athix.Vmm.Map.{indices, indices-AreIndices, Reached, pml4_to_pt-Reached}
use fwp_athix.Vmm.Translate.{translation, Mapped, vmm_map-Mapped}
use fwp_athix.Vmm.Changes.{unmapping, set_page, space_after, make_changes}
use fwp_athix.Vmm.Use.{virt2phys-changes}
use fwp_athix.Vmm.Mapper.{IsReady, vmm_mapper}
use fwp_athix.Vmm.Lookup.{phys_at, virt2phys_lem}
use fwp_athix.Vmm.Init.{Sections, KernelMap, map_all, vmm_init}
use fwp_athix.Vmm.Init.Ranges.{each_page, map_all-each_page, vmm_init-refused}
use fwp_athix.Vmm.Unmap.{Unmapped, vmm_unmap-Unmapped, vmm_unmap-halt, virt2phys-unmap}

abbrev root : ℕ
root = 0x10000

abbrev offset : ℕ
offset = 0xffff800000000000

abbrev virt : ℕ
virt = 0xffffffff80001234

abbrev empty : Vmm
empty = record {
  mem = λ a. 0;
  pmm = record {
    stack = 0x1000 ∷ 0x2000 ∷ 0x3000 ∷ [];
    stack_idx = 3;
    free_pages = 3;
    used_pages = 0;
    total_pages = 3;
  };
  hhdm_offset = offset;
  map_lock = spinlock_init;
  cr3 = root;
  flushes = 0;
  physical_address_width = 40;
  linear_address_width = 48;
}

abbrev levels : Levels
levels = at_level (λ q. 0) root 4

frame : (p : ℕ) → p % 4096 ≡ 0 → p < 0x100000 → IsFrame offset p
frame p aligned small = record { aligned = aligned; small = omega arith; mapped = omega arith }

empty-Inv : Inv levels empty
empty-Inv = record {
  tree = record {
    base = refl;
    table = λ t pos. record { aligned = ground arith; small = ground arith; mapped = ground arith };
    child = λ t i above lt on. cc on;
    unique = λ t i u j above above' lt lt' on on' e. cc on;
  };
  offset = omega arith;
  valid = record { counted = refl; room = omega arith; fits = omega arith; small = omega arith };
  distinct = ((omega arith, (omega arith, tt)), ((omega arith, tt), (tt, tt)));
  spare = (
    (frame 0x1000 refl (omega arith), refl, omega arith),
    (
      (frame 0x2000 refl (omega arith), refl, omega arith),
      ((frame 0x3000 refl (omega arith), refl, omega arith), tt),
    ),
  );
}

vmm_map-Mapped_example : Mapped empty root virt 0x5000 3
vmm_map-Mapped_example = vmm_map-Mapped root virt 0x5000 3 empty-Inv refl refl (omega arith)

no_entry : translation empty root virt ≡ 0
unfolding leaf
no_entry = refl

-- The tables for `virt` are there, and the page is not.
reached : Reached levels empty root virt
reached = pml4_to_pt-Reached root virt empty-Inv refl (omega arith)

abbrev walked : Vmm
walked = after empty reached.mem reached.pmm

top : reached.lvl' root ≡ 4
top = reached.grown.keeps root (omega arith)

empty-IsReady : IsReady offset 40 root empty 3
empty-IsReady = record {
  lvl = levels;
  inv = empty-Inv;
  top = refl;
  unlocked = refl;
  offset = refl;
  same_width = refl;
  spare = omega arith;
}

vmm_unmap-Unmapped_example : Unmapped reached.lvl' walked root virt
vmm_unmap-Unmapped_example =
    vmm_unmap-Unmapped root virt reached.pt reached.grown.inv top refl reached.ends

walked-translation : frame_of (translation walked root virt) ≡ 0
walked-translation =
    ap frame_of (reached.grown.walks (indices virt) root refl (indices-AreIndices virt) ∙ no_entry)

vmm_unmap-halt_example : vmm_unmap 0xffff800000010000 virt true walked ≡ halt
vmm_unmap-halt_example =
    vmm_unmap-halt root virt reached.pt reached.grown.inv top refl reached.ends walked-translation

virt2phys-unmap_example :
    (out : Vmm) × (vmm_unmap 0xffff800000010000 virt false walked ≡ returned (true, out))
    × (virt2phys 0xffff800000010000 virt out ≡ returned (0x234, out))
virt2phys-unmap_example =
    virt2phys-unmap root virt reached.pt reached.grown.inv top refl reached.ends 28 refl
      (omega arith)

virt2phys_example :
    virt2phys 0xffff800000010000 virt walked
    ≡ returned (
      phys_at
          (dest walked.mem offset root (indices virt))
          (leaf walked.mem offset root (indices virt))
          28
          virt,
      walked,
    )
virt2phys_example = virt2phys_lem root virt 28 reached.grown.inv top refl (omega arith)

-- A body that counts the rounds
abbrev count_round : ℕ → Vmm → Outcome Vmm
count_round off s = returned (record s { flushes = s.flushes + 1 })

map_all-each_page_example :
    map_all count_round 0x1000 0x3001 empty
    ≡ each_page count_round 0x1000 ((0x3001 - 0x1000 + 4095) / 4096) empty
map_all-each_page_example = map_all-each_page count_round 0x1000 0x3001 empty (omega arith)

abbrev bounds : Sections
bounds = record {
  text_start = 0;
  text_end = 0;
  rodata_start = 0;
  rodata_end = 0;
  data_start = 0;
  data_end = 0;
}

abbrev cpuid : ℕ → Registers
cpuid leaf = record { eax = 0x3028; ebx = 0; ecx = 0; edx = 0 }

abbrev exhausted : KernelMap
exhausted = record {
  vmm = record empty {
    pmm = record { stack = []; stack_idx = 0; free_pages = 0; used_pages = 0; total_pages = 0 };
  };
  kernel_pm = record { pml4 = 0 };
}

vmm_init-refused_example :
    (t : KernelMap) × (vmm_init bounds cpuid [] 1 2 exhausted ≡ returned (1, t))
    × (t.vmm.mem ≡ exhausted.vmm.mem)
    × (t.vmm.pmm ≡ exhausted.vmm.pmm)
    × (t.vmm.cr3 ≡ exhausted.vmm.cr3)
vmm_init-refused_example = vmm_init-refused bounds cpuid [] 1 2 exhausted (inr (inr refl))

-- A page that was never mapped is removed, and another is mapped to 0x5000.
virt2phys-changes_example :
    (t u : Vmm) × (make_changes (vmm_mapper offset 40 root) (unmapping 0x9000 ∷ []) empty
      ≡ returned t)
    × (vmm_map 0xffff800000010000 virt 0x5000 3 t ≡ returned u)
    × (virt2phys 0xffff800000010000 virt u ≡ returned (0x5234, u))
    × ((w : ℕ)
        → translation u root w
          ≡ set_page virt 0x5003 (space_after (unmapping 0x9000 ∷ []) (translation empty root)) w)
virt2phys-changes_example =
    virt2phys-changes (unmapping 0x9000 ∷ []) virt 0x5000 3 empty-IsReady (record {
      frame_bits = 28;
      of_width = refl;
      fits = omega arith;
      aligned = refl;
      small = omega arith;
      clear = refl;
    })
