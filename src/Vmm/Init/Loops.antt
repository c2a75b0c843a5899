-- ===== src/Vmm/Init/Loops.antt =====
-- The loops of `vmm_init` of olive/src/mm/vmm.c, one after the other.
use fwp_athix.Prelude.{ℕ, ◌+◌, ◌^◌, ◌≤◌, ◌≡◌, ap, ◌∙◌, arith, List, ◌++◌, All, u64, bit_or}
use fwp_athix.Outcome.{Outcome, returned, ◌>>=◌}
use fwp_athix.Macros.{align_up, Entry}
use fwp_athix.Vmm.{Vmm}
use fwp_athix.Vmm.Pte
use fwp_athix.Vmm.Translate.{translation}
use fwp_athix.Vmm.Interface.{Request, cost, assign, space-append}
use fwp_athix.Vmm.Mapper.{IsReady, IsReady-fewer, vmm_mapper}
use fwp_athix.Vmm.Init.{Sections, KernelMap, map_entries, map_section}
use fwp_athix.Vmm.Init.Plan.{
  IsBounded, memory_plan, memory_cost, section_plan, map_entries-Built, map_section-Built,
}

-- The three sections of the kernel.
abbrev pub kernel_plan : Sections → ℕ → ℕ → List Request
kernel_plan b kernel_virt kernel_phys =
    section_plan kernel_virt kernel_phys Pte.present b.text_start b.text_end
    ++ (section_plan kernel_virt kernel_phys (bit_or Pte.present Pte.execute_disable) b.rodata_start
          b.rodata_end
        ++ section_plan kernel_virt kernel_phys
            (bit_or (bit_or Pte.present Pte.read_write) Pte.execute_disable) b.data_start
            b.data_end)

-- All that `vmm_init` maps, in order.
abbrev pub init_plan : ℕ → List Entry → Sections → ℕ → ℕ → List Request
init_plan h es b kernel_virt kernel_phys = memory_plan h es ++ kernel_plan b kernel_virt kernel_phys

-- The pages that this may take for tables.
abbrev pub init_cost : ℕ → List Entry → Sections → ℕ → ℕ → ℕ
init_cost h es b kernel_virt kernel_phys =
    memory_cost h es
    + (cost (section_plan kernel_virt kernel_phys Pte.present b.text_start b.text_end)
        + (cost (
              section_plan kernel_virt kernel_phys (bit_or Pte.present Pte.execute_disable)
                b.rodata_start b.rodata_end)
            + cost (
                section_plan kernel_virt kernel_phys
                  (bit_or (bit_or Pte.present Pte.read_write) Pte.execute_disable) b.data_start
                  b.data_end)))

pub record AreBounded (b : Sections) : Type 0 where
  pub text : align_up b.text_end + 4096 ≤ 2 ^ 64
  pub rodata : align_up b.rodata_end + 4096 ≤ 2 ^ 64
  pub data' : align_up b.data_end + 4096 ≤ 2 ^ 64

-- Four calls that return, and what follows them.
pub chain :
    (m1 : Outcome Vmm) (m2 m3 m4 : Vmm → Outcome Vmm) (a b c d : Vmm)
    → m1 ≡ returned a
    → m2 a ≡ returned b
    → m3 b ≡ returned c
    → m4 c ≡ returned d
    → (g : Vmm → Outcome (ℕ × KernelMap))
    → (m1 >>= (λ s2. m2 s2 >>= (λ s3. m3 s3 >>= (λ s4. m4 s4 >>= g)))) ≡ g d
chain m1 m2 m3 m4 a b c d e1 e2 e3 e4 g =
    ap (λ o. o >>= (λ s2. m2 s2 >>= (λ s3. m3 s3 >>= (λ s4. m4 s4 >>= g)))) e1
    ∙ ap (λ o. o >>= (λ s3. m3 s3 >>= (λ s4. m4 s4 >>= g))) e2
    ∙ ap (λ o. o >>= (λ s4. m4 s4 >>= g)) e3
    ∙ ap (λ o. o >>= g) e4

-- The loops of `vmm_init`, one after the other, and what they leave.
pub record Looped (b : Sections) (h width root : ℕ) (es : List Entry) (kernel_virt kernel_phys : ℕ)
    (s : Vmm) (n : ℕ) : Type 0 where
  pub out : Vmm
  pub runs :
      (g : Vmm → Outcome (ℕ × KernelMap))
      → (map_entries (u64 (root + h)) es s >>= (λ s2.
          map_section
            (u64 (root + h))
            kernel_virt
            kernel_phys
            Pte.present
            b.text_start
            b.text_end
            s2
          >>= (λ s3.
              map_section
                (u64 (root + h))
                kernel_virt
                kernel_phys
                (bit_or Pte.present Pte.execute_disable)
                b.rodata_start
                b.rodata_end
                s3
              >>= (λ s4.
                  map_section
                    (u64 (root + h))
                    kernel_virt
                    kernel_phys
                    (bit_or (bit_or Pte.present Pte.read_write) Pte.execute_disable)
                    b.data_start
                    b.data_end
                    s4
                  >>= g))))
        ≡ g out
  pub ready : IsReady h width root out n
  pub space :
      (w : ℕ)
      → translation out root w
        ≡ assign (init_plan h es b kernel_virt kernel_phys) (translation s root) w

pub loops-Looped :
    (b : Sections) (h width root : ℕ) (es : List Entry) (kernel_virt kernel_phys : ℕ) (s : Vmm)
    (n : ℕ)
    → All IsBounded es
    → AreBounded b
    → IsReady h width root s (init_cost h es b kernel_virt kernel_phys + n)
    → Looped b h width root es kernel_virt kernel_phys s n
loops-Looped b h width root es kernel_virt kernel_phys s n bounded ends ready =
    let memory = memory_plan h es in
    let text = section_plan kernel_virt kernel_phys Pte.present b.text_start b.text_end in
    let rodata =
      section_plan kernel_virt kernel_phys (bit_or Pte.present Pte.execute_disable) b.rodata_start
        b.rodata_end in
    let data' =
      section_plan kernel_virt kernel_phys
        (bit_or (bit_or Pte.present Pte.read_write) Pte.execute_disable) b.data_start b.data_end in
    let b1 =
      map_entries-Built h width root es (cost text + (cost rodata + (cost data' + n))) s bounded
        (IsReady-fewer _ _ (omega arith) ready) in
    let b2 =
      map_section-Built h width root kernel_virt kernel_phys Pte.present b.text_start b.text_end
        (cost rodata + (cost data' + n)) (b1.out) (ends.text) (b1.ready) in
    let b3 =
      map_section-Built h width root kernel_virt kernel_phys
        (bit_or Pte.present Pte.execute_disable) b.rodata_start b.rodata_end (cost data' + n)
        (b2.out) (ends.rodata) (b2.ready) in
    let b4 =
      map_section-Built h width root kernel_virt kernel_phys
        (bit_or (bit_or Pte.present Pte.read_write) Pte.execute_disable) b.data_start b.data_end n
        (b3.out) (ends.data') (b3.ready) in
    let m = vmm_mapper h width root in
    record {
      out = b4.out;
      runs =
          chain (map_entries (u64 (root + h)) es s)
            (map_section (u64 (root + h)) kernel_virt kernel_phys Pte.present b.text_start
              b.text_end)
            (map_section (u64 (root + h)) kernel_virt kernel_phys
              (bit_or Pte.present Pte.execute_disable) b.rodata_start b.rodata_end)
            (map_section (u64 (root + h)) kernel_virt kernel_phys
              (bit_or (bit_or Pte.present Pte.read_write) Pte.execute_disable) b.data_start
              b.data_end)
            (b1.out) (b2.out) (b3.out) (b4.out) (b1.runs) (b2.runs) (b3.runs) (b4.runs);
      ready = b4.ready;
      space = space-append m b1 (text ++ (rodata ++ data')) (b4.out) (
          space-append m b2 (rodata ++ data') (b4.out)
            (space-append m b3 data' (b4.out) (b4.space)));
    }
