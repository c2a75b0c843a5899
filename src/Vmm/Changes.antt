-- ===== src/Vmm/Changes.antt =====
-- Any series of calls of `vmm_map` and `vmm_unmap`, in any order, through the interface of
-- olive/include/mm/vmm.h, against updates of a function from addresses to entries.
use fwp_athix.Prelude.{
  ℕ, ◌+◌, ◌≡◌, ◌≢◌, refl, subst, ap, ◌∙◌, inl, inr, arith, Bool-cases, false, List, [], ◌∷◌, bit_or,
  ◌==◌, ==→eq, if◌then◌else◌,
}
use fwp_athix.Outcome.{Outcome, returned, ◌>>=◌}
use fwp_athix.Vmm.Translate.{page_number}
use fwp_athix.Vmm.Interface.{PageMapper}

-- A call of `vmm_map` with the virtual address, the physical address and the flags, or of
-- `vmm_unmap` with the virtual address and no `free_phys`.
pub data Change : Type 0 where
  mapping : ℕ → ℕ → ℕ → Change
  unmapping : ℕ → Change

-- The page of `virt` gets the entry `e`.
abbrev pub set_page : ℕ → ℕ → (ℕ → ℕ) → ℕ → ℕ
set_page virt e space w = if page_number w == page_number virt then e else space w

abbrev pub apply_change : Change → (ℕ → ℕ) → ℕ → ℕ
apply_change (mapping virt phys flags) space = set_page virt (bit_or phys flags) space
apply_change (unmapping virt) space = set_page virt 0 space

-- The abstract address space after the calls.
abbrev pub space_after : List Change → (ℕ → ℕ) → ℕ → ℕ
space_after [] space = space
space_after (c ∷ cs) space = space_after cs (apply_change c space)

-- The pages that the calls may take for tables.
abbrev pub pages_of_change : Change → ℕ
pages_of_change (mapping virt phys flags) = 3
pages_of_change (unmapping virt) = 0

abbrev pub pages_for : List Change → ℕ
pages_for [] = 0
pages_for (c ∷ cs) = pages_of_change c + pages_for cs

pub apply_change-cong :
    (c : Change) (f g : ℕ → ℕ) (w : ℕ)
    → ((v : ℕ) → f v ≡ g v)
    → apply_change c f w ≡ apply_change c g w
apply_change-cong (mapping virt phys flags) f g w e =
    ap (λ x. if page_number w == page_number virt then bit_or phys flags else x) (e w)
apply_change-cong (unmapping virt) f g w e =
    ap (λ x. if page_number w == page_number virt then 0 else x) (e w)

space_after-cong :
    (cs : List Change) (f g : ℕ → ℕ) (w : ℕ)
    → ((v : ℕ) → f v ≡ g v)
    → space_after cs f w ≡ space_after cs g w
space_after-cong [] f g w e = e w
space_after-cong (c ∷ cs) f g w e = space_after-cong cs _ _ w (λ v. apply_change-cong c f g v e)

module _ (m : PageMapper) where
  unfoldable pub make_change : Change → m.State → Outcome (m.State)
  make_change (mapping virt phys flags) s = m.vmm_map virt phys flags s
  make_change (unmapping virt) s = do (found, t) ← m.vmm_unmap virt false s; returned t

  unfoldable pub make_changes : List Change → m.State → Outcome (m.State)
  unfolding make_change
  make_changes [] s = returned s
  make_changes (c ∷ cs) s = do t ← make_change c s; make_changes cs t

  -- The entry at one page and all others give the updated space.
  pub set_page-translation :
      (s t : m.State) (virt e w : ℕ)
      → m.translation t virt ≡ e
      → ((v : ℕ) → page_number v ≢ page_number virt → m.translation t v ≡ m.translation s v)
      → m.translation t w ≡ set_page virt e (m.translation s) w
  set_page-translation s t virt e w here elsewhere =
      elim (Bool-cases (page_number w == page_number virt)) [
        | inl on ↦
            rw (on) (m.one_page t w virt (==→eq (page_number w) (page_number virt) on) ∙ here)
        | inr off ↦ rw (off) (elsewhere w (λ q. ground (arith, q, off)))
      ]

  -- What one call does.
  record Made (c : Change) (n : ℕ) (s : m.State) : Type 0 where
    pub out : m.State
    pub runs : make_change c s ≡ returned out
    pub ready : m.Ready out n
    pub space : (w : ℕ) → m.translation out w ≡ apply_change c (m.translation s) w

  make_change-Made :
      (c : Change) (n : ℕ) (s : m.State) → m.Ready s (pages_of_change c + n) → Made c n s
  unfolding make_change
  make_change-Made (mapping virt phys flags) n s ready =
      let (out, runs, ready', _, here, elsewhere) = m.maps s n virt phys flags ready in
      record {
        out = out;
        runs = runs;
        ready = ready';
        space = λ w. set_page-translation s out virt (bit_or phys flags) w here elsewhere;
      }
  make_change-Made (unmapping virt) n s ready =
      let ready_now : m.Ready s n = subst (m.Ready s) (omega arith) ready in
      elim (m.misses s n virt ready_now) [
        | inl has ↦
            let (out, runs, ready', _, here, elsewhere) = m.unmaps s n virt ready_now has in
            record {
              out = out;
              runs = ap (λ o. o >>= (λ r. returned r.1)) runs;
              ready = ready';
              space = λ w. set_page-translation s out virt 0 w here elsewhere;
            }
        | inr (out, runs, ready', none_there, same) ↦ record {
          out = out;
          runs = ap (λ o. o >>= (λ r. returned r.1)) runs;
          ready = ready';
          space =
              λ w. set_page-translation s out virt 0 w (same virt ∙ none_there) (λ v ne. same v);
        }
      ]

  -- With three pages to spare for each `vmm_map` among them and `n` others, any series of calls of
  -- `vmm_map` and `vmm_unmap` without `free_phys` returns, on any page mapper that keeps the promises
  -- of the interface, and `n` pages are left; the processor then finds what the calls say when each
  -- replaces the entry of its page.
  pub make_changes-refines :
      (cs : List Change) (n : ℕ) (s : m.State)
      → m.Ready s (pages_for cs + n)
      → (out : m.State) × (make_changes cs s ≡ returned out)
        × m.Ready out n
        × ((w : ℕ) → m.translation out w ≡ space_after cs (m.translation s) w)
  unfolding make_changes
  make_changes-refines [] n s ready = (
    s,
    refl,
    subst (m.Ready s) (let none_taken : 0 + n ≡ n = omega arith in none_taken) ready,
    λ w. refl,
  )
  make_changes-refines (c ∷ cs) n s ready =
      let split : pages_of_change c + pages_for cs + n ≡ pages_of_change c + (pages_for cs + n) =
        omega arith in
      let one = make_change-Made c (pages_for cs + n) s (subst (m.Ready s) split ready) in
      let (out, runs, ready', space) = make_changes-refines cs n (one.out) (one.ready) in
      (
        out,
        ap (λ o. o >>= make_changes cs) (one.runs) ∙ runs,
        ready',
        λ w. space w ∙ space_after-cong cs _ _ w (one.space),
      )
