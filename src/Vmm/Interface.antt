-- ===== src/Vmm/Interface.antt =====
-- olive/include/mm/vmm.h as its callers see it: a page mapper, what it promises of an address
-- space, and what a series of mappings then does.
use fwp_athix.Prelude.{
  ℕ, ◌+◌, ◌%◌, ◌≡◌, ◌≢◌, ◌⊎◌, refl, sym, ap, subst, ◌∙◌, inl, inr, arith, Bool-cases, Bool, true,
  false, List, [], ◌∷◌, ◌++◌, bit_or, ◌==◌, ==→eq, if◌then◌else◌,
}
use fwp_athix.Outcome.{Outcome, returned, ◌>>=◌}
use fwp_athix.Vmm.Translate.{page_number}
use fwp_athix.Vmm.Again.{region}

-- A call of `vmm_map`: the virtual address, the physical address and the flags.
pub record Request : Type 0 where
  pub virt : ℕ
  pub phys : ℕ
  pub flags : ℕ

-- The functions of one page map. `Ready s n` says that `s` is well-formed with `n` pages to spare, `HasTable s v` that it has a
-- page table for the address `v`, `IsActive s` that the processor uses the page map, and
-- `Storable phys flags` that an entry can hold the address and the flags. A mapping may take three
-- pages; in the region of a page that has its table it takes none.
pub record PageMapper : Type 1 where
  pub State : Type 0
  pub Ready : State → ℕ → Type 0
  pub HasTable : State → ℕ → Type 0
  pub IsActive : State → Type 0
  pub Storable : ℕ → ℕ → Type 0
  pub translation : State → ℕ → ℕ
  pub vmm_set_pm : State → State
  pub vmm_map : ℕ → ℕ → ℕ → State → Outcome State
  pub vmm_unmap : ℕ → Bool → State → Outcome (Bool × State)
  pub virt2phys : ℕ → State → Outcome (ℕ × State)
  pub switches :
      (s : State) (n : ℕ)
      → Ready s n
      → IsActive (vmm_set_pm s)
        × Ready (vmm_set_pm s) n
        × ((w : ℕ) → translation (vmm_set_pm s) w ≡ translation s w)
  pub fetches :
      (s : State) (n virt phys flags : ℕ)
      → Ready s n
      → HasTable s virt
      → Storable phys flags
      → translation s virt ≡ bit_or phys flags
      → virt2phys virt s ≡ returned (phys + virt % 4096, s)
  pub one_page :
      (s : State) (v w : ℕ) → page_number v ≡ page_number w → translation s v ≡ translation s w
  pub maps :
      (s : State) (n virt phys flags : ℕ)
      → Ready s (3 + n)
      → (out : State) × (vmm_map virt phys flags s ≡ returned out)
        × Ready out n
        × HasTable out virt
        × (translation out virt ≡ bit_or phys flags)
        × ((w : ℕ) → page_number w ≢ page_number virt → translation out w ≡ translation s w)
  pub again :
      (s : State) (n v virt phys flags : ℕ)
      → Ready s n
      → HasTable s v
      → region v ≡ region virt
      → (out : State) × (vmm_map virt phys flags s ≡ returned out)
        × Ready out n
        × HasTable out virt
        × (translation out virt ≡ bit_or phys flags)
        × ((w : ℕ) → page_number w ≢ page_number virt → translation out w ≡ translation s w)
  pub unmaps :
      (s : State) (n virt : ℕ)
      → Ready s n
      → HasTable s virt
      → (out : State) × (vmm_unmap virt false s ≡ returned (true, out))
        × Ready out n
        × HasTable out virt
        × (translation out virt ≡ 0)
        × ((w : ℕ) → page_number w ≢ page_number virt → translation out w ≡ translation s w)
  pub misses :
      (s : State) (n virt : ℕ)
      → Ready s n
      → (HasTable s virt)
        ⊎ ((out : State) × (vmm_unmap virt false s ≡ returned (false, out))
            × Ready out n
            × (translation s virt ≡ 0)
            × ((w : ℕ) → translation out w ≡ translation s w))

-- The pages that a series of calls may take, once there is a table for region `g`: three for each
-- call that changes the region.
abbrev pub cost_from : ℕ → List Request → ℕ
cost_from g [] = 0
cost_from g (r ∷ rs) = (if region r.virt == g then 0 else 3) + cost_from (region r.virt) rs

-- And without such a table.
abbrev pub cost : List Request → ℕ
cost [] = 0
cost (r ∷ rs) = 3 + cost_from (region r.virt) rs

-- The abstract address space after a series of calls: for each address the last call for its page
-- counts, and an address without a call has what it had before.
abbrev pub assign : List Request → (ℕ → ℕ) → ℕ → ℕ
assign [] old w = old w
assign (r ∷ rs) old w =
    assign rs (λ v. if page_number v == page_number r.virt then bit_or r.phys r.flags else old v) w

pub assign-append :
    (rs qs : List Request) (old : ℕ → ℕ) (w : ℕ)
    → assign (rs ++ qs) old w ≡ assign qs (assign rs old) w
assign-append [] qs old w = refl
assign-append (r ∷ rs) qs old w = assign-append rs qs _ w

pub assign-cong :
    (rs : List Request) (f g : ℕ → ℕ) (w : ℕ)
    → ((v : ℕ) → f v ≡ g v)
    → assign rs f w ≡ assign rs g w
assign-cong [] f g w e = e w
assign-cong (r ∷ rs) f g w e =
    assign-cong rs _ _ w (λ v.
      ap (λ x. if page_number v == page_number r.virt then bit_or r.phys r.flags else x) (e v))

module _ (m : PageMapper) where
  -- The outcome `o`, of calls made in state `s`, is a state whose address space has exactly the
  -- requests `rs` added, with `n` pages to spare.
  pub record Adds (rs : List Request) (n : ℕ) (s : m.State) (o : Outcome (m.State)) : Type 0 where
    pub out : m.State
    pub runs : o ≡ returned out
    pub ready : m.Ready out n
    pub space : (w : ℕ) → m.translation out w ≡ assign rs (m.translation s) w

  pub Adds-nil : (n : ℕ) (s : m.State) → m.Ready s n → Adds [] n s (returned s)
  Adds-nil n s ready = record { out = s; runs = refl; ready = ready; space = λ w. refl }

  -- One call that has returned.
  pub record Called (r : Request) (n : ℕ) (s : m.State) : Type 0 where
    pub out : m.State
    pub runs : m.vmm_map (r.virt) (r.phys) (r.flags) s ≡ returned out
    pub ready : m.Ready out n
    pub has : m.HasTable out (r.virt)
    pub here : m.translation out (r.virt) ≡ bit_or (r.phys) (r.flags)
    pub elsewhere :
        (w : ℕ) → page_number w ≢ page_number (r.virt) → m.translation out w ≡ m.translation s w

  pub first-Called : (r : Request) (n : ℕ) (s : m.State) → m.Ready s (3 + n) → Called r n s
  first-Called r n s ready =
      let (out, runs, ready', has, here, elsewhere) =
        m.maps s n (r.virt) (r.phys) (r.flags) ready in
      record {
        out = out;
        runs = runs;
        ready = ready';
        has = has;
        here = here;
        elsewhere = elsewhere;
      }

  -- After a call in region `g`.
  pub next-Called :
      (r : Request) (n v : ℕ) (s : m.State)
      → m.HasTable s v
      → m.Ready s ((if region r.virt == region v then 0 else 3) + n)
      → Called r n s
  next-Called r n v s has ready = elim (Bool-cases (region r.virt == region v)) [
    | inl same ↦
        let (out, runs, ready', has', here, elsewhere) =
          m.again s n v (r.virt) (r.phys) (r.flags)
            (subst (m.Ready s)
              (let none_taken : (if region r.virt == region v then 0 else 3) + n ≡ n =
                  ground (arith, same) in
                none_taken)
              ready)
            has (sym (==→eq (region (r.virt)) (region v) same)) in
        record {
          out = out;
          runs = runs;
          ready = ready';
          has = has';
          here = here;
          elsewhere = elsewhere;
        }
    | inr other ↦ first-Called r n s (rw (other) at ready)
  ]

  Called-space :
      {r : Request} {n : ℕ} {s : m.State} (c : Called r n s) (w : ℕ)
      → m.translation c.out w ≡ assign (r ∷ []) (m.translation s) w
  Called-space {r} c w = elim (Bool-cases (page_number w == page_number r.virt)) [
    | inl on ↦ rw (on) (m.one_page (c.out) w (r.virt) (==→eq _ _ on) ∙ c.here)
    | inr off ↦ rw (off) (c.elsewhere w (λ e. ground (arith, e, off)))
  ]

  -- A call, then others.
  pub Adds-cons :
      {r : Request} {n : ℕ} {s : m.State} (c : Called r n s) (qs : List Request) (k : ℕ)
      (o : Outcome (m.State)) (f : m.State → Outcome (m.State))
      → o ≡ m.vmm_map (r.virt) (r.phys) (r.flags) s
      → Adds qs k (c.out) (f (c.out))
      → Adds (r ∷ qs) k s (o >>= f)
  Adds-cons {r} {s} c qs k o f e rest = record {
    out = rest.out;
    runs = ap (λ x. x >>= f) (e ∙ c.runs) ∙ rest.runs;
    ready = rest.ready;
    space = λ w. rest.space w ∙ assign-cong qs _ _ w (Called-space c);
  }

  -- The address space of `t` when one series of calls follows another.
  pub space-append :
      {rs : List Request} {n : ℕ} {s : m.State} {o : Outcome (m.State)} (first : Adds rs n s o)
      (qs : List Request) (t : m.State)
      → ((w : ℕ) → m.translation t w ≡ assign qs (m.translation first.out) w)
      → (w : ℕ) → m.translation t w ≡ assign (rs ++ qs) (m.translation s) w
  space-append {rs} {s} first qs t second w =
      second w ∙ assign-cong qs _ _ w (first.space) ∙ sym (assign-append rs qs (m.translation s) w)

  pub Adds-bind :
      (rs qs : List Request) (n k : ℕ) (s : m.State) (o : Outcome (m.State))
      (f : m.State → Outcome (m.State))
      → Adds rs n s o
      → ((t : m.State) → m.Ready t n → Adds qs k t (f t))
      → Adds (rs ++ qs) k s (o >>= f)
  Adds-bind rs qs n k s o f first rest =
      let second = rest (first.out) (first.ready) in
      record {
        out = second.out;
        runs = ap (λ x. x >>= f) (first.runs) ∙ second.runs;
        ready = second.ready;
        space = space-append first qs (second.out) (second.space);
      }

  -- A page that had no translation is mapped and then unmapped: both calls return, the processor
  -- finds for every address what it found before, and the page's table stays, so that the next
  -- mapping of the page takes no page.
  vmm_unmap-map :
      (s : m.State) (n virt phys flags : ℕ)
      → m.Ready s (3 + n)
      → m.translation s virt ≡ 0
      → (out : m.State) × ((m.vmm_map virt phys flags s >>= m.vmm_unmap virt false)
          ≡ returned (true, out))
        × m.Ready out n
        × m.HasTable out virt
        × ((w : ℕ) → m.translation out w ≡ m.translation s w)
  vmm_unmap-map s n virt phys flags ready none_there =
      let (t, runs, ready', has, _, elsewhere) = m.maps s n virt phys flags ready in
      let (out, runs', ready2, has', here', elsewhere') = m.unmaps t n virt ready' has in
      (
        out,
        ap (λ o. o >>= m.vmm_unmap virt false) runs ∙ runs',
        ready2,
        has',
        λ w. elim (Bool-cases (page_number w == page_number virt)) [
          | inl on ↦
              let same = ==→eq (page_number w) (page_number virt) on in
              m.one_page out w virt same ∙ here' ∙ sym none_there ∙ sym (m.one_page s w virt same)
          | inr off ↦
              let ne : page_number w ≢ page_number virt = λ e. ground (arith, e, off) in
              elsewhere' w ne ∙ elsewhere w ne
        ],
      )
