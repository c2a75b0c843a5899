-- ===== src/Pmm/Init/Load.antt =====
-- The third loop of `pmm_init` in olive/src/mm/pmm.c pushes exactly the usable pages, in order.
use mathlib.Core.List.{append_assoc, append-nil}
use fwp_athix.Prelude.{
  ℕ, zero, suc, ◌+◌, ◌*◌, ◌/◌, ◌%◌, ◌^◌, ◌<◌, ◌≤◌, ◌≡◌, refl, sym, ap, ◌∙◌, true, inl, inr,
  Bool-cases, List, [], ◌∷◌, ◌++◌, arith, u64, if◌then◌else◌, length, length-append, length-set,
  All,
}
use fwp_athix.Macros.{page_size, Entry, is_usable}
use fwp_athix.Pmm.{Pmm, live}
use fwp_athix.Pmm.Spec.{run, length-run}
use fwp_athix.Pmm.Refine.{pushed, live-pushed}
use fwp_athix.Pmm.Init.{Loaded, loaded, push_entry, push_entries, enough, then_load}

-- The pages of one entry, and of a memory map.
abbrev pub entry_pages : Entry → List ℕ
entry_pages e = run e.base 0 (e.size / page_size)

abbrev pub usable_pages : List Entry → List ℕ
usable_pages [] = []
usable_pages (e ∷ es) = (if is_usable e then entry_pages e else []) ++ usable_pages es

-- How many pages a memory map has.
abbrev pub page_count : List Entry → ℕ
page_count [] = 0
page_count (e ∷ es) = (if is_usable e then e.size / page_size else 0) + page_count es

pub length-usable_pages : (es : List Entry) → length (usable_pages es) ≡ page_count es
length-usable_pages [] = refl
length-usable_pages (e ∷ es) = ground (
  arith,
  length-usable_pages es,
  length-run e.base 0 (e.size / page_size),
  length-append (if is_usable e then entry_pages e else []) (usable_pages es),
)

-- What Limine documents of usable entries: whole pages, below the end of the address space.
pub record IsWhole (e : Entry) : Type 0 where
  pub base_aligned : e.base % page_size ≡ 0
  pub size_aligned : e.size % page_size ≡ 0
  pub below : e.base + e.size < 2 ^ 64

-- The pages `ys` have been pushed, and nothing but the stack and its index has changed.
pub record Pushes (s : Pmm) (ys : List ℕ) (r : Loaded) : Type 0 where
  pub out : Pmm
  pub runs : r ≡ loaded out
  pub pages : live out ≡ live s ++ ys
  pub idx : out.stack_idx ≡ s.stack_idx + length ys
  pub same_used : out.used_pages ≡ s.used_pages
  pub same_total : out.total_pages ≡ s.total_pages
  pub same_length : length out.stack ≡ length s.stack

push_entry-stop :
    (e : Entry) (fuel j : ℕ) (s : Pmm) → e.size ≤ j → push_entry e (suc fuel) j s ≡ loaded s
unfolding push_entry
push_entry-stop e fuel j s h = ground arith

push_entry-step :
    (e : Entry) (fuel i : ℕ) (s : Pmm)
    → IsWhole e
    → i * page_size < e.size
    → s.stack_idx < s.total_pages
    → s.total_pages ≤ length s.stack
    → push_entry e (suc fuel) (i * page_size) s
      ≡ push_entry e fuel ((i + 1) * page_size) (pushed e.base i s)
unfolding push_entry
push_entry-step e fuel i s w h room fits =
    let next : u64 (i * page_size + page_size) ≡ (i + 1) * page_size = omega arith in
    ground (arith, ap (λ j. push_entry e fuel j (pushed e.base i s)) next)

Pushes-stop :
    (e : Entry) (fuel i : ℕ) (s : Pmm)
    → e.size ≤ i * page_size
    → Pushes s [] (push_entry e (suc fuel) (i * page_size) s)
Pushes-stop e fuel i s h = record {
  out = s;
  runs = push_entry-stop e fuel (i * page_size) s h;
  pages = sym (append-nil (live s));
  idx = omega arith;
  same_used = refl;
  same_total = refl;
  same_length = refl;
}

Pushes-step :
    (e : Entry) (fuel i n : ℕ) (s : Pmm)
    → IsWhole e
    → i * page_size < e.size
    → s.stack_idx < s.total_pages
    → s.total_pages ≤ length s.stack
    → Pushes
        (pushed e.base i s)
        (run e.base (i + 1) n)
        (push_entry e fuel ((i + 1) * page_size) (pushed e.base i s))
    → Pushes s (run e.base i (suc n)) (push_entry e (suc fuel) (i * page_size) s)
Pushes-step e fuel i n s w h room fits rest = record {
  out = rest.out;
  runs = push_entry-step e fuel i s w h room fits ∙ rest.runs;
  pages =
      rest.pages
      ∙ ap (λ xs. xs ++ run e.base (i + 1) n) (live-pushed e.base i s (omega arith))
      ∙ append_assoc (live s) (u64 (e.base + i * page_size) ∷ []) (run e.base (i + 1) n);
  idx = omega (arith, rest.idx);
  same_used = rest.same_used;
  same_total = rest.same_total;
  same_length = rest.same_length ∙ length-set s.stack s.stack_idx (u64 (e.base + i * page_size));
}

-- From index `i` the inner loop pushes the `n` pages that are left.
push_entry-Pushes :
    (e : Entry) (n fuel i : ℕ) (s : Pmm)
    → IsWhole e
    → (i + n) * page_size ≡ e.size
    → n < fuel
    → s.stack_idx + n ≤ s.total_pages
    → s.total_pages ≤ length s.stack
    → Pushes s (run e.base i n) (push_entry e fuel (i * page_size) s)
push_entry-Pushes e n zero i s w size lt room fits = absurd (omega arith)
push_entry-Pushes e zero (suc fuel) i s w size lt room fits = Pushes-stop e fuel i s (omega arith)
push_entry-Pushes e (suc n) (suc fuel) i s w size lt room fits =
    Pushes-step e fuel i n s w (omega arith) (omega arith) fits (
      push_entry-Pushes e n fuel (i + 1) (pushed e.base i s) w (omega arith) (omega arith)
        (omega arith)
        (omega (arith, length-set s.stack s.stack_idx (u64 (e.base + i * page_size)))))

-- A whole entry with room for its pages is pushed completely, within the fuel.
pub push_entry-entry_pages :
    (e : Entry) (s : Pmm)
    → IsWhole e
    → s.stack_idx + e.size / page_size ≤ s.total_pages
    → s.total_pages ≤ length s.stack
    → Pushes s (entry_pages e) (push_entry e (enough s) 0 s)
push_entry-entry_pages e s w room fits =
    push_entry-Pushes e (e.size / page_size) (enough s) 0 s w (omega arith) (omega arith) room fits

-- Every usable entry of the map is whole.
abbrev pub IsWholeMap : List Entry → Type 0
IsWholeMap = All (λ e. is_usable e ≡ true → IsWhole e)

Pushes-skip :
    (es : List Entry) (s : Pmm) (ys : List ℕ)
    → Pushes s ys (push_entries es s)
    → Pushes s ([] ++ ys) (then_load (loaded s) (λ t. push_entries es t))
Pushes-skip es s ys p = p

Pushes-then :
    (es : List Entry) (s : Pmm) (xs ys : List ℕ) (r : Loaded)
    → (p : Pushes s xs r) → Pushes p.out ys (push_entries es p.out)
    → Pushes s (xs ++ ys) (then_load r (λ t. push_entries es t))
Pushes-then es s xs ys r p q = record {
  out = q.out;
  runs = ap (λ l. then_load l (λ t. push_entries es t)) p.runs ∙ q.runs;
  pages = q.pages ∙ ap (λ zs. zs ++ ys) p.pages ∙ append_assoc (live s) xs ys;
  idx = omega (arith, p.idx, q.idx, length-append xs ys);
  same_used = q.same_used ∙ p.same_used;
  same_total = q.same_total ∙ p.same_total;
  same_length = q.same_length ∙ p.same_length;
}

push_entries-cons :
    (e : Entry) (es : List Entry) (s : Pmm)
    → push_entries (e ∷ es) s
      ≡ then_load
          (if is_usable e then push_entry e (enough s) 0 s else loaded s)
          (λ t. push_entries es t)
unfolding push_entries
push_entries-cons e es s = refl

-- The third loop pushes the usable pages of the whole map in order, and changes nothing but the
-- stack and its index, where usable entries are whole pages and the stack has room for them.
pub push_entries-usable_pages :
    (es : List Entry) (s : Pmm)
    → IsWholeMap es
    → s.stack_idx + page_count es ≤ s.total_pages
    → s.total_pages ≤ length s.stack
    → Pushes s (usable_pages es) (push_entries es s)
push_entries-usable_pages [] s w room fits = record {
  out = s;
  runs = unfold push_entries in refl;
  pages = sym (append-nil (live s));
  idx = omega arith;
  same_used = refl;
  same_total = refl;
  same_length = refl;
}
push_entries-usable_pages (e ∷ es) s w room fits =
    rw (push_entries-cons e es s) (elim (Bool-cases (is_usable e)) [
      | inl holds ↦
          let size : e.size / page_size + page_count es + s.stack_idx ≤ s.total_pages =
            ground arith in
          let one = push_entry-entry_pages e s (w.0 holds) (omega arith) fits in
          let rest =
            push_entries-usable_pages es one.out w.1
              (omega (arith, one.idx, one.same_total, length-run e.base 0 (e.size / page_size)))
              (omega (arith, one.same_total, one.same_length)) in
          rw holds (Pushes-then es s (entry_pages e) (usable_pages es) _ one rest)
      | inr skip ↦ rw skip (push_entries-usable_pages es s w.1 (ground arith) fits)
    ])
