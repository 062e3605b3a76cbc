-- ===== src/Vm/Mmu/Translate.antt =====
-- __translate against the page table alone.
use os_pa.Common.{
  ℕ, ◌<◌, ◌≡◌, refl, sym, ap, subst, ◌∙◌, inl, inr, Bool, true, false, not, Option, none, some,
  List, length, if◌then◌else◌, if_true, if_false, arith, Bool-cases, Option-cases, get_elem?,
}
use os_pa.Vm.Types.{
  Pte, Directory, TlbEntry, Machine, pd_index, pte_index, nr_pageframes, nr_ptes_per_page,
}
use os_pa.Vm.Tlb.{lookup_tlb, insert_tlb}
use os_pa.Vm.Mmu.{Translation, use_pte, walk_directory, walk_table, translate}
use os_pa.Vm.Frames.Count.{get_elem?-some, All-get_elem?}
use os_pa.Vm.Frames.Sound.{PdeShape, TableShape, pte_in, only_valid, mapping}
use os_pa.Vm.Mmu.Coherent.{
  permits, IsAccess, HasFlags, Coherent, lookup-Coherent, insert_each-Coherent,
}

-- What the page table answers; the flag says whether the answer came from the TLB.
abbrev pub answer : ℕ → Bool → Option Pte → Translation
answer flags cached none = none
answer flags cached (some pte) = if permits flags pte then some (pte.pfn, cached) else none

-- The machine but for the TLB.
abbrev pub with_tlb : List TlbEntry → Machine → Machine
with_tlb tlb m = record m { tlb = tlb }

not-false : (b : Bool) → not b ≡ true → b ≡ false
not-false true h = sym h
not-false false h = refl

not-true : (b : Bool) → not b ≡ false → b ≡ true
not-true true h = refl
not-true false h = sym h

-- The answer of the page table, with only the TLB changed, and coherent still.
pub record Translates (flags vpn : ℕ) (m : Machine) (r : Option (Translation × Machine))
    : Type 0 where
  pub cached : Bool
  pub after : List TlbEntry
  pub result : r ≡ some (answer flags cached (mapping vpn m.current.pagetable), with_tlb after m)
  pub coherent : Coherent m.current.pagetable after

-- The same without a look at the TLB, which stays coherent if it was so.
pub record Walks (flags vpn : ℕ) (m : Machine) (r : Option (Translation × Machine)) : Type 0 where
  pub after : List TlbEntry
  pub result : r ≡ some (answer flags false (mapping vpn m.current.pagetable), with_tlb after m)
  pub keeps : Coherent m.current.pagetable m.tlb → Coherent m.current.pagetable after

module _ (flags vpn : ℕ) (m : Machine) (page : vpn < 64)
    (shape : TableShape m.current.pagetable) where
  module _ (dir : Directory) (pte : Pte)
      (e : get_elem? m.current.pagetable (pd_index vpn) ≡ some (some dir))
      (e' : get_elem? dir (pte_index vpn) ≡ some pte) where
    mapped : pte.valid ≡ true → mapping vpn m.current.pagetable ≡ some pte
    mapped live = ap only_valid (ap (pte_in vpn) e ∙ e') ∙ if_true _ _ live

    unmapped : pte.valid ≡ false → mapping vpn m.current.pagetable ≡ none
    unmapped dead = ap only_valid (ap (pte_in vpn) e ∙ e') ∙ if_false _ _ dead

    use_permitted :
        pte.valid ≡ true
        → permits flags pte ≡ true
        → Walks flags vpn m (some (use_pte flags vpn pte m))
    unfolding use_pte insert_tlb
    use_permitted live permitted =
        let filled = insert_tlb vpn pte.rw pte.pfn m.tlb in
        let same : answer flags false (mapping vpn m.current.pagetable) ≡ some (pte.pfn, false) =
          ap (answer flags false) (mapped live) ∙ if_true _ _ permitted in
        let used : use_pte flags vpn pte m
            ≡ (some (pte.pfn, false), if m.print_tlb_result then with_tlb filled m else m) =
          if_false _ _ (ap not live) ∙ if_false _ _ (not-false _ permitted) in
        elim (Bool-cases m.print_tlb_result) [
          | inl on ↦ record {
            after = filled;
            result = ap some (
                used
                ∙ ap (λ t. (some (pte.pfn, false), t)) (if_true _ _ on)
                ∙ ap (λ a. (a, with_tlb filled m)) (sym same));
            keeps = λ c.
                insert_each-Coherent m.current.pagetable vpn nr_pageframes pte m.tlb (mapped live)
                  c;
          }
          | inr off ↦ record {
            after = m.tlb;
            result = ap some (
                used
                ∙ ap (λ t. (some (pte.pfn, false), t)) (if_false _ _ off)
                ∙ ap (λ a. (a, m)) (sym same));
            keeps = λ c. c;
          }
        ]

    use_pte-Walks : Walks flags vpn m (some (use_pte flags vpn pte m))
    unfolding use_pte
    use_pte-Walks = elim (Bool-cases pte.valid) [
      | inr dead ↦ record {
        after = m.tlb;
        result = ap some (
            if_true _ _ (ap not dead)
            ∙ ap (λ a. (a, m)) (sym (ap (answer flags false) (unmapped dead))));
        keeps = λ c. c;
      }
      | inl live ↦ elim (Bool-cases (permits flags pte)) [
        | inl permitted ↦ use_permitted live permitted
        | inr denied ↦ record {
          after = m.tlb;
          result = ap some (
              if_false _ _ (ap not live)
              ∙ if_true _ _ (not-true _ denied)
              ∙ ap (λ a. (a, m))
                  (sym (ap (answer flags false) (mapped live) ∙ if_false _ _ denied)));
          keeps = λ c. c;
        }
      ]
    ]

  walk_directory-Walks :
      (pde : Option Directory)
      → get_elem? m.current.pagetable (pd_index vpn) ≡ some pde
      → Walks flags vpn m (walk_directory flags vpn (some pde) m)
  unfolding walk_directory
  walk_directory-Walks none e = record {
    after = m.tlb;
    result =
        ap some
          (ap (λ a. (a, m)) (sym (ap (answer flags false) (ap only_valid (ap (pte_in vpn) e)))));
    keeps = λ c. c;
  }
  walk_directory-Walks (some dir) e =
      let sixteen : length dir ≡ nr_ptes_per_page =
        All-get_elem? PdeShape m.current.pagetable (pd_index vpn) (some dir) shape.sixteen e in
      let (pte, e') = get_elem?-some dir (pte_index vpn) (omega arith) in
      rw (e', walk_directory) (use_pte-Walks dir pte e e')

hit-lookup :
    (b : Bool) (found : Option ℕ) (pfn : ℕ)
    → (if b then found else none) ≡ some pfn
    → found ≡ some pfn
hit-lookup true found pfn e = e
hit-lookup false found pfn e = absurd (ground arith)

translate_found :
    (flags vpn : ℕ) (m : Machine) (pfn : ℕ)
    → (if m.print_tlb_result then lookup_tlb vpn flags m.tlb else none) ≡ some pfn
    → translate flags vpn m ≡ some (some (pfn, true), m)
unfolding translate
translate_found flags vpn m pfn hit = rw (hit, translate)

translate_hit :
    (flags vpn : ℕ) (m : Machine)
    → IsAccess flags
    → HasFlags m.current.pagetable
    → Coherent m.current.pagetable m.tlb
    → (pfn : ℕ) → (if m.print_tlb_result then lookup_tlb vpn flags m.tlb else none) ≡ some pfn
    → Translates flags vpn m (translate flags vpn m)
unfolding translate
translate_hit flags vpn m access h c pfn hit =
    let (pte, mapped, frame, permitted) =
      lookup-Coherent m.current.pagetable vpn flags pfn m.tlb access h c
        (hit-lookup m.print_tlb_result _ pfn hit) in
    let same : answer flags true (mapping vpn m.current.pagetable) ≡ some (pfn, true) =
      ap (answer flags true) mapped
      ∙ if_true _ _ permitted
      ∙ ap (λ f. some (f, true)) (sym frame) in
    record {
      cached = true;
      after = m.tlb;
      result = translate_found flags vpn m pfn hit ∙ ap (λ a. some (a, m)) (sym same);
      coherent = c;
    }

-- On a miss the page table is walked.
pub translate_miss :
    (flags vpn : ℕ) (m : Machine)
    → vpn < 64
    → TableShape m.current.pagetable
    → m.ptbr ≡ true
    → (if m.print_tlb_result then lookup_tlb vpn flags m.tlb else none) ≡ none
    → Walks flags vpn m (translate flags vpn m)
unfolding translate walk_table
translate_miss flags vpn m page shape on miss =
    let (pde, e) = get_elem?-some m.current.pagetable (pd_index vpn) (omega (arith, shape.four)) in
    let walked : Walks flags vpn m (walk_table flags vpn m) =
      subst (Walks flags vpn m) (sym (if_true _ _ on))
        (rw e (walk_directory-Walks flags vpn m page shape pde e)) in
    rw (miss, translate) walked

-- On a page table with its shape and the flags 1 and 3, in use, and with a TLB that agrees with it,
-- __translate answers a read or a write as the page table does, from the TLB or not. It changes the
-- TLB only, which agrees with the page table still.
pub translate-Translates :
    (flags vpn : ℕ) (m : Machine)
    → IsAccess flags
    → vpn < 64
    → TableShape m.current.pagetable
    → m.ptbr ≡ true
    → HasFlags m.current.pagetable
    → Coherent m.current.pagetable m.tlb
    → Translates flags vpn m (translate flags vpn m)
translate-Translates flags vpn m access page shape on h c =
    elim (Option-cases (if m.print_tlb_result then lookup_tlb vpn flags m.tlb else none)) [
      | inr (pfn, hit) ↦ translate_hit flags vpn m access h c pfn hit
      | inl miss ↦
          let w = translate_miss flags vpn m page shape on miss in
          record { cached = false; after = w.after; result = w.result; coherent = w.keeps c }
    ]
