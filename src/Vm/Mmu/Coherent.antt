-- ===== src/Vm/Mmu/Coherent.antt =====
-- A TLB that agrees with a page table: what lookup_tlb finds in it, and insert_tlb.
use os_pa.Common.{
  ℕ, zero, suc, ◌≡◌, ◌⊎◌, inl, inr, refl, sym, ap, subst, ◌∙◌, Bool, true, false, ◌&&◌, not, none,
  some, Option, List, [], ◌∷◌, All, get_elem?, leb, if_true, if_false, arith, Bool-cases,
}
use mathlib.Core.Option.{some-injective}
use os_pa.Vm.Types.{
  Pte, Directory, Pagetable, TlbEntry, has_write, pd_index, pte_index, access_read, access_write,
}
use os_pa.Vm.Tlb.{matches, lookup_tlb, insert_each}
use os_pa.Vm.Frames.Count.{All-get_elem?}
use os_pa.Vm.Frames.Sound.{pte_in, pte_of, only_valid, mapping}

-- What the table permits: a write takes the write flag.
abbrev pub permits : ℕ → Pte → Bool
permits rw pte = not (has_write rw && not (has_write pte.rw))

-- The accesses of the simulator, and the flags of PTEs.
abbrev pub IsAccess : ℕ → Type 0
IsAccess rw = (rw ≡ access_read) ⊎ (rw ≡ access_write)

abbrev pub HasFlags : Pagetable → Type 0
HasFlags table = (vpn : ℕ) (pte : Pte) → mapping vpn table ≡ some pte → (pte.rw ≡ 1) ⊎ (pte.rw ≡ 3)

-- A valid entry has the frame and the flags of the page table.
abbrev pub Agrees : Pagetable → TlbEntry → Type 0
Agrees table t =
    t.valid ≡ true
    → (pte : Pte) × (mapping t.vpn table ≡ some pte) × (t.pfn ≡ pte.pfn) × (t.rw ≡ pte.rw)

abbrev pub Coherent : Pagetable → List TlbEntry → Type 0
Coherent table = All (Agrees table)

leb-permits :
    (flags : ℕ) (pte : Pte)
    → IsAccess flags
    → (pte.rw ≡ 1) ⊎ (pte.rw ≡ 3)
    → leb flags pte.rw ≡ permits flags pte
leb-permits flags pte (inl e) (inl e') = rw (e, e')
leb-permits flags pte (inl e) (inr e') = rw (e, e')
leb-permits flags pte (inr e) (inl e') = rw (e, e')
leb-permits flags pte (inr e) (inr e') = rw (e, e')

matches-valid : (vpn : ℕ) (t : TlbEntry) → matches vpn t ≡ true → t.valid ≡ true
matches-valid vpn t h = ground arith

matches-vpn : (vpn : ℕ) (t : TlbEntry) → matches vpn t ≡ true → t.vpn ≡ vpn
matches-vpn vpn t h = ground arith

module _ (table : Pagetable) (vpn : ℕ) where
  lookup_miss :
      (flags : ℕ) (t : TlbEntry) (tlb : List TlbEntry)
      → (matches vpn t && leb flags t.rw) ≡ false
      → lookup_tlb vpn flags (t ∷ tlb) ≡ lookup_tlb vpn flags tlb
  unfolding lookup_tlb
  lookup_miss flags t tlb miss = ground arith

  -- A hit, as the page table has it.
  pub lookup-Coherent :
      (flags pfn : ℕ) (tlb : List TlbEntry)
      → IsAccess flags
      → HasFlags table
      → Coherent table tlb
      → lookup_tlb vpn flags tlb ≡ some pfn
      → (pte : Pte) × (mapping vpn table ≡ some pte) × (pfn ≡ pte.pfn) × (permits flags pte ≡ true)
  unfolding lookup_tlb
  lookup-Coherent flags pfn [] a h c e = absurd (ground arith)
  lookup-Coherent flags pfn (t ∷ tlb) a h (one, rest) e =
      elim (Bool-cases (matches vpn t && leb flags t.rw)) [
        | inl hit ↦
            let own : matches vpn t ≡ true = ground arith in
            let allowed : leb flags t.rw ≡ true = ground arith in
            let same : some t.pfn ≡ some pfn = sym (if_true _ _ own ∙ if_true _ _ allowed) ∙ e in
            let (pte, mapped, frame, flag) = one (matches-valid vpn t own) in
            let here : mapping vpn table ≡ some pte =
              ap (λ v. mapping v table) (sym (matches-vpn vpn t own)) ∙ mapped in
            (
              pte,
              here,
              sym (some-injective _ _ same) ∙ frame,
              sym (leb-permits flags pte a (h vpn pte here)) ∙ ap (leb flags) (sym flag) ∙ allowed,
            )
        | inr miss ↦ lookup-Coherent flags pfn tlb a h rest (sym (lookup_miss flags t tlb miss) ∙ e)
      ]

  pub insert_each-Coherent :
      (rounds : ℕ) (pte : Pte) (tlb : List TlbEntry)
      → mapping vpn table ≡ some pte
      → Coherent table tlb
      → Coherent table (insert_each rounds vpn pte.rw pte.pfn tlb)
  unfolding insert_each
  insert_each-Coherent zero pte tlb e c = c
  insert_each-Coherent (suc rounds) pte [] e c = tt
  insert_each-Coherent (suc rounds) pte (t ∷ tlb) e (one, rest) =
      elim (Bool-cases (matches vpn t)) [
        | inl own ↦
            subst (Coherent table) (sym (if_true _ _ own)) (
              λ live. (pte, ap (λ v. mapping v table) (matches-vpn vpn t own) ∙ e, refl, refl),
              rest,
            )
        | inr other ↦
            subst (Coherent table) (sym (if_false _ _ other)) (elim (Bool-cases (not t.valid)) [
              | inl free ↦
                  subst (Coherent table) (sym (if_true _ _ free))
                    (λ live. (pte, e, refl, refl), rest)
              | inr used ↦
                  subst (Coherent table) (sym (if_false _ _ used))
                    (one, insert_each-Coherent rounds pte tlb e rest)
            ])
      ]

-- The flags, entry by entry.
abbrev pub PteFlags : Pte → Type 0
PteFlags pte = pte.valid ≡ true → (pte.rw ≡ 1) ⊎ (pte.rw ≡ 3)

abbrev pub PdeFlags : Option Directory → Type 0
PdeFlags none = Unit {0}
PdeFlags (some dir) = All PteFlags dir

only_valid-PteFlags :
    (o : Option Pte) (pte : Pte)
    → ((q : Pte) → o ≡ some q → PteFlags q)
    → only_valid o ≡ some pte
    → (pte.rw ≡ 1) ⊎ (pte.rw ≡ 3)
only_valid-PteFlags none pte h e = absurd (ground arith)
only_valid-PteFlags (some q) pte h e = elim (Bool-cases q.valid) [
  | inl live ↦
      let same : q ≡ pte = some-injective _ _ (sym (if_true _ _ live) ∙ e) in
      subst (λ x. (x.rw ≡ 1) ⊎ (x.rw ≡ 3)) same (h q refl live)
  | inr dead ↦ absurd (ground (arith, sym (if_false _ _ dead) ∙ e))
]

pte_in-PteFlags :
    (vpn : ℕ) (o : Option (Option Directory)) (q : Pte)
    → ((pde : Option Directory) → o ≡ some pde → PdeFlags pde)
    → pte_in vpn o ≡ some q
    → PteFlags q
pte_in-PteFlags vpn none q h e = absurd (ground arith)
pte_in-PteFlags vpn (some none) q h e = absurd (ground arith)
pte_in-PteFlags vpn (some (some dir)) q h e =
    All-get_elem? PteFlags dir (pte_index vpn) q (h (some dir) refl) e

pub All-HasFlags : (table : Pagetable) → All PdeFlags table → HasFlags table
All-HasFlags table h vpn pte e =
    only_valid-PteFlags (pte_of vpn table) pte
      (λ q.
        pte_in-PteFlags vpn (get_elem? table (pd_index vpn)) q
          (λ pde. All-get_elem? PdeFlags table (pd_index vpn) pde h))
      e
