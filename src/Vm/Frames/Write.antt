-- ===== src/Vm/Frames/Write.antt =====
-- What one write of a PTE does to a page table.
use os_pa.Common.{
  ℕ, ◌+◌, ◌<◌, ◌≡◌, ◌≢◌, refl, sym, ◌∙◌, inl, inr, false, none, some, length, get_elem?, set,
  length-set, get_elem?-set_self, get_elem?-set_ne, ◌==◌, arith, Bool-cases, ==→eq, ==→ne,
  Option-cases,
}
use os_pa.Vm.Types.{Pte, Directory, Pagetable, pd_index, pte_index, nr_ptes_per_page}
use os_pa.Vm.Frames.Count.{
  count_pte, count_table, count-set_directory, count-set_table, AllInvalid, count-AllInvalid,
  AllInvalid-get_elem?, All-set, get_elem?-some,
}
use os_pa.Vm.Frames.Sound.{PdeShape, TableShape, pte_in, only_valid, mapping}

abbrev pub written : ℕ → Directory → Pte → Pagetable → Pagetable
written vpn dir pte table = set table (pd_index vpn) (some (set dir (pte_index vpn) pte))

module _ (vpn : ℕ) (dir : Directory) (pte : Pte) (table : Pagetable) where
  pub written-TableShape :
      TableShape table → length dir ≡ nr_ptes_per_page → TableShape (written vpn dir pte table)
  written-TableShape h l = record {
    four = length-set table (pd_index vpn) _ ∙ h.four;
    sixteen =
        All-set PdeShape table (pd_index vpn) _ h.sixteen (length-set dir (pte_index vpn) pte ∙ l);
  }

  pub count-written :
      (f : ℕ) (old : Pte)
      → get_elem? table (pd_index vpn) ≡ some (some dir)
      → get_elem? dir (pte_index vpn) ≡ some old
      → count_table f (written vpn dir pte table) + count_pte f old
        ≡ count_table f table + count_pte f pte
  count-written f old e e' = omega (
    arith,
    count-set_table f table (pd_index vpn) (some (set dir (pte_index vpn) pte)) (some dir) e,
    count-set_directory f dir (pte_index vpn) pte old e',
  )

  pub count-written_new :
      (f : ℕ)
      → get_elem? table (pd_index vpn) ≡ some none
      → AllInvalid dir
      → length dir ≡ nr_ptes_per_page
      → count_table f (written vpn dir pte table) ≡ count_table f table + count_pte f pte
  count-written_new f e z l =
      let (old, e') = get_elem?-some dir (pte_index vpn) (omega arith) in
      let gone : old.valid ≡ false = AllInvalid-get_elem? dir (pte_index vpn) old z e' in
      let none_left : count_pte f old ≡ 0 = ground (arith, gone) in
      omega (
        arith,
        none_left,
        count-set_table f table (pd_index vpn) (some (set dir (pte_index vpn) pte)) none e,
        count-set_directory f dir (pte_index vpn) pte old e',
        count-AllInvalid f dir z,
      )

  pub mapping-written_self :
      pd_index vpn < length table
      → length dir ≡ nr_ptes_per_page
      → mapping vpn (written vpn dir pte table) ≡ only_valid (some pte)
  mapping-written_self h l =
      let e = get_elem?-set_self table (pd_index vpn) (some (set dir (pte_index vpn) pte)) h in
      let e' = get_elem?-set_self dir (pte_index vpn) pte (omega arith) in rw (e, e')

  -- The directory that is written to: the one of the page, or a cleared one in place of NULL.
  pub data Base : Type 0 where
    old : get_elem? table (pd_index vpn) ≡ some (some dir) → Base
    new : get_elem? table (pd_index vpn) ≡ some none → AllInvalid dir → Base

  mapping_new : (i : ℕ) → AllInvalid dir → only_valid (get_elem? dir i) ≡ none
  mapping_new i z = elim (Option-cases (get_elem? dir i)) [
    | inl e ↦ rw e
    | inr (q, e) ↦ rw (e, AllInvalid-get_elem? dir i q z e)
  ]

  same_index : (v : ℕ) → v ≢ vpn → pd_index v ≡ pd_index vpn → pte_index vpn ≢ pte_index v
  same_index v h e k = h (omega arith)

  mapping-written_near :
      (v : ℕ)
      → Base
      → pd_index vpn < length table
      → v ≢ vpn
      → pd_index v ≡ pd_index vpn
      → mapping v (written vpn dir pte table) ≡ mapping v table
  mapping-written_near v b h n e =
      let e' = get_elem?-set_self table (pd_index vpn) (some (set dir (pte_index vpn) pte)) h in
      let e'' = get_elem?-set_ne dir (pte_index vpn) (pte_index v) pte (same_index v n e) in
      rw (e, e', e'') (kept b)
    where
      kept :
          Base
          → only_valid (get_elem? dir (pte_index v))
            ≡ only_valid (pte_in v (get_elem? table (pd_index vpn)))
      kept (Base.old q) = rw q
      kept (Base.new q z) = rw q (mapping_new (pte_index v) z)

  -- A page of another directory.
  pub mapping-written_far :
      (v : ℕ) → pd_index v ≢ pd_index vpn → mapping v (written vpn dir pte table) ≡ mapping v table
  mapping-written_far v n =
      let e' =
        get_elem?-set_ne table (pd_index vpn) (pd_index v) (some (set dir (pte_index vpn) pte))
          (λ k. n (sym k)) in
      rw e'

  -- Another page of the directory.
  pub mapping-written_beside :
      (v : ℕ)
      → pd_index vpn < length table
      → v ≢ vpn
      → pd_index v ≡ pd_index vpn
      → mapping v (written vpn dir pte table) ≡ only_valid (get_elem? dir (pte_index v))
  mapping-written_beside v h n e =
      let e' = get_elem?-set_self table (pd_index vpn) (some (set dir (pte_index vpn) pte)) h in
      let e'' = get_elem?-set_ne dir (pte_index vpn) (pte_index v) pte (same_index v n e) in
      rw (e, e', e'') refl

  pub mapping-written_ne :
      (v : ℕ)
      → Base
      → pd_index vpn < length table
      → v ≢ vpn
      → mapping v (written vpn dir pte table) ≡ mapping v table
  mapping-written_ne v b h n = elim (Bool-cases (pd_index v == pd_index vpn)) [
    | inl e ↦ mapping-written_near v b h n (==→eq _ _ e)
    | inr e ↦ mapping-written_far v (==→ne _ _ e)
  ]
