-- ===== src/Vm/Frames/Free.antt =====
-- free_page unmaps the page of the current process, and keeps the invariant.
use os_pa.Common.{
  ℕ, ◌+◌, ◌<◌, ◌≡◌, ◌≢◌, refl, sym, ap, subst, if_true, if_false, ◌++◌, [], ◌∷◌, All, ==→eq, ==→ne,
  false, inl, inr, true, Option, none, some, List, length, get_elem?, ◌==◌, if◌then◌else◌, arith,
  Bool-cases,
}
use os_pa.Vm.Types.{
  Pte, Directory, Process, TlbEntry, Machine, pd_index, pte_index, nr_ptes_per_page,
}
use os_pa.Vm.Tlb.{matches, remove_tlb}
use os_pa.Vm.Page.{unmap_frame, set_pte, unmapped_pte, free_pte, free_in, free_page}
use os_pa.Vm.Frames.Count.{
  count_pte, count-directory_le, count-table_le, get_elem?-some, All-get_elem?,
}
use os_pa.Vm.Frames.Sound.{PdeShape, Sound, mapping}
use os_pa.Vm.Frames.Write.{
  written-TableShape, count-written, Base, mapping-written_self, mapping-written_ne,
}

-- The entry is not one of the page.
abbrev pub Apart : ℕ → TlbEntry → Type 0
Apart vpn t = t.valid ≡ true → t.vpn ≢ vpn

-- The TLB forgets its first entry of the page, if it has one, and keeps the others.
pub data Forgets (vpn : ℕ) (tlb after : List TlbEntry) : Type 0 where
  untouched : All (Apart vpn) tlb → after ≡ tlb → Forgets vpn tlb after
  cleared_one :
      (before rest : List TlbEntry) (t : TlbEntry)
      → tlb ≡ before ++ t ∷ rest
      → All (Apart vpn) before
      → t.valid ≡ true
      → t.vpn ≡ vpn
      → after ≡ before ++ record { valid = false; rw = 0; vpn = 0; pfn = 0; private = 0 } ∷ rest
      → Forgets vpn tlb after

Forgets-later :
    (vpn : ℕ) (t : TlbEntry) (tlb after : List TlbEntry)
    → Apart vpn t
    → Forgets vpn tlb after
    → Forgets vpn (t ∷ tlb) (t ∷ after)
Forgets-later vpn t tlb after far (Forgets.untouched all e) =
    Forgets.untouched (far, all) (ap (λ l. t ∷ l) e)
Forgets-later vpn t tlb after far (Forgets.cleared_one before rest u e all live page e') =
    Forgets.cleared_one (t ∷ before) rest u (ap (λ l. t ∷ l) e) (far, all) live page
      (ap (λ l. t ∷ l) e')

apart : (vpn : ℕ) (t : TlbEntry) → matches vpn t ≡ false → Apart vpn t
apart vpn t e live = ==→ne t.vpn vpn (ground (arith, e, live))

remove_tlb-Forgets : (vpn : ℕ) (tlb : List TlbEntry) → Forgets vpn tlb (remove_tlb vpn tlb)
unfolding remove_tlb
remove_tlb-Forgets vpn [] = Forgets.untouched tt refl
remove_tlb-Forgets vpn (t ∷ tlb) = elim (Bool-cases (matches vpn t)) [
  | inr e ↦
      subst (Forgets vpn (t ∷ tlb)) (sym (if_false _ _ e))
        (Forgets-later vpn t tlb _ (apart vpn t e) (remove_tlb-Forgets vpn tlb))
  | inl e ↦ subst (Forgets vpn (t ∷ tlb)) (sym (if_true _ _ e)) (
      Forgets.cleared_one [] tlb t refl tt (ground (arith, e)) (==→eq _ _ (ground (arith, e))) refl)
]

-- The page is unmapped, its frame has one mapping less, and the TLB has lost its first entry for
-- the page.
pub record Unmaps (vpn : ℕ) (pte : Pte) (m m' : Machine) (lost : List Process) : Type 0 where
  pub sound : Sound m' lost
  pub here : mapping vpn m'.current.pagetable ≡ none
  pub elsewhere : (v : ℕ) → v ≢ vpn → mapping v m'.current.pagetable ≡ mapping v m.current.pagetable
  pub others : m'.processes ≡ m.processes
  pub counted : (g : ℕ) → m'.mapcounts g + (if pte.pfn == g then 1 else 0) ≡ m.mapcounts g
  pub cached : Forgets vpn m.tlb m'.tlb
  pub root : m'.ptbr ≡ m.ptbr

module _ (vpn : ℕ) (m : Machine) (lost : List Process) (dir : Directory) (pte : Pte)
    (page : vpn < 64) (s : Sound m lost)
    (e : get_elem? m.current.pagetable (pd_index vpn) ≡ some (some dir))
    (e' : get_elem? dir (pte_index vpn) ≡ some pte) (live : pte.valid ≡ true) where
  emptied : Machine
  emptied = record (unmap_frame pte.pfn (set_pte vpn dir unmapped_pte m)) {
    tlb = remove_tlb vpn m.tlb;
  }

  sixteen : length dir ≡ nr_ptes_per_page
  sixteen = All-get_elem? PdeShape m.current.pagetable (pd_index vpn) (some dir) s.shape.sixteen e

  -- The frame of a mapped page is counted.
  counted_once : 0 < m.mapcounts pte.pfn
  counted_once =
      let one : count_pte pte.pfn pte ≡ 1 = ground (arith, live) in
      omega (
        arith,
        s.counts pte.pfn,
        one,
        count-directory_le pte.pfn dir (pte_index vpn) pte e',
        count-table_le pte.pfn m.current.pagetable (pd_index vpn) (some dir) e,
      )

  pub dropped :
      (g : ℕ)
      → (unmap_frame pte.pfn m).mapcounts g + (if pte.pfn == g then 1 else 0) ≡ m.mapcounts g
  dropped g = ground (arith, counted_once, s.fits g)

  emptied-Unmaps : Unmaps vpn pte m emptied lost
  unfolding emptied
  emptied-Unmaps = record {
    sound = record {
      shape = written-TableShape vpn dir unmapped_pte m.current.pagetable s.shape sixteen;
      shapes = s.shapes;
      counts = λ g. ground (
        arith,
        dropped g,
        live,
        s.counts g,
        count-written vpn dir unmapped_pte m.current.pagetable g pte e e',
      );
      fits = λ g. omega (arith, dropped g, s.fits g);
      high = λ g h. omega (arith, dropped g, s.high g h);
    };
    here =
        mapping-written_self vpn dir unmapped_pte m.current.pagetable (omega (arith, s.shape.four))
          sixteen;
    elsewhere = λ v n.
        mapping-written_ne vpn dir unmapped_pte m.current.pagetable v (Base.old e)
          (omega (arith, s.shape.four)) n;
    others = refl;
    counted = dropped;
    cached = remove_tlb-Forgets vpn m.tlb;
    root = refl;
  }

-- The outcomes of free_page: an unmapped page is left alone, a mapped one is unmapped.
pub data Frees (vpn : ℕ) (m : Machine) (lost : List Process) (r : Option Machine) : Type 0 where
  absent : mapping vpn m.current.pagetable ≡ none → r ≡ some m → Frees vpn m lost r
  freed :
      (pte : Pte) (m' : Machine)
      → mapping vpn m.current.pagetable ≡ some pte
      → r ≡ some m'
      → Unmaps vpn pte m m' lost
      → Frees vpn m lost r

module _ (vpn : ℕ) (m : Machine) (lost : List Process) (page : vpn < 64) (s : Sound m lost) where
  free_pte-Frees :
      (dir : Directory) (pte : Pte)
      → get_elem? m.current.pagetable (pd_index vpn) ≡ some (some dir)
      → get_elem? dir (pte_index vpn) ≡ some pte
      → Frees vpn m lost (free_pte vpn dir (some pte) m)
  unfolding free_pte emptied
  free_pte-Frees dir pte e e' = elim (Bool-cases pte.valid) [
    | inl live ↦ rw live (
        Frees.freed pte _ (rw (e, e', live)) refl
          (emptied-Unmaps vpn m lost dir pte page s e e' live))
    | inr dead ↦ rw dead (Frees.absent (rw (e, e', dead)) refl)
  ]

  free_in-Frees :
      (pde : Option Directory)
      → get_elem? m.current.pagetable (pd_index vpn) ≡ some pde
      → Frees vpn m lost (free_in vpn (some pde) m)
  unfolding free_in
  free_in-Frees none e = Frees.absent (rw e) refl
  free_in-Frees (some dir) e =
      let sixteen : length dir ≡ nr_ptes_per_page =
        All-get_elem? PdeShape m.current.pagetable (pd_index vpn) (some dir) s.shape.sixteen e in
      let (pte, e') = get_elem?-some dir (pte_index vpn) (omega arith) in
      rw e' (free_pte-Frees dir pte e e')

-- On a sound machine free_page leaves a page that is not mapped alone. It unmaps a mapped one: the
-- map count of its frame falls by one, the other pages stay as they were and the machine stays
-- sound. Of the TLB, the first valid entry of the page, if there is one, becomes all zero and not
-- valid, and the others stay.
pub free_page-Frees :
    (vpn : ℕ) (m : Machine) (lost : List Process)
    → vpn < 64
    → Sound m lost
    → Frees vpn m lost (free_page vpn m)
unfolding free_page
free_page-Frees vpn m lost page s =
    let (pde, e) =
      get_elem?-some m.current.pagetable (pd_index vpn) (omega (arith, s.shape.four)) in
    rw e (free_in-Frees vpn m lost page s pde e)
