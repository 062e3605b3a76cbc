-- ===== src/Vm/Frames/Fault.antt =====
-- handle_page_fault: copy-on-write, its refusals, and what it does when memory is full.
use os_pa.Common.{
  ℕ, ◌≤◌, ◌<◌, ◌≡◌, ◌≢◌, ◌==◌, ==→eq, refl, sym, ap, subst, not, if_true, if_false, inl, inr, Bool,
  true, false, Option, none, some, List, length, get_elem?, ltb, ltb→lt, ltb→ge, lt→ltb, ◌∙◌, arith,
  Bool-cases,
}
use os_pa.Vm.Types.{
  Pte, Directory, Process, Machine, Fresh, pd_index, pte_index, nr_pageframes, nr_ptes_per_page,
}
use os_pa.Vm.Page.{
  unmap_frame, set_pte, is_copy_on_write, alloc_page, copy_on_write, fault_pte, fault_in,
  handle_page_fault,
}
use os_pa.Vm.Frames.Count.{get_elem?-some, All-get_elem?}
use os_pa.Vm.Frames.Sound.{PdeShape, Sound, mapping}
use os_pa.Vm.Frames.Write.{
  written-TableShape, count-written, Base, mapping-written_self, mapping-written_ne,
}
use os_pa.Vm.Frames.Alloc.{Dropped, Maps, Allocates, alloc_page-Dropped}
use os_pa.Vm.Frames.Free.{dropped}

-- The page is writable in place: its PTE has the flag 3, and nothing else has changed.
pub record Unshares (vpn : ℕ) (pte : Pte) (m m' : Machine) (lost : List Process) : Type 0 where
  pub sound : Sound m' lost
  pub here : mapping vpn m'.current.pagetable ≡ some (record pte { rw = 3 })
  pub elsewhere : (v : ℕ) → v ≢ vpn → mapping v m'.current.pagetable ≡ mapping v m.current.pagetable
  pub others : m'.processes ≡ m.processes
  pub counted : m'.mapcounts ≡ m.mapcounts
  pub cached : m'.tlb ≡ m.tlb
  pub root : m'.ptbr ≡ m.ptbr

-- A fork has made the page read-only, it was writable before, and the access is more than a read.
abbrev pub CopiesOnWrite : Pte → ℕ → Type 0
CopiesOnWrite pte flags = (pte.private ≢ 1) × (pte.rw ≡ 1) × (1 < flags)

pub cow-CopiesOnWrite :
    (pte : Pte) (flags : ℕ) → is_copy_on_write pte flags ≡ true → CopiesOnWrite pte flags
cow-CopiesOnWrite pte flags e = (
  λ q. ground (arith, e, ap (λ k. k == 1) q),
  ==→eq pte.rw 1 (ground (arith, e)),
  ltb→lt 1 flags (ground (arith, e)),
)

pub CopiesOnWrite-cow :
    (pte : Pte) (flags : ℕ) → CopiesOnWrite pte flags → is_copy_on_write pte flags ≡ true
CopiesOnWrite-cow pte flags c = ground (arith, c.0, c.1, c.2)

-- The outcomes of a page fault on a page of the current process.
pub data Faults (vpn flags : ℕ) (m : Machine) (lost : List Process) (r : Option (Bool × Machine))
    : Type 0 where
  -- The page has no directory, and NULL is followed.
  crashes :
      get_elem? m.current.pagetable (pd_index vpn) ≡ some none
      → r ≡ none
      → Faults vpn flags m lost r
  -- It is not mapped, or the access is not one that copy-on-write resolves.
  refuses_absent :
      mapping vpn m.current.pagetable ≡ none → r ≡ some (false, m) → Faults vpn flags m lost r
  refuses :
      (pte : Pte)
      → mapping vpn m.current.pagetable ≡ some pte
      → ¬ CopiesOnWrite pte flags
      → r ≡ some (false, m)
      → Faults vpn flags m lost r
  -- The frame is mapped nowhere else.
  unshares :
      (pte : Pte) (m' : Machine)
      → mapping vpn m.current.pagetable ≡ some pte
      → CopiesOnWrite pte flags
      → m.mapcounts pte.pfn ≤ 1
      → r ≡ some (true, m')
      → Unshares vpn pte m m' lost
      → Faults vpn flags m lost r
  -- The frame is shared: the page moves to the free frame of the smallest number.
  copies :
      (pte : Pte) (f : ℕ) (m' : Machine)
      → mapping vpn m.current.pagetable ≡ some pte
      → CopiesOnWrite pte flags
      → 1 < m.mapcounts pte.pfn
      → m.mapcounts f ≡ 0
      → r ≡ some (true, m')
      → Maps vpn 3 f (unmap_frame pte.pfn m) m' lost
      → Faults vpn flags m lost r
  -- The frame is shared and no frame is free: success is reported, one mapping is uncounted, and
  -- the page is mapped as before.
  miscounts :
      (pte : Pte)
      → mapping vpn m.current.pagetable ≡ some pte
      → CopiesOnWrite pte flags
      → 1 < m.mapcounts pte.pfn
      → ((j : ℕ) → j < nr_pageframes → (unmap_frame pte.pfn m).mapcounts j ≢ 0)
      → r ≡ some (true, unmap_frame pte.pfn m)
      → Faults vpn flags m lost r

module _ (fresh : Fresh) (vpn flags : ℕ) (m : Machine) (lost : List Process) (page : vpn < 64)
    (s : Sound m lost) where
  module _ (dir : Directory) (pte : Pte)
      (e : get_elem? m.current.pagetable (pd_index vpn) ≡ some (some dir))
      (e' : get_elem? dir (pte_index vpn) ≡ some pte) (live : pte.valid ≡ true) where
    unmap_frame-Dropped : Dropped vpn (unmap_frame pte.pfn m) lost
    unmap_frame-Dropped = record {
      shape = s.shape;
      shapes = s.shapes;
      counts = λ g.
          rw (e, e')
            (ground (arith, dropped vpn m lost dir pte page s e e' live g, live, s.counts g));
      fits = λ g. omega (arith, dropped vpn m lost dir pte page s e e' live g, s.fits g);
      high = λ g h. omega (arith, dropped vpn m lost dir pte page s e e' live g, s.high g h);
    }

    set_pte-Unshares : Unshares vpn pte m (set_pte vpn dir (record pte { rw = 3 }) m) lost
    set_pte-Unshares = record {
      sound = record {
        shape =
            written-TableShape vpn dir (record pte { rw = 3 }) m.current.pagetable s.shape sixteen;
        shapes = s.shapes;
        counts = λ g. omega (
          arith,
          s.counts g,
          count-written vpn dir (record pte { rw = 3 }) m.current.pagetable g pte e e',
        );
        fits = s.fits;
        high = s.high;
      };
      here =
          mapping-written_self vpn dir (record pte { rw = 3 }) m.current.pagetable
            (omega (arith, s.shape.four)) sixteen
          ∙ rw live;
      elsewhere = λ v n.
          mapping-written_ne vpn dir (record pte { rw = 3 }) m.current.pagetable v (Base.old e)
            (omega (arith, s.shape.four)) n;
      others = refl;
      counted = refl;
      cached = refl;
      root = refl;
    }
      where
        sixteen : length dir ≡ nr_ptes_per_page
        sixteen =
            All-get_elem? PdeShape m.current.pagetable (pd_index vpn) (some dir) s.shape.sixteen e

    module _ (cow : is_copy_on_write pte flags ≡ true) (shared : 1 < m.mapcounts pte.pfn) where
      after_alloc :
          Allocates vpn 3
            (unmap_frame pte.pfn m)
            lost
            (alloc_page fresh vpn 3 (unmap_frame pte.pfn m))
          → Faults vpn flags m lost (copy_on_write fresh vpn dir pte m)
      unfolding copy_on_write
      after_alloc (Allocates.full all q) =
          rw (lt→ltb 1 (m.mapcounts pte.pfn) shared, q)
            (Faults.miscounts pte (rw (e, e', live)) (cow-CopiesOnWrite pte flags cow) shared all
              refl)
      after_alloc (Allocates.taken f m' lt z before q h) =
          rw (lt→ltb 1 (m.mapcounts pte.pfn) shared, q)
            (Faults.copies pte f m' (rw (e, e', live)) (cow-CopiesOnWrite pte flags cow) shared
              unused refl h)
        where
          unused : m.mapcounts f ≡ 0
          unused = ground (arith, dropped vpn m lost dir pte page s e e' live f, z, shared)

    copy_on_write-Faults :
        is_copy_on_write pte flags ≡ true
        → Faults vpn flags m lost (copy_on_write fresh vpn dir pte m)
    unfolding copy_on_write
    copy_on_write-Faults cow = elim (Bool-cases (ltb 1 (m.mapcounts pte.pfn))) [
      | inl many ↦ after_alloc cow (ltb→lt _ _ many) (
          alloc_page-Dropped fresh vpn 3 (unmap_frame pte.pfn m) lost
            (λ q. absurd (ground (arith, sym q ∙ e))) page unmap_frame-Dropped)
      | inr one ↦ rw one (
          Faults.unshares pte _ (rw (e, e', live)) (cow-CopiesOnWrite pte flags cow)
            (ltb→ge _ _ one) refl set_pte-Unshares)
    ]

  fault_pte-Faults :
      (dir : Directory) (pte : Pte)
      → get_elem? m.current.pagetable (pd_index vpn) ≡ some (some dir)
      → get_elem? dir (pte_index vpn) ≡ some pte
      → Faults vpn flags m lost (fault_pte fresh vpn flags dir (some pte) m)
  unfolding fault_pte
  fault_pte-Faults dir pte e e' = elim (Bool-cases pte.valid) [
    | inr dead ↦ rw dead (Faults.refuses_absent (rw (e, e', dead)) refl)
    | inl live ↦ elim (Bool-cases (is_copy_on_write pte flags)) [
      | inl cow ↦
          subst (Faults vpn flags m lost) (sym (if_false _ _ (ap not live) ∙ if_true _ _ cow))
            (copy_on_write-Faults dir pte e e' live cow)
      | inr no_cow ↦
          rw (live, no_cow)
            (Faults.refuses pte (rw (e, e', live))
              (λ c. absurd (ground (arith, no_cow, CopiesOnWrite-cow pte flags c))) refl)
    ]
  ]

  fault_in-Faults :
      (pde : Option Directory)
      → get_elem? m.current.pagetable (pd_index vpn) ≡ some pde
      → Faults vpn flags m lost (fault_in fresh vpn flags (some pde) m)
  unfolding fault_in
  fault_in-Faults none e = Faults.crashes e refl
  fault_in-Faults (some dir) e =
      let sixteen : length dir ≡ nr_ptes_per_page =
        All-get_elem? PdeShape m.current.pagetable (pd_index vpn) (some dir) s.shape.sixteen e in
      let (pte, e') = get_elem?-some dir (pte_index vpn) (omega arith) in
      rw e' (fault_pte-Faults dir pte e e')

pub handle_page_fault-Faults :
    (fresh : Fresh) (vpn flags : ℕ) (m : Machine) (lost : List Process)
    → vpn < 64
    → Sound m lost
    → Faults vpn flags m lost (handle_page_fault fresh vpn flags m)
unfolding handle_page_fault
handle_page_fault-Faults fresh vpn flags m lost page s =
    let (pde, e) =
      get_elem?-some m.current.pagetable (pd_index vpn) (omega (arith, s.shape.four)) in
    rw e (fault_in-Faults fresh vpn flags m lost page s pde e)
