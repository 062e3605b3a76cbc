-- ===== src/Vm/Frames/Alloc.antt =====
-- alloc_page takes the free frame with the smallest number, and keeps the invariant.
use os_pa.Common.{
  ℕ, zero, suc, ◌+◌, ◌≤◌, ◌<◌, ◌≡◌, ◌≢◌, refl, subst, inl, inr, Option, none, some, List, All,
  length, get_elem?, u32_mod, ◌==◌, if◌then◌else◌, arith, Bool-cases, ==→eq, ==→ne,
}
use os_pa.Vm.Types.{
  Pte, Directory, Process, Machine, Fresh, pd_index, pte_index, nr_pageframes, nr_ptes_per_page,
}
use os_pa.Vm.Page.{map_frame, set_pte, find_free, mapped_pte, map_page, alloc_at, alloc_page}
use os_pa.Vm.Frames.Count.{count_pte, count_table, count_all, get_elem?-some, All-get_elem?}
use os_pa.Vm.Frames.Sound.{PdeShape, TableShape, Sound, pte_of, only_valid, mapping, CleanPage}
use os_pa.Vm.Frames.Write.{
  written, written-TableShape, count-written, count-written_new, Base, mapping-written_self,
  mapping-written_ne,
}

-- The loop finds the first frame that nothing maps, or none of those that it looks at is free.
pub data Scanned (n i : ℕ) (mapcounts : ℕ → ℕ) (r : Option ℕ) : Type 0 where
  found :
      (f : ℕ)
      → r ≡ some f
      → i ≤ f
      → f < i + n
      → mapcounts f ≡ 0
      → ((j : ℕ) → i ≤ j → j < f → mapcounts j ≢ 0)
      → Scanned n i mapcounts r
  full : r ≡ none → ((j : ℕ) → i ≤ j → j < i + n → mapcounts j ≢ 0) → Scanned n i mapcounts r

scan_further :
    (n i : ℕ) (mapcounts : ℕ → ℕ) (r : Option ℕ)
    → mapcounts i ≢ 0
    → Scanned n (i + 1) mapcounts r
    → Scanned (suc n) i mapcounts r
scan_further n i mapcounts r h (Scanned.found f e lo hi z before) =
    Scanned.found f e (omega arith) (omega arith) z λ j a b. elim (Bool-cases (j == i)) [
      | inl q ↦ λ w. h (subst (λ k. mapcounts k ≡ 0) (==→eq _ _ q) w)
      | inr q ↦ let q' = ==→ne _ _ q in before j (omega arith) b
    ]
scan_further n i mapcounts r h (Scanned.full e all) = Scanned.full e λ j a b.
    elim (Bool-cases (j == i)) [
      | inl q ↦ λ w. h (subst (λ k. mapcounts k ≡ 0) (==→eq _ _ q) w)
      | inr q ↦ let q' = ==→ne _ _ q in all j (omega arith) (omega arith)
    ]

pub find_free-Scanned :
    (n i : ℕ) (mapcounts : ℕ → ℕ) → Scanned n i mapcounts (find_free n i mapcounts)
unfolding find_free
find_free-Scanned zero i mapcounts = Scanned.full refl λ j a b. absurd (omega arith)
find_free-Scanned (suc n) i mapcounts = elim (Bool-cases (mapcounts i == 0)) [
  | inl z ↦ rw z (
      Scanned.found i refl (omega arith) (omega arith) (==→eq _ _ z)
        (λ j a b. absurd (omega arith)))
  | inr z ↦
      rw z (scan_further n i mapcounts _ (==→ne _ _ z) (find_free-Scanned n (i + 1) mapcounts))
]

-- The frame of the PTE that a page has at the moment, if that is valid.
abbrev pub count_old : ℕ → Option Pte → ℕ
count_old f none = 0
count_old f (some pte) = count_pte f pte

-- The invariant, except that the count of the page's own old frame is already dropped.
pub record Dropped (vpn : ℕ) (m : Machine) (lost : List Process) : Type 0 where
  pub shape : TableShape m.current.pagetable
  pub shapes : All (λ p. TableShape p.pagetable) m.processes
  pub counts :
      (f : ℕ)
      → m.mapcounts f + count_old f (pte_of vpn m.current.pagetable)
        ≡ count_table f m.current.pagetable + count_all f m.processes + count_all f lost
  pub fits : (f : ℕ) → m.mapcounts f < u32_mod
  pub high : (f : ℕ) → nr_pageframes ≤ f → m.mapcounts f ≡ 0

-- The frame is mapped at the page, and nowhere else is anything changed.
pub record Maps (vpn flags f : ℕ) (m m' : Machine) (lost : List Process) : Type 0 where
  pub sound : Sound m' lost
  pub here : mapping vpn m'.current.pagetable ≡ some (mapped_pte flags f)
  pub elsewhere : (v : ℕ) → v ≢ vpn → mapping v m'.current.pagetable ≡ mapping v m.current.pagetable
  pub others : m'.processes ≡ m.processes
  pub counted : (g : ℕ) → m'.mapcounts g ≡ (if f == g then 1 else m.mapcounts g)
  pub cached : m'.tlb ≡ m.tlb
  pub root : m'.ptbr ≡ m.ptbr

module _ (vpn flags f : ℕ) (m : Machine) (lost : List Process) (dir : Directory) (page : vpn < 64)
    (frame : f < nr_pageframes) (free : m.mapcounts f ≡ 0) (d : Dropped vpn m lost)
    (sixteen : length dir ≡ nr_ptes_per_page)
    (base : Base vpn dir (mapped_pte flags f) m.current.pagetable) where
  place : Machine
  place = set_pte vpn dir (mapped_pte flags f) (map_frame f m)

  count_place :
      Base vpn dir (mapped_pte flags f) m.current.pagetable
      → (g : ℕ)
      → count_table g (written vpn dir (mapped_pte flags f) m.current.pagetable)
          + count_old g (pte_of vpn m.current.pagetable)
        ≡ count_table g m.current.pagetable + count_pte g (mapped_pte flags f)
  count_place (Base.old e) g =
      let (old, e') = get_elem?-some dir (pte_index vpn) (omega arith) in
      rw (e, e') (count-written vpn dir (mapped_pte flags f) m.current.pagetable g old e e')
  count_place (Base.new e z) g = rw e (
      omega
        (arith, count-written_new vpn dir (mapped_pte flags f) m.current.pagetable g e z sixteen))

  place-Maps : Maps vpn flags f m place lost
  unfolding place
  place-Maps = record {
    sound = record {
      shape = written-TableShape vpn dir (mapped_pte flags f) m.current.pagetable d.shape sixteen;
      shapes = d.shapes;
      counts = λ g. ground (arith, count_place base g, d.counts g, free);
      fits = λ g. ground (arith, d.fits g, free);
      high = λ g h. ground (arith, d.high g h);
    };
    here =
        mapping-written_self vpn dir (mapped_pte flags f) m.current.pagetable
          (omega (arith, d.shape.four)) sixteen;
    elsewhere = λ v n.
        mapping-written_ne vpn dir (mapped_pte flags f) m.current.pagetable v base
          (omega (arith, d.shape.four)) n;
    others = refl;
    counted = λ g. ground (arith, free);
    cached = refl;
    root = refl;
  }

module _ (fresh : Fresh) (vpn flags f : ℕ) (m : Machine) (lost : List Process)
    (clean : CleanPage fresh vpn m.current.pagetable) (page : vpn < 64) (frame : f < nr_pageframes)
    (free : m.mapcounts f ≡ 0) (d : Dropped vpn m lost) where
  map_at :
      (pde : Option Directory)
      → get_elem? m.current.pagetable (pd_index vpn) ≡ some pde
      → (m' : Machine) × (map_page fresh vpn flags f (some pde) (map_frame f m) ≡ some m')
        × Maps vpn flags f m m' lost
  unfolding map_page place
  map_at none e = (
    _,
    refl,
    place-Maps vpn flags f m lost (fresh.directory (pd_index vpn)) page frame free d (clean e).1
        (Base.new e (clean e).0),
  )
  map_at (some dir) e = (
    _,
    refl,
    place-Maps vpn flags f m lost dir page frame free d
        (All-get_elem? PdeShape m.current.pagetable (pd_index vpn) (some dir) d.shape.sixteen e)
        (Base.old e),
  )

  pub map_page-Maps :
      (m' : Machine) × (map_page fresh vpn flags f
          (get_elem? m.current.pagetable (pd_index vpn))
          (map_frame f m)
        ≡ some m')
      × Maps vpn flags f m m' lost
  map_page-Maps =
      let (pde, e) =
        get_elem?-some m.current.pagetable (pd_index vpn) (omega (arith, d.shape.four)) in
      rw e (map_at pde e)

-- The outcomes of an allocation: -1 with every frame mapped and nothing changed, or the free frame
-- of the smallest number, mapped at the page.
pub data Allocates (vpn flags : ℕ) (m : Machine) (lost : List Process)
    (r : Option (Option ℕ × Machine)) : Type 0 where
  full :
      ((j : ℕ) → j < nr_pageframes → m.mapcounts j ≢ 0)
      → r ≡ some (none, m)
      → Allocates vpn flags m lost r
  taken :
      (f : ℕ) (m' : Machine)
      → f < nr_pageframes
      → m.mapcounts f ≡ 0
      → ((j : ℕ) → j < f → m.mapcounts j ≢ 0)
      → r ≡ some (some f, m')
      → Maps vpn flags f m m' lost
      → Allocates vpn flags m lost r

module _ (fresh : Fresh) (vpn flags : ℕ) (m : Machine) (lost : List Process)
    (clean : CleanPage fresh vpn m.current.pagetable) (page : vpn < 64)
    (d : Dropped vpn m lost) where
  alloc_at-Allocates :
      (r : Option ℕ)
      → Scanned nr_pageframes 0 m.mapcounts r
      → Allocates vpn flags m lost (alloc_at fresh vpn flags r m)
  unfolding alloc_at
  alloc_at-Allocates r (Scanned.full e all) =
      rw e (Allocates.full (λ j h. all j (omega arith) (omega arith)) refl)
  alloc_at-Allocates r (Scanned.found f e lo hi z before) =
      let (m', e', h) = map_page-Maps fresh vpn flags f m lost clean page (omega arith) z d in
      rw (e, alloc_at, e')
        (Allocates.taken f m' (omega arith) z (λ j b. before j (omega arith) b) refl h)

  pub alloc_page-Dropped : Allocates vpn flags m lost (alloc_page fresh vpn flags m)
  unfolding alloc_page
  alloc_page-Dropped = alloc_at-Allocates _ (find_free-Scanned nr_pageframes 0 m.mapcounts)

-- A page that is not mapped has no count to drop.
count_unmapped : (f : ℕ) (o : Option Pte) → only_valid o ≡ none → count_old f o ≡ 0
count_unmapped f none h = refl
count_unmapped f (some pte) h = ground (arith, h)

Sound-Dropped :
    (vpn : ℕ) (m : Machine) (lost : List Process)
    → mapping vpn m.current.pagetable ≡ none
    → Sound m lost
    → Dropped vpn m lost
Sound-Dropped vpn m lost h s = record {
  shape = s.shape;
  shapes = s.shapes;
  counts = λ f. omega (arith, s.counts f, count_unmapped f (pte_of vpn m.current.pagetable) h);
  fits = s.fits;
  high = s.high;
}

pub alloc_page-Allocates :
    (fresh : Fresh) (vpn flags : ℕ) (m : Machine) (lost : List Process)
    → CleanPage fresh vpn m.current.pagetable
    → vpn < 64
    → Sound m lost
    → mapping vpn m.current.pagetable ≡ none
    → Allocates vpn flags m lost (alloc_page fresh vpn flags m)
alloc_page-Allocates fresh vpn flags m lost clean page s h =
    alloc_page-Dropped fresh vpn flags m lost clean page (Sound-Dropped vpn m lost h s)
