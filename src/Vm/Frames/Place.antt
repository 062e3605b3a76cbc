-- ===== src/Vm/Frames/Place.antt =====
-- alloc_page with whatever malloc() leaves in a new directory.
use os_pa.Common.{
  ℕ, ◌<◌, ◌≡◌, ◌≢◌, refl, Option, none, some, List, get_elem?, ◌==◌, if◌then◌else◌, arith, ◌∙◌, sym,
}
use os_pa.Vm.Types.{Directory, Process, Machine, Fresh, pd_index, pte_index, nr_pageframes}
use os_pa.Vm.Page.{map_frame, set_pte, mapped_pte, map_page, alloc_at, alloc_page}
use os_pa.Vm.Frames.Count.{get_elem?-some}
use os_pa.Vm.Frames.Sound.{Sound, only_valid, mapping, Sized}
use os_pa.Vm.Frames.Write.{mapping-written_self, mapping-written_far, mapping-written_beside}
use os_pa.Vm.Frames.Alloc.{Maps, Allocates, alloc_page-Allocates, Scanned, find_free-Scanned}

-- The page has a new directory. Its other pages are what malloc() left in it: a valid entry is a
-- mapping that nothing counts.
pub record MapsNew (fresh : Fresh) (vpn flags f : ℕ) (m m' : Machine) : Type 0 where
  pub here : mapping vpn m'.current.pagetable ≡ some (mapped_pte flags f)
  pub beside :
      (v : ℕ)
      → v ≢ vpn
      → pd_index v ≡ pd_index vpn
      → mapping v m'.current.pagetable
        ≡ only_valid (get_elem? (fresh.directory (pd_index vpn)) (pte_index v))
  pub elsewhere :
      (v : ℕ)
      → pd_index v ≢ pd_index vpn
      → mapping v m'.current.pagetable ≡ mapping v m.current.pagetable
  pub others : m'.processes ≡ m.processes
  pub counted : (g : ℕ) → m'.mapcounts g ≡ (if f == g then 1 else m.mapcounts g)
  pub cached : m'.tlb ≡ m.tlb

-- The frame is the free one of the smallest number.
pub record FirstFree (f : ℕ) (m : Machine) : Type 0 where
  pub frame : f < nr_pageframes
  pub free : m.mapcounts f ≡ 0
  pub least : (j : ℕ) → j < f → m.mapcounts j ≢ 0

-- The outcomes: -1 with every frame mapped and nothing changed, or a frame for the page, in the
-- directory that it has or in a new one.
pub data Places (fresh : Fresh) (vpn flags : ℕ) (m : Machine) (lost : List Process)
    (r : Option (Option ℕ × Machine)) : Type 0 where
  full :
      ((j : ℕ) → j < nr_pageframes → m.mapcounts j ≢ 0)
      → r ≡ some (none, m)
      → Places fresh vpn flags m lost r
  in_old :
      (dir : Directory) (f : ℕ) (m' : Machine)
      → get_elem? m.current.pagetable (pd_index vpn) ≡ some (some dir)
      → FirstFree f m
      → r ≡ some (some f, m')
      → Maps vpn flags f m m' lost
      → Places fresh vpn flags m lost r
  in_new :
      (f : ℕ) (m' : Machine)
      → get_elem? m.current.pagetable (pd_index vpn) ≡ some none
      → FirstFree f m
      → r ≡ some (some f, m')
      → MapsNew fresh vpn flags f m m'
      → Places fresh vpn flags m lost r

module _ (fresh : Fresh) (vpn flags : ℕ) (m : Machine) (lost : List Process) (sized : Sized fresh)
    (page : vpn < 64) (s : Sound m lost) where
  old_directory :
      (dir : Directory) (r : Option (Option ℕ × Machine))
      → get_elem? m.current.pagetable (pd_index vpn) ≡ some (some dir)
      → Allocates vpn flags m lost r
      → Places fresh vpn flags m lost r
  old_directory dir r e (Allocates.full all q) = Places.full all q
  old_directory dir r e (Allocates.taken f m' frame free least q k) =
      Places.in_old dir f m' e (record { frame = frame; free = free; least = least }) q k

  new_directory :
      (r : Option ℕ)
      → get_elem? m.current.pagetable (pd_index vpn) ≡ some none
      → Scanned nr_pageframes 0 m.mapcounts r
      → Places fresh vpn flags m lost (alloc_at fresh vpn flags r m)
  unfolding alloc_at map_page
  new_directory r e (Scanned.full q all) =
      rw q (Places.full (λ j h. all j (omega arith) (omega arith)) refl)
  new_directory r e (Scanned.found f q lo hi z before) =
      let dir = fresh.directory (pd_index vpn) in
      let four : pd_index vpn < 4 = omega (arith, page) in
      rw (q, alloc_at, e)
        (Places.in_new f (set_pte vpn dir (mapped_pte flags f) (map_frame f m)) e
          (record { frame = omega arith; free = z; least = λ j b. before j (omega arith) b }) refl
          (record {
            here =
                mapping-written_self vpn dir (mapped_pte flags f) m.current.pagetable
                  (omega (arith, four, s.shape.four)) (sized.full (pd_index vpn));
            beside = λ v n k.
                mapping-written_beside vpn dir (mapped_pte flags f) m.current.pagetable v
                  (omega (arith, four, s.shape.four)) n k;
            elsewhere =
                λ v n. mapping-written_far vpn dir (mapped_pte flags f) m.current.pagetable v n;
            others = refl;
            counted = λ g. ground (arith, z);
            cached = refl;
          }))

-- On a sound machine whose current process does not map the page, and with memory of the right
-- size from malloc(), alloc_page returns -1 and changes nothing when every frame is mapped; else
-- it maps the free frame of the smallest number at the page, and only the map count of that frame
-- changes. In a directory that exists, the machine stays sound and the other pages stay as they
-- were. In a new directory, each other page is what malloc() left there, a mapping that nothing
-- counts if its entry says that it is valid; the pages of other directories stay as they were.
pub alloc_page-Places :
    (fresh : Fresh) (vpn flags : ℕ) (m : Machine) (lost : List Process)
    → Sized fresh
    → vpn < 64
    → Sound m lost
    → mapping vpn m.current.pagetable ≡ none
    → Places fresh vpn flags m lost (alloc_page fresh vpn flags m)
unfolding alloc_page
alloc_page-Places fresh vpn flags m lost sized page s h =
    let (pde, e) =
      get_elem?-some m.current.pagetable (pd_index vpn) (omega (arith, page, s.shape.four)) in
    place pde e
  where
    place :
        (pde : Option Directory)
        → get_elem? m.current.pagetable (pd_index vpn) ≡ some pde
        → Places fresh vpn flags m lost (alloc_page fresh vpn flags m)
    place none e =
        new_directory fresh vpn flags m lost sized page s _ e
          (find_free-Scanned nr_pageframes 0 m.mapcounts)
    place (some dir) e = old_directory fresh vpn flags m lost sized page s dir _ e (
        alloc_page-Allocates fresh vpn flags m lost (λ q. absurd (ground (arith, sym q ∙ e))) page s
          h)
