-- ===== src/Vm/Frames/Sound.antt =====
-- The invariant of OS-PA3: every page table has its shape, and `mapcounts` counts the mappings.
use os_pa.Common.{
  ℕ, ◌+◌, ◌≤◌, ◌<◌, ◌≡◌, Option, none, some, List, All, length, u32_mod, get_elem?, if◌then◌else◌,
}
use os_pa.Vm.Types.{
  Pte, Directory, Pagetable, Process, Machine, Fresh, nr_pageframes, nr_ptes_per_page,
  nr_pdes_per_page, pd_index, pte_index,
}
use os_pa.Vm.Frames.Count.{count_table, count_all, AllInvalid}

abbrev pub PdeShape : Option Directory → Type 0
PdeShape none = Unit {0}
PdeShape (some dir) = length dir ≡ nr_ptes_per_page

pub record TableShape (table : Pagetable) : Type 0 where
  pub four : length table ≡ nr_pdes_per_page
  pub sixteen : All PdeShape table

-- The frames that the processes map. `lost` are processes that neither `current` nor `processes`
-- reaches any more, and whose pages were never freed.
pub record Sound (m : Machine) (lost : List Process) : Type 0 where
  pub shape : TableShape m.current.pagetable
  pub shapes : All (λ p. TableShape p.pagetable) m.processes
  pub counts :
      (f : ℕ)
      → m.mapcounts f
        ≡ count_table f m.current.pagetable + count_all f m.processes + count_all f lost
  pub fits : (f : ℕ) → m.mapcounts f < u32_mod
  pub high : (f : ℕ) → nr_pageframes ≤ f → m.mapcounts f ≡ 0

-- The PTE of a page, where its directory exists.
abbrev pub pte_in : ℕ → Option (Option Directory) → Option Pte
pte_in vpn none = none
pte_in vpn (some none) = none
pte_in vpn (some (some dir)) = get_elem? dir (pte_index vpn)

abbrev pub pte_of : ℕ → Pagetable → Option Pte
pte_of vpn table = pte_in vpn (get_elem? table (pd_index vpn))

abbrev pub only_valid : Option Pte → Option Pte
only_valid none = none
only_valid (some pte) = if pte.valid then some pte else none

-- What a page table maps a page to.
abbrev pub mapping : ℕ → Pagetable → Option Pte
mapping vpn table = only_valid (pte_of vpn table)

-- The sizes of what malloc() returns for a directory and for the page table of a process.
pub record Sized (fresh : Fresh) : Type 0 where
  pub full : (i : ℕ) → length (fresh.directory i) ≡ nr_ptes_per_page
  pub four : length fresh.pdes ≡ nr_pdes_per_page

-- If the page has no directory, the memory that malloc() returns for one has its size
-- and no valid entry.
abbrev pub CleanPage : Fresh → ℕ → Pagetable → Type 0
CleanPage fresh vpn table =
    get_elem? table (pd_index vpn) ≡ some none
    → AllInvalid (fresh.directory (pd_index vpn))
      × (length (fresh.directory (pd_index vpn)) ≡ nr_ptes_per_page)

abbrev pub NoneValid : Fresh → ℕ → Type 0
NoneValid fresh n = (i : ℕ) → i < n → AllInvalid (fresh.directory i)

-- The memory that malloc() returns for a fork has no valid entry and no directory.
pub record CleanFork (fresh : Fresh) : Type 0 where
  pub directories : NoneValid fresh 4
  pub empty : All (λ pde. pde ≡ none) fresh.pdes
