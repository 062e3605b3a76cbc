-- ===== src/Vm/Types.antt =====
-- The data of OS-PA3: vm.h and the globals of vm.c.
--
-- No two processes share a page directory, so a page table is a value: four entries, NULL or a
-- directory of sixteen PTEs. `ptbr` is NULL at first, and whenever it is set it is set to the page
-- table of `current`; the Boolean says that it is set. `mapcounts` is read by frame number.
use os_pa.Common.{ℕ, ◌/◌, ◌%◌, Bool, Option, List, ◌==◌}

-- struct pte
pub record Pte : Type 0 where
  pub valid : Bool
  pub rw : ℕ
  pub pfn : ℕ
  pub private : ℕ

-- struct pte_directory and struct pagetable
abbrev pub Directory : Type 0
Directory = List Pte

abbrev pub Pagetable : Type 0
Pagetable = List (Option Directory)

-- struct process
pub record Process : Type 0 where
  pub pid : ℕ
  pub pagetable : Pagetable

-- struct tlb_entry
pub record TlbEntry : Type 0 where
  pub valid : Bool
  pub rw : ℕ
  pub vpn : ℕ
  pub pfn : ℕ
  pub private : ℕ

pub record Machine : Type 0 where
  pub current : Process
  pub processes : List Process
  pub ptbr : Bool
  pub mapcounts : ℕ → ℕ
  pub tlb : List TlbEntry
  pub print_tlb_result : Bool

abbrev pub nr_pageframes : ℕ
nr_pageframes = 128

abbrev pub nr_ptes_per_page : ℕ
nr_ptes_per_page = 16

abbrev pub nr_pdes_per_page : ℕ
nr_pdes_per_page = 4

abbrev pub nr_tlb_entries : ℕ
nr_tlb_entries = 256

abbrev pub access_read : ℕ
access_read = 1

abbrev pub access_write : ℕ
access_write = 2

-- rw & ACCESS_READ and rw & ACCESS_WRITE
abbrev pub has_read : ℕ → Bool
has_read rw = rw % 2 == 1

abbrev pub has_write : ℕ → Bool
has_write rw = rw / 2 % 2 == 1

-- The two indices of a virtual page number.
abbrev pub pd_index : ℕ → ℕ
pd_index vpn = vpn / nr_ptes_per_page

abbrev pub pte_index : ℕ → ℕ
pte_index vpn = vpn % nr_ptes_per_page

-- What malloc() returns is not cleared: the content of the directories and of the page table of a
-- new process is given with each call that allocates them.
pub record Fresh : Type 0 where
  pub directory : ℕ → Directory
  pub pdes : Pagetable
