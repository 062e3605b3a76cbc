-- ===== src/Vm/Page.antt =====
-- alloc_page, free_page and handle_page_fault of pa3.c, on the page table of `current`.
--
-- `none` is a fault of the simulator itself: an index outside `pdes`, or a NULL directory that is
-- followed.
use os_pa.Common.{
  ℕ, zero, suc, ◌+◌, Bool, true, false, ◌&&◌, not, Option, none, some, ltb, ◌==◌, if◌then◌else◌,
  get_elem?, set, update, inc32, dec32,
}
use os_pa.Vm.Types.{Pte, Directory, Machine, Fresh, nr_pageframes, access_read, pd_index, pte_index}
use os_pa.Vm.Tlb.{remove_tlb}

-- mapcounts[i]++ and mapcounts[i]--
abbrev pub map_frame : ℕ → Machine → Machine
map_frame i m = record m { mapcounts = update m.mapcounts i (inc32 (m.mapcounts i)) }

abbrev pub unmap_frame : ℕ → Machine → Machine
unmap_frame i m = record m { mapcounts = update m.mapcounts i (dec32 (m.mapcounts i)) }

-- Writes a PTE into a directory of the current process.
abbrev pub set_pte : ℕ → Directory → Pte → Machine → Machine
set_pte vpn dir pte m = record m {
  current = record (m.current) {
    pagetable = set m.current.pagetable (pd_index vpn) (some (set dir (pte_index vpn) pte));
  };
}

-- The first frame from i on, for that many rounds, that nothing maps.
unfoldable pub find_free : ℕ → ℕ → (ℕ → ℕ) → Option ℕ
find_free zero i mapcounts = none
find_free (suc rounds) i mapcounts =
    let rest = find_free rounds (i + 1) mapcounts in if mapcounts i == 0 then some i else rest

abbrev pub mapped_pte : ℕ → ℕ → Pte
mapped_pte rw pfn = record { valid = true; rw = rw; pfn = pfn; private = rw }

-- The body of the loop of alloc_page at the frame that it takes. A missing directory is allocated.
unfoldable pub map_page : Fresh → ℕ → ℕ → ℕ → Option (Option Directory) → Machine → Option Machine
map_page fresh vpn rw pfn none m = none
map_page fresh vpn rw pfn (some none) m =
    some (set_pte vpn (fresh.directory (pd_index vpn)) (mapped_pte rw pfn) m)
map_page fresh vpn rw pfn (some (some dir)) m = some (set_pte vpn dir (mapped_pte rw pfn) m)

-- The frame that is allocated, or `none` for -1.
unfoldable pub alloc_at : Fresh → ℕ → ℕ → Option ℕ → Machine → Option (Option ℕ × Machine)
unfolding map_page
alloc_at fresh vpn rw none m = some (none, m)
alloc_at fresh vpn rw (some pfn) m =
    elim (map_page fresh vpn rw pfn (get_elem? m.current.pagetable (pd_index vpn))
      (map_frame pfn m)) [ none ↦ none | some m' ↦ some (some pfn, m') ]

unfoldable pub alloc_page : Fresh → ℕ → ℕ → Machine → Option (Option ℕ × Machine)
unfolding alloc_at
alloc_page fresh vpn rw m = alloc_at fresh vpn rw (find_free nr_pageframes 0 m.mapcounts) m

abbrev pub unmapped_pte : Pte
unmapped_pte = record { valid = false; rw = 0; pfn = 0; private = 0 }

-- The PTE of a page, in its directory.
unfoldable pub free_pte : ℕ → Directory → Option Pte → Machine → Option Machine
free_pte vpn dir none m = none
free_pte vpn dir (some pte) m =
    if pte.valid
    then some (record (unmap_frame pte.pfn (set_pte vpn dir unmapped_pte m)) {
      tlb = remove_tlb vpn m.tlb;
    })
    else some m

unfoldable pub free_in : ℕ → Option (Option Directory) → Machine → Option Machine
unfolding free_pte
free_in vpn none m = none
free_in vpn (some none) m = some m
free_in vpn (some (some dir)) m = free_pte vpn dir (get_elem? dir (pte_index vpn)) m

unfoldable pub free_page : ℕ → Machine → Option Machine
unfolding free_in
free_page vpn m = free_in vpn (get_elem? m.current.pagetable (pd_index vpn)) m

-- A page that was writable before a fork, is read-only since, and is now written.
abbrev pub is_copy_on_write : Pte → ℕ → Bool
is_copy_on_write pte rw =
    not (pte.private == access_read) && pte.rw == access_read && ltb access_read rw

-- The result of alloc_page is dropped: a full memory is a success too.
unfoldable pub copy_on_write : Fresh → ℕ → Directory → Pte → Machine → Option (Bool × Machine)
unfolding alloc_page
copy_on_write fresh vpn dir pte m =
    if ltb 1 (m.mapcounts pte.pfn)
    then elim (alloc_page fresh vpn 3 (unmap_frame pte.pfn m)) [
      | none ↦ none
      | some (new_pfn, m') ↦ some (true, m')
    ]
    else some (true, set_pte vpn dir (record pte { rw = 3 }) m)

unfoldable pub fault_pte :
    Fresh → ℕ → ℕ → Directory → Option Pte → Machine → Option (Bool × Machine)
unfolding copy_on_write
fault_pte fresh vpn rw dir none m = none
fault_pte fresh vpn rw dir (some pte) m =
    if not pte.valid
    then some (false, m)
    else if is_copy_on_write pte rw
    then copy_on_write fresh vpn dir pte m
    else some (false, m)

-- Without a directory, `pte->valid` is read through NULL before `pte == NULL` is tested.
unfoldable pub fault_in :
    Fresh → ℕ → ℕ → Option (Option Directory) → Machine → Option (Bool × Machine)
unfolding fault_pte
fault_in fresh vpn rw none m = none
fault_in fresh vpn rw (some none) m = none
fault_in fresh vpn rw (some (some dir)) m =
    fault_pte fresh vpn rw dir (get_elem? dir (pte_index vpn)) m

unfoldable pub handle_page_fault : Fresh → ℕ → ℕ → Machine → Option (Bool × Machine)
unfolding fault_in
handle_page_fault fresh vpn rw m =
    fault_in fresh vpn rw (get_elem? m.current.pagetable (pd_index vpn)) m
