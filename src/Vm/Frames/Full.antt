-- ===== src/Vm/Frames/Full.antt =====
-- Copy-on-write when memory is full.
use os_pa.Common.{
  ℕ, ◌≤◌, ◌<◌, ◌≡◌, ◌≢◌, sym, ap, ◌∙◌, true, not, none, some, lt→ltb, ge→ltb, ◌==◌, ==→eq,
  Bool-cases, if_true, if_false, update_self, dec32, get_elem?, inl, inr, arith,
}
use os_pa.Vm.Types.{Pte, Directory, Machine, Fresh, pd_index, pte_index, nr_pageframes}
use os_pa.Vm.Page.{
  unmap_frame, set_pte, find_free, is_copy_on_write, alloc_at, alloc_page, copy_on_write, fault_pte,
  fault_in, handle_page_fault,
}
use os_pa.Vm.Frames.Alloc.{Scanned, find_free-Scanned}

-- Every frame is mapped.
abbrev pub AllMapped : (ℕ → ℕ) → Type 0
AllMapped mapcounts = (j : ℕ) → j < nr_pageframes → mapcounts j ≢ 0

find_free-full :
    (mapcounts : ℕ → ℕ) → AllMapped mapcounts → find_free nr_pageframes 0 mapcounts ≡ none
find_free-full mapcounts full = elim (find_free-Scanned nr_pageframes 0 mapcounts) [
  | Scanned.found f e lo hi z before ↦ absurd (full f (omega (arith, hi)) z)
  | Scanned.full e all ↦ e
]

alloc_page-full :
    (fresh : Fresh) (vpn flags : ℕ) (m : Machine)
    → AllMapped m.mapcounts
    → alloc_page fresh vpn flags m ≡ some (none, m)
unfolding alloc_page alloc_at
alloc_page-full fresh vpn flags m full =
    ap (λ o. alloc_at fresh vpn flags o m) (find_free-full m.mapcounts full)

module _ (fresh : Fresh) (vpn flags : ℕ) (m : Machine) (dir : Directory) (pte : Pte)
    (e : get_elem? m.current.pagetable (pd_index vpn) ≡ some (some dir))
    (e' : get_elem? dir (pte_index vpn) ≡ some pte) (live : pte.valid ≡ true)
    (cow : is_copy_on_write pte flags ≡ true) where
  handle_page_fault-copy_on_write :
      handle_page_fault fresh vpn flags m ≡ copy_on_write fresh vpn dir pte m
  unfolding handle_page_fault fault_in fault_pte
  handle_page_fault-copy_on_write =
      ap (λ o. fault_in fresh vpn flags o m) e
      ∙ ap (λ o. fault_pte fresh vpn flags dir o m) e'
      ∙ if_false _ _ (ap not live)
      ∙ if_true _ _ cow

copy_on_write-full :
    (fresh : Fresh) (vpn : ℕ) (dir : Directory) (pte : Pte) (m : Machine)
    → 1 < m.mapcounts pte.pfn
    → AllMapped (unmap_frame pte.pfn m).mapcounts
    → copy_on_write fresh vpn dir pte m ≡ some (true, unmap_frame pte.pfn m)
unfolding copy_on_write
copy_on_write-full fresh vpn dir pte m shared full =
    if_true _ _ (lt→ltb 1 (m.mapcounts pte.pfn) shared)
    ∙ ap (λ o. elim o [ none ↦ none | some (new_pfn, m') ↦ some (true, m') ])
        (alloc_page-full fresh vpn 3 (unmap_frame pte.pfn m) full)

copy_on_write-alone :
    (fresh : Fresh) (vpn : ℕ) (dir : Directory) (pte : Pte) (m : Machine)
    → m.mapcounts pte.pfn ≤ 1
    → copy_on_write fresh vpn dir pte m ≡ some (true, set_pte vpn dir (record pte { rw = 3 }) m)
unfolding copy_on_write
copy_on_write-alone fresh vpn dir pte m few = if_false _ _ (ge→ltb 1 (m.mapcounts pte.pfn) few)

-- On a machine where every frame is mapped, let a page under copy-on-write share its frame with one
-- other mapping. The first write fault reports success, with the page mapped as before and the map
-- count of the frame at one. The second reports success too and makes the page writable on the
-- shared frame; the other mapping is left as it is.
pub handle_page_fault_twice :
    (fresh : Fresh) (vpn flags : ℕ) (m : Machine) (dir : Directory) (pte : Pte)
    → get_elem? m.current.pagetable (pd_index vpn) ≡ some (some dir)
    → get_elem? dir (pte_index vpn) ≡ some pte
    → pte.valid ≡ true
    → is_copy_on_write pte flags ≡ true
    → m.mapcounts pte.pfn ≡ 2
    → AllMapped m.mapcounts
    → let t = unmap_frame pte.pfn m in
      (handle_page_fault fresh vpn flags m ≡ some (true, t))
      × (t.mapcounts pte.pfn ≡ 1)
      × (handle_page_fault fresh vpn flags t
          ≡ some (true, set_pte vpn dir (record pte { rw = 3 }) t))
handle_page_fault_twice fresh vpn flags m dir pte e e' live cow two full =
    let t = unmap_frame pte.pfn m in
    let one : t.mapcounts pte.pfn ≡ 1 =
      update_self m.mapcounts pte.pfn (dec32 (m.mapcounts pte.pfn)) ∙ ap dec32 two in
    (
      handle_page_fault-copy_on_write fresh vpn flags m dir pte e e' live cow
          ∙ copy_on_write-full fresh vpn dir pte m (omega (arith, two)) (still_full one),
      one,
      handle_page_fault-copy_on_write fresh vpn flags t dir pte e e' live cow
          ∙ copy_on_write-alone fresh vpn dir pte t (omega (arith, one)),
    )
  where
    still_full :
        ((unmap_frame pte.pfn m).mapcounts pte.pfn ≡ 1)
        → AllMapped (unmap_frame pte.pfn m).mapcounts
    still_full one j frame z = elim (Bool-cases (pte.pfn == j)) [
      | inl same ↦
          omega (arith, one, z, ap (unmap_frame pte.pfn m).mapcounts (==→eq pte.pfn j same))
      | inr other ↦ full j frame (sym (if_false _ _ other) ∙ z)
    ]
