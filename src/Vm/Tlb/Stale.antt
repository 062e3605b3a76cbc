-- ===== src/Vm/Tlb/Stale.antt =====
-- A stale entry: insert_tlb fills a free entry although the page has an entry further on.
use os_pa.Common.{
  ℕ, zero, suc, ◌<◌, ◌≡◌, ◌∙◌, true, false, some, List, [], ◌∷◌, ◌++◌, All, length, ◌==◌, arith,
  ==_refl,
}
use os_pa.Vm.Types.{TlbEntry, nr_pageframes}
use os_pa.Vm.Tlb.{filled, lookup_tlb, insert_each, insert_tlb, remove_tlb}

-- A valid entry of another page.
abbrev pub IsOther : ℕ → TlbEntry → Type 0
IsOther vpn t = (t.valid ≡ true) × ((t.vpn == vpn) ≡ false)

insert_each_hole :
    (rounds vpn flags pfn : ℕ) (pre : List TlbEntry) (hole : TlbEntry) (post : List TlbEntry)
    → length pre < rounds
    → All (IsOther vpn) pre
    → hole.valid ≡ false
    → insert_each rounds vpn flags pfn (pre ++ hole ∷ post) ≡ pre ++ filled vpn flags pfn ∷ post
unfolding insert_each
insert_each_hole zero vpn flags pfn pre hole post n h e = absurd (omega arith)
insert_each_hole (suc rounds) vpn flags pfn [] hole post n h e = ground (arith, e)
insert_each_hole (suc rounds) vpn flags pfn (t ∷ pre) hole post n h e =
    ground
      (arith, h.0.0, h.0.1, insert_each_hole rounds vpn flags pfn pre hole post (omega arith) h.1 e)

lookup-remove_hit :
    (vpn r flags pfn : ℕ) (pre post : List TlbEntry)
    → All (IsOther vpn) pre
    → lookup_tlb vpn r (remove_tlb vpn (pre ++ filled vpn flags pfn ∷ post)) ≡ lookup_tlb vpn r post
unfolding lookup_tlb remove_tlb
lookup-remove_hit vpn r flags pfn [] post h = rw (==_refl vpn)
lookup-remove_hit vpn r flags pfn (t ∷ pre) post h =
    ground (arith, h.0.0, h.0.1, lookup-remove_hit vpn r flags pfn pre post h.1)

-- When a free entry stands before the entry that the TLB has for a page, an insertion for the page
-- goes to the free one, and after a removal of the page a lookup still finds the old frame.
pub remove-insert_tlb_stale :
    (vpn r flags pfn old : ℕ) (pre : List TlbEntry) (hole : TlbEntry) (post : List TlbEntry)
    → length pre < nr_pageframes
    → All (IsOther vpn) pre
    → hole.valid ≡ false
    → lookup_tlb vpn r post ≡ some old
    → lookup_tlb vpn r (remove_tlb vpn (insert_tlb vpn flags pfn (pre ++ hole ∷ post))) ≡ some old
unfolding insert_tlb
remove-insert_tlb_stale vpn r flags pfn old pre hole post n h e l =
    rw (insert_each_hole nr_pageframes vpn flags pfn pre hole post n h e)
      (lookup-remove_hit vpn r flags pfn pre post h ∙ l)
