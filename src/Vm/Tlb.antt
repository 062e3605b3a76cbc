-- ===== src/Vm/Tlb.antt =====
-- The TLB of OS-PA3: lookup_tlb and insert_tlb of pa3.c, the removal in free_page and the flush in
-- switch_process.
pub mod Lookup
pub mod Stale
use os_pa.Common.{
  ℕ, zero, suc, Bool, true, false, ◌&&◌, not, Option, none, some, List, [], ◌∷◌, leb, ◌==◌,
  if◌then◌else◌,
}
use os_pa.Vm.Types.{TlbEntry, nr_pageframes}

abbrev pub matches : ℕ → TlbEntry → Bool
matches vpn t = t.valid && t.vpn == vpn

-- The loop over all entries: the first that matches and permits the access.
unfoldable pub lookup_tlb : ℕ → ℕ → List TlbEntry → Option ℕ
lookup_tlb vpn rw [] = none
lookup_tlb vpn rw (t ∷ tlb) =
    if matches vpn t
    then if leb rw t.rw then some t.pfn else lookup_tlb vpn rw tlb
    else lookup_tlb vpn rw tlb

-- An entry for the page is updated, a free one is filled.
abbrev pub updated : ℕ → ℕ → TlbEntry → TlbEntry
updated rw pfn t = record t { pfn = pfn; rw = rw }

abbrev pub filled : ℕ → ℕ → ℕ → TlbEntry
filled vpn rw pfn = record { valid = true; rw = rw; vpn = vpn; pfn = pfn; private = rw }

-- The loop over the first `rounds` entries, which stops at one that it updates or fills.
unfoldable pub insert_each : ℕ → ℕ → ℕ → ℕ → List TlbEntry → List TlbEntry
insert_each zero vpn rw pfn tlb = tlb
insert_each (suc rounds) vpn rw pfn [] = []
insert_each (suc rounds) vpn rw pfn (t ∷ tlb) =
    if matches vpn t
    then updated rw pfn t ∷ tlb
    else if not t.valid
    then filled vpn rw pfn ∷ tlb
    else t ∷ insert_each rounds vpn rw pfn tlb

-- The source's bound is NR_PAGEFRAMES, not NR_TLB_ENTRIES.
unfoldable pub insert_tlb : ℕ → ℕ → ℕ → List TlbEntry → List TlbEntry
unfolding insert_each
insert_tlb vpn rw pfn tlb = insert_each nr_pageframes vpn rw pfn tlb

abbrev pub cleared : TlbEntry
cleared = record { valid = false; rw = 0; vpn = 0; pfn = 0; private = 0 }

-- The loop of free_page: the first entry of the page is cleared.
unfoldable pub remove_tlb : ℕ → List TlbEntry → List TlbEntry
remove_tlb vpn [] = []
remove_tlb vpn (t ∷ tlb) = if matches vpn t then cleared ∷ tlb else t ∷ remove_tlb vpn tlb

-- The loop of switch_process over the first `rounds` entries.
unfoldable pub flush_each : ℕ → List TlbEntry → List TlbEntry
flush_each zero tlb = tlb
flush_each (suc rounds) [] = []
flush_each (suc rounds) (t ∷ tlb) = record t { valid = false } ∷ flush_each rounds tlb

unfoldable pub flush_tlb : List TlbEntry → List TlbEntry
unfolding flush_each
flush_tlb tlb = flush_each nr_pageframes tlb
