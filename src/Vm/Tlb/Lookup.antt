-- ===== src/Vm/Tlb/Lookup.antt =====
-- What a lookup in the TLB finds after an insertion, a removal and a flush.
use os_pa.Common.{
  ℕ, zero, suc, ◌≤◌, ◌≡◌, ◌≢◌, refl, false, ◌||◌, not, none, some, List, [], ◌∷◌, if◌then◌else◌,
  arith,
}
use os_pa.Vm.Types.{TlbEntry, nr_pageframes}
use os_pa.Vm.Tlb.{matches, lookup_tlb, insert_each, insert_tlb, remove_tlb, flush_each, flush_tlb}

-- One of the first `rounds` entries belongs to the page or is free.
abbrev pub HasRoom : ℕ → ℕ → List TlbEntry → Type 0
HasRoom zero vpn tlb = ⊥
HasRoom (suc rounds) vpn [] = ⊥
HasRoom (suc rounds) vpn (t ∷ tlb) =
    if matches vpn t || not t.valid then Unit {0} else HasRoom rounds vpn tlb

lookup-insert_each_self :
    (rounds vpn r flags pfn : ℕ) (tlb : List TlbEntry)
    → HasRoom rounds vpn tlb
    → r ≤ flags
    → lookup_tlb vpn r (insert_each rounds vpn flags pfn tlb) ≡ some pfn
unfolding lookup_tlb insert_each
lookup-insert_each_self zero vpn r flags pfn tlb room h = absurd room
lookup-insert_each_self (suc rounds) vpn r flags pfn [] room h = absurd room
lookup-insert_each_self (suc rounds) vpn r flags pfn (t ∷ tlb) room h =
    ground (arith, lookup-insert_each_self rounds vpn r flags pfn tlb)

lookup-insert_each_ne :
    (rounds vpn v r flags pfn : ℕ) (tlb : List TlbEntry)
    → v ≢ vpn
    → lookup_tlb v r (insert_each rounds vpn flags pfn tlb) ≡ lookup_tlb v r tlb
unfolding lookup_tlb insert_each
lookup-insert_each_ne zero vpn v r flags pfn tlb h = refl
lookup-insert_each_ne (suc rounds) vpn v r flags pfn [] h = refl
lookup-insert_each_ne (suc rounds) vpn v r flags pfn (t ∷ tlb) h =
    ground (arith, lookup-insert_each_ne rounds vpn v r flags pfn tlb h)

-- While one of the first NR_PAGEFRAMES entries belongs to the page or is free, a lookup after
-- insert_tlb finds the inserted frame for every access that the inserted flag permits, and every
-- other page is found as before.
pub lookup-insert_tlb :
    (vpn flags pfn : ℕ) (tlb : List TlbEntry)
    → HasRoom nr_pageframes vpn tlb
    → ((r : ℕ) → r ≤ flags → lookup_tlb vpn r (insert_tlb vpn flags pfn tlb) ≡ some pfn)
      × ((v r : ℕ) → v ≢ vpn → lookup_tlb v r (insert_tlb vpn flags pfn tlb) ≡ lookup_tlb v r tlb)
unfolding insert_tlb
lookup-insert_tlb vpn flags pfn tlb room = (
  λ r h. lookup-insert_each_self nr_pageframes vpn r flags pfn tlb room h,
  λ v r h. lookup-insert_each_ne nr_pageframes vpn v r flags pfn tlb h,
)

-- No entry is valid, from the given one on.
abbrev pub EmptyFrom : ℕ → List TlbEntry → Type 0
EmptyFrom n [] = Unit {0}
EmptyFrom zero (t ∷ tlb) = (t.valid ≡ false) × EmptyFrom zero tlb
EmptyFrom (suc n) (t ∷ tlb) = EmptyFrom n tlb

insert_each-EmptyFrom :
    (n vpn flags pfn : ℕ) (tlb : List TlbEntry)
    → EmptyFrom n tlb
    → EmptyFrom n (insert_each n vpn flags pfn tlb)
unfolding insert_each
insert_each-EmptyFrom zero vpn flags pfn tlb h = h
insert_each-EmptyFrom (suc n) vpn flags pfn [] h = tt
insert_each-EmptyFrom (suc n) vpn flags pfn (t ∷ tlb) h =
    ground (arith, insert_each-EmptyFrom n vpn flags pfn tlb h)

remove_tlb-EmptyFrom :
    (n vpn : ℕ) (tlb : List TlbEntry) → EmptyFrom n tlb → EmptyFrom n (remove_tlb vpn tlb)
unfolding remove_tlb
remove_tlb-EmptyFrom n vpn [] h = tt
remove_tlb-EmptyFrom zero vpn (t ∷ tlb) h = ground (arith, remove_tlb-EmptyFrom zero vpn tlb h.1)
remove_tlb-EmptyFrom (suc n) vpn (t ∷ tlb) h = ground (arith, remove_tlb-EmptyFrom n vpn tlb h)

lookup-EmptyFrom :
    (vpn r : ℕ) (tlb : List TlbEntry) → EmptyFrom zero tlb → lookup_tlb vpn r tlb ≡ none
unfolding lookup_tlb
lookup-EmptyFrom vpn r [] h = refl
lookup-EmptyFrom vpn r (t ∷ tlb) h = ground (arith, lookup-EmptyFrom vpn r tlb h.1)

flush_each-EmptyFrom :
    (n : ℕ) (tlb : List TlbEntry) → EmptyFrom n tlb → EmptyFrom zero (flush_each n tlb)
unfolding flush_each
flush_each-EmptyFrom zero tlb h = h
flush_each-EmptyFrom (suc n) [] h = tt
flush_each-EmptyFrom (suc n) (t ∷ tlb) h = (refl, flush_each-EmptyFrom n tlb h)

-- The loops of insert_tlb and of the flush stop at NR_PAGEFRAMES, below NR_TLB_ENTRIES. That is
-- sound: insertions and removals keep every entry from NR_PAGEFRAMES on invalid, and while they are
-- invalid nothing at all is found after a flush.
pub flush_tlb_complete :
    (tlb : List TlbEntry)
    → EmptyFrom nr_pageframes tlb
    → ((vpn flags pfn : ℕ) → EmptyFrom nr_pageframes (insert_tlb vpn flags pfn tlb))
      × ((vpn : ℕ) → EmptyFrom nr_pageframes (remove_tlb vpn tlb))
      × ((vpn r : ℕ) → lookup_tlb vpn r (flush_tlb tlb) ≡ none)
unfolding insert_tlb flush_tlb
flush_tlb_complete tlb h = (
  λ vpn flags pfn. insert_each-EmptyFrom nr_pageframes vpn flags pfn tlb h,
  λ vpn. remove_tlb-EmptyFrom nr_pageframes vpn tlb h,
  λ vpn r. lookup-EmptyFrom vpn r _ (flush_each-EmptyFrom nr_pageframes tlb h),
)
