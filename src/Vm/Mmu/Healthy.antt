-- ===== src/Vm/Mmu/Healthy.antt =====
-- A machine in a session, and what a translation does to it.
use os_pa.Common.{
  ℕ, ◌<◌, ◌≡◌, ◌⊎◌, refl, ap, ◌∙◌, inl, inr, Bool, true, false, Option, none, some, List, arith,
  Option-cases, if◌then◌else◌,
}
use os_pa.Vm.Types.{Pte, Process, TlbEntry, Machine, access_read, nr_pageframes}
use os_pa.Vm.Tlb.{lookup_tlb}
use os_pa.Vm.Mmu.{Translation, translate}
use os_pa.Vm.Frames.Exclusive.{Exclusive}
use os_pa.Vm.Frames.Sound.{TableShape, Sound, mapping}
use os_pa.Vm.Mmu.Translate.{answer, with_tlb, translate_miss}
use os_pa.Vm.Mmu.Write.{with_tlb-Sound}

-- A sound machine whose page table is in use, with a frame for each page that can be written.
pub record Healthy (m : Machine) (lost : List Process) : Type 0 where
  pub sound : Sound m lost
  pub exclusive : Exclusive m lost
  pub root : m.ptbr ≡ true

-- If there is a machine in the end, it is healthy.
abbrev pub Keeps : (A : Type 0) → List Process → Option (A × Machine) → Type 0
Keeps A lost none = Unit {0}
Keeps A lost (some (a, t)) = Healthy t lost

-- The flags that a command can give a page.
abbrev pub IsFlag : ℕ → Type 0
IsFlag flags = (flags ≡ 1) ⊎ (flags ≡ 3)

abbrev pub Spare : Machine → Type 0
Spare m = (f : ℕ) × (f < nr_pageframes) × (m.mapcounts f ≡ 0)

pub with_tlb-Healthy :
    (tlb : List TlbEntry) (m : Machine) (lost : List Process)
    → Healthy m lost
    → Healthy (with_tlb tlb m) lost
with_tlb-Healthy tlb m lost h = record {
  sound = with_tlb-Sound tlb m lost h.sound;
  exclusive = record {
    current = h.exclusive.current;
    listed = h.exclusive.listed;
    lost_ones = h.exclusive.lost_ones;
  };
  root = h.root;
}

-- A translation finds a frame, or the page table has none that it permits. Only the TLB changes.
pub data Looks (flags vpn : ℕ) (m : Machine) (r : Option (Translation × Machine)) : Type 0 where
  hits :
      (tlb : List TlbEntry) (hit : ℕ × Bool)
      → r ≡ some (some hit, with_tlb tlb m)
      → Looks flags vpn m r
  misses :
      (tlb : List TlbEntry)
      → r ≡ some (none, with_tlb tlb m)
      → answer flags false (mapping vpn m.current.pagetable) ≡ none
      → Looks flags vpn m r

pub translate-Looks :
    (flags vpn : ℕ) (m : Machine)
    → vpn < 64
    → TableShape m.current.pagetable
    → m.ptbr ≡ true
    → Looks flags vpn m (translate flags vpn m)
unfolding translate
translate-Looks flags vpn m page shape on =
    elim (Option-cases (if m.print_tlb_result then lookup_tlb vpn flags m.tlb else none)) [
      | inr (pfn, hit) ↦ rw (hit, translate) (Looks.hits m.tlb (pfn, true) refl)
      | inl miss ↦
          let w = translate_miss flags vpn m page shape on miss in
          elim (Option-cases (answer flags false (mapping vpn m.current.pagetable))) [
            | inl e ↦ Looks.misses w.after (w.result ∙ ap (λ a. some (a, with_tlb w.after m)) e) e
            | inr (hit, e) ↦
                Looks.hits w.after hit (w.result ∙ ap (λ a. some (a, with_tlb w.after m)) e)
          ]
    ]

-- A read is permitted wherever a page is mapped.
pub read_unmapped : (o : Option Pte) → answer access_read false o ≡ none → o ≡ none
read_unmapped none e = refl
read_unmapped (some pte) e = absurd (ground (arith, e))
