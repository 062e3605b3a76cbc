-- ===== src/Vm/Frames/Exclusive.antt =====
-- Copy-on-write: a page that can be written is mapped to a frame of its own.
use os_pa.Common.{
  ℕ, ◌≤◌, ◌<◌, ◌≡◌, ◌≢◌, ◌⊎◌, refl, sym, ap, subst, ◌∙◌, inl, inr, some, List, [], ◌∷◌, All, ◌==◌,
  ==→eq, ==→ne, Bool-cases, update_ne, arith,
}
use mathlib.Core.Option.{some-injective}
use os_pa.Vm.Types.{Pte, Pagetable, Process, Machine}
use os_pa.Vm.Page.{unmap_frame, mapped_pte}
use os_pa.Vm.Frames.Sound.{mapping}
use os_pa.Vm.Frames.Alloc.{Maps}
use os_pa.Vm.Frames.Free.{Unmaps}
use os_pa.Vm.Frames.Fault.{Unshares}

-- Read-only, or writable with a frame that is mapped once.
abbrev pub Own : (ℕ → ℕ) → Pte → Type 0
Own counts pte = (pte.rw ≡ 1) ⊎ ((pte.rw ≡ 3) × (counts pte.pfn ≤ 1))

abbrev pub OwnPages : (ℕ → ℕ) → Pagetable → Type 0
OwnPages counts table = (v : ℕ) (pte : Pte) → mapping v table ≡ some pte → Own counts pte

abbrev pub AllOwn : (ℕ → ℕ) → List Process → Type 0
AllOwn counts = All (λ p. OwnPages counts p.pagetable)

pub record Exclusive (m : Machine) (lost : List Process) : Type 0 where
  pub current : OwnPages m.mapcounts m.current.pagetable
  pub listed : AllOwn m.mapcounts m.processes
  pub lost_ones : AllOwn m.mapcounts lost

-- Frames that are mapped once at most stay so.
abbrev Keep : (ℕ → ℕ) → (ℕ → ℕ) → Type 0
Keep counts counts' = (g : ℕ) → counts g ≤ 1 → counts' g ≤ 1

Own-Keep :
    (counts counts' : ℕ → ℕ) (pte : Pte) → Keep counts counts' → Own counts pte → Own counts' pte
Own-Keep counts counts' pte k (inl e) = inl e
Own-Keep counts counts' pte k (inr (e, h)) = inr (e, k pte.pfn h)

AllOwn-Keep :
    (counts counts' : ℕ → ℕ) (ps : List Process)
    → Keep counts counts'
    → AllOwn counts ps
    → AllOwn counts' ps
AllOwn-Keep counts counts' [] k h = tt
AllOwn-Keep counts counts' (p ∷ ps) k h =
    (λ v pte e. Own-Keep counts counts' pte k (h.0 v pte e), AllOwn-Keep counts counts' ps k h.1)

-- One page of the current process changes, and no other process does.
page-Exclusive :
    (vpn : ℕ) (m m' : Machine) (lost : List Process)
    → Keep m.mapcounts m'.mapcounts
    → ((pte : Pte) → mapping vpn m'.current.pagetable ≡ some pte → Own m'.mapcounts pte)
    → ((v : ℕ) → v ≢ vpn → mapping v m'.current.pagetable ≡ mapping v m.current.pagetable)
    → m'.processes ≡ m.processes
    → Exclusive m lost
    → Exclusive m' lost
page-Exclusive vpn m m' lost k here elsewhere others h = record {
  current = λ v pte e. elim (Bool-cases (v == vpn)) [
    | inl at ↦ here pte (ap (λ x. mapping x m'.current.pagetable) (sym (==→eq v vpn at)) ∙ e)
    | inr off ↦
        Own-Keep m.mapcounts m'.mapcounts pte k
          (h.current v pte (sym (elsewhere v (==→ne v vpn off)) ∙ e))
  ];
  listed =
      subst (AllOwn m'.mapcounts) (sym others)
        (AllOwn-Keep m.mapcounts m'.mapcounts m.processes k h.listed);
  lost_ones = AllOwn-Keep m.mapcounts m'.mapcounts lost k h.lost_ones;
}

pub Maps-Exclusive :
    (vpn flags f : ℕ) (m m' : Machine) (lost : List Process)
    → (flags ≡ 1) ⊎ (flags ≡ 3)
    → m.mapcounts f ≡ 0
    → Maps vpn flags f m m' lost
    → Exclusive m lost
    → Exclusive m' lost
Maps-Exclusive vpn flags f m m' lost legal free k h =
    page-Exclusive vpn m m' lost (λ g le. ground (arith, le, k.counted g))
      (λ pte e. subst (Own m'.mapcounts) (some-injective _ _ (sym k.here ∙ e)) (placed legal))
      k.elsewhere k.others h
  where
    placed : (flags ≡ 1) ⊎ (flags ≡ 3) → Own m'.mapcounts (mapped_pte flags f)
    placed (inl e) = inl e
    placed (inr e) = inr (e, ground (arith, k.counted f))

pub Unmaps-Exclusive :
    (vpn : ℕ) (pte : Pte) (m m' : Machine) (lost : List Process)
    → Unmaps vpn pte m m' lost
    → Exclusive m lost
    → Exclusive m' lost
Unmaps-Exclusive vpn pte m m' lost k h =
    page-Exclusive vpn m m' lost (λ g le. omega (arith, le, k.counted g))
      (λ q e. absurd (ground (arith, sym k.here ∙ e))) k.elsewhere k.others h

pub Unshares-Exclusive :
    (vpn : ℕ) (pte : Pte) (m m' : Machine) (lost : List Process)
    → m.mapcounts pte.pfn ≤ 1
    → Unshares vpn pte m m' lost
    → Exclusive m lost
    → Exclusive m' lost
Unshares-Exclusive vpn pte m m' lost few k h =
    page-Exclusive vpn m m' lost (λ g le. omega (arith, le, ap (λ c. c g) k.counted))
      (λ q e.
        subst (Own m'.mapcounts) (some-injective _ _ (sym k.here ∙ e))
          (inr (refl, omega (arith, few, ap (λ c. c pte.pfn) k.counted))))
      k.elsewhere k.others h

-- One of several mappings of a frame is uncounted.
pub unmap_frame-Exclusive :
    (i : ℕ) (m : Machine) (lost : List Process)
    → 1 < m.mapcounts i
    → Exclusive m lost
    → Exclusive (unmap_frame i m) lost
unmap_frame-Exclusive i m lost many h = record {
  current = λ v pte e. Own-Keep m.mapcounts _ pte keep (h.current v pte e);
  listed = AllOwn-Keep m.mapcounts _ m.processes keep h.listed;
  lost_ones = AllOwn-Keep m.mapcounts _ lost keep h.lost_ones;
}
  where
    keep : Keep m.mapcounts (unmap_frame i m).mapcounts
    keep g le =
        let other : i ≢ g = λ e. omega (arith, many, le, ap m.mapcounts e) in
        omega (arith, le, update_ne m.mapcounts i g _ other)
