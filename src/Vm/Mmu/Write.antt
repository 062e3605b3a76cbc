-- ===== src/Vm/Mmu/Write.antt =====
-- A whole write access to a page under copy-on-write.
use os_pa.Common.{
  ℕ, ◌≤◌, ◌<◌, ◌≡◌, ◌≢◌, ◌⊎◌, refl, sym, ap, subst, ◌∙◌, inl, inr, ◌&&◌, ◌==◌, Bool, true, false,
  not, Option, none, some, List, if◌then◌else◌, if_true, if_false, arith, Option-cases, ==→eq,
  lt→ltb, update_ne,
}
use mathlib.Core.Option.{some-injective}
use os_pa.Vm.Types.{Pte, Process, TlbEntry, Machine, Fresh, access_write, has_write, nr_pageframes}
use os_pa.Vm.Tlb.{lookup_tlb}
use os_pa.Vm.Page.{is_copy_on_write, mapped_pte, unmap_frame, handle_page_fault}
use os_pa.Vm.Mmu.{Access, translate, access_loop, access_memory}
use os_pa.Vm.Frames.Sound.{Sound, pte_in, only_valid, mapping}
use os_pa.Vm.Frames.Fault.{
  Faults, CopiesOnWrite, cow-CopiesOnWrite, CopiesOnWrite-cow, handle_page_fault-Faults,
}
use os_pa.Vm.Mmu.Coherent.{permits, HasFlags, Coherent, lookup-Coherent}
use os_pa.Vm.Mmu.Translate.{answer, with_tlb, translate_miss, translate-Translates}

-- The write goes to the frame f, which the page owns for writing afterwards: its old frame, if it
-- was shared no longer, or a free one.
pub record Resolves (vpn : ℕ) (pte : Pte) (m : Machine) (lost : List Process)
    (r : Option (Access × Machine)) : Type 0 where
  pub f : ℕ
  pub after : Machine
  pub result : r ≡ some (Access.done f false, after)
  pub chosen : (f ≡ pte.pfn) ⊎ (m.mapcounts f ≡ 0)
  pub sound : Sound after lost
  pub here : (q : Pte) × (mapping vpn after.current.pagetable ≡ some q) × (q.pfn ≡ f) × (q.rw ≡ 3)
  pub elsewhere :
      (v : ℕ) → v ≢ vpn → mapping v after.current.pagetable ≡ mapping v m.current.pagetable

pub with_tlb-Sound :
    (tlb : List TlbEntry) (m : Machine) (lost : List Process)
    → Sound m lost
    → Sound (with_tlb tlb m) lost
with_tlb-Sound tlb m lost s = record {
  shape = s.shape;
  shapes = s.shapes;
  counts = s.counts;
  fits = s.fits;
  high = s.high;
}

cow-permits :
    (pte : Pte) → is_copy_on_write pte access_write ≡ true → permits access_write pte ≡ false
cow-permits pte cow =
    let one : (pte.rw == 1) ≡ true = ground arith in
    ap (λ k. not (has_write access_write && not (has_write k))) (==→eq pte.rw 1 one)

no_hit : (b : Bool) (found : Option ℕ) → found ≡ none → (if b then found else none) ≡ none
no_hit true found e = e
no_hit false found e = refl

two_rounds :
    (fresh : Fresh) (vpn f : ℕ) (m m1 u w : Machine)
    → vpn < 64
    → translate access_write vpn m ≡ some (none, m1)
    → handle_page_fault fresh vpn access_write m1 ≡ some (true, u)
    → translate access_write vpn u ≡ some (some (f, false), w)
    → access_memory fresh vpn access_write m ≡ some (Access.done f false, w)
unfolding access_memory
two_rounds fresh vpn f m m1 u w page e1 e2 e3 =
    if_true _ _ (lt→ltb vpn 64 page) ∙ rw (e1, e2, e3, access_loop) refl

clash {ℓ} : {A : Type ℓ} {b : Bool} → b ≡ true → b ≡ false → A
clash p q = absurd (ground arith)

missing {ℓ κ} : {A : Type ℓ} {B : Type κ} {o : Option B} {x : B} → o ≡ none → o ≡ some x → A
missing p q = absurd (ground (arith, sym p ∙ q))

-- Unmapping one of two mappings of a frame leaves a free frame free.
pub unmapped_free :
    (m : Machine) (i f : ℕ)
    → 1 < m.mapcounts i
    → m.mapcounts f ≡ 0
    → (unmap_frame i m).mapcounts f ≡ 0
unmapped_free m i f many free =
    let other : i ≢ f = λ e. omega (arith, many, free, ap m.mapcounts e) in
    update_ne m.mapcounts i f _ other ∙ free

-- No entry of the page in a TLB that agrees with a table under copy-on-write serves a write.
lookup_cow :
    (vpn : ℕ) (m : Machine) (tlb : List TlbEntry) (pte : Pte)
    → HasFlags m.current.pagetable
    → Coherent m.current.pagetable tlb
    → mapping vpn m.current.pagetable ≡ some pte
    → permits access_write pte ≡ false
    → lookup_tlb vpn access_write tlb ≡ none
lookup_cow vpn m tlb pte h c e denied = elim (Option-cases (lookup_tlb vpn access_write tlb)) [
  | inl miss ↦ miss
  | inr (pfn, hit) ↦
      let (q, e', frame, permitted) =
        lookup-Coherent m.current.pagetable vpn access_write pfn tlb (inr refl) h c hit in
      let same : q ≡ pte = some-injective _ _ (sym e' ∙ e) in
      clash permitted (ap (permits access_write) same ∙ denied)
]

-- The second translation, on the machine that the page fault leaves.
retry :
    (vpn f : ℕ) (q : Pte) (u : Machine) (lost : List Process)
    → vpn < 64
    → Sound u lost
    → u.ptbr ≡ true
    → lookup_tlb vpn access_write u.tlb ≡ none
    → mapping vpn u.current.pagetable ≡ some q
    → q.pfn ≡ f
    → q.rw ≡ 3
    → (after : List TlbEntry) × (translate access_write vpn u
        ≡ some (some (f, false), with_tlb after u))
retry vpn f q u lost page s on miss e frame flag =
    let w = translate_miss access_write vpn u page s.shape on (no_hit u.print_tlb_result _ miss) in
    let permitted : permits access_write q ≡ true =
      ap (λ k. not (has_write access_write && not (has_write k))) flag in
    let same : answer access_write false (mapping vpn u.current.pagetable) ≡ some (f, false) =
      ap (answer access_write false) e ∙ if_true _ _ permitted ∙ ap (λ k. some (k, false)) frame in
    (w.after, w.result ∙ ap (λ a. some (a, with_tlb w.after u)) same)

module _ (fresh : Fresh) (vpn : ℕ) (m : Machine) (lost : List Process) (pte : Pte) (page : vpn < 64)
    (e : mapping vpn m.current.pagetable ≡ some pte) (h : HasFlags m.current.pagetable)
    (on : m.ptbr ≡ true) (cow : is_copy_on_write pte access_write ≡ true) where
  resolve :
      (tlb : List TlbEntry) (f : ℕ) (q : Pte) (u : Machine)
      → translate access_write vpn m ≡ some (none, with_tlb tlb m)
      → handle_page_fault fresh vpn access_write (with_tlb tlb m) ≡ some (true, u)
      → Coherent m.current.pagetable tlb
      → u.tlb ≡ tlb
      → u.ptbr ≡ m.ptbr
      → Sound u lost
      → mapping vpn u.current.pagetable ≡ some q
      → q.pfn ≡ f
      → q.rw ≡ 3
      → (f ≡ pte.pfn) ⊎ (m.mapcounts f ≡ 0)
      → ((v : ℕ) → v ≢ vpn → mapping v u.current.pagetable ≡ mapping v m.current.pagetable)
      → Resolves vpn pte m lost (access_memory fresh vpn access_write m)
  resolve tlb f q u first fault c same root s e' frame flag chosen elsewhere =
      let miss : lookup_tlb vpn access_write u.tlb ≡ none =
        ap (lookup_tlb vpn access_write) same
        ∙ lookup_cow vpn m tlb pte h c e (cow-permits pte cow) in
      let (after, second) = retry vpn f q u lost page s (root ∙ on) miss e' frame flag in
      record {
        f = f;
        after = with_tlb after u;
        result =
            two_rounds fresh vpn f m (with_tlb tlb m) u (with_tlb after u) page first fault second;
        chosen = chosen;
        sound = with_tlb-Sound after u lost s;
        here = (q, e', frame, flag);
        elsewhere = elsewhere;
      }

  after_fault :
      (tlb : List TlbEntry)
      → translate access_write vpn m ≡ some (none, with_tlb tlb m)
      → Coherent m.current.pagetable tlb
      → (m.mapcounts pte.pfn ≤ 1) ⊎ ((f : ℕ) × (f < nr_pageframes) × (m.mapcounts f ≡ 0))
      → Faults vpn access_write
          (with_tlb tlb m)
          lost
          (handle_page_fault fresh vpn access_write (with_tlb tlb m))
      → Resolves vpn pte m lost (access_memory fresh vpn access_write m)
  after_fault tlb first c room (Faults.crashes q fault) =
      missing (ap only_valid (ap (pte_in vpn) q)) e
  after_fault tlb first c room (Faults.refuses_absent q fault) = missing q e
  after_fault tlb first c room (Faults.refuses pte' q no_cow fault) =
      let same : pte' ≡ pte = some-injective _ _ (sym q ∙ e) in
      absurd (
        no_cow (
          cow-CopiesOnWrite pte' access_write
            (ap (λ x. is_copy_on_write x access_write) same ∙ cow)))
  after_fault tlb first c room (Faults.unshares pte' u q cow' few fault k) =
      let same : pte' ≡ pte = some-injective _ _ (sym q ∙ e) in
      resolve tlb pte'.pfn (record pte' { rw = 3 }) u first fault c k.cached k.root k.sound k.here
        refl refl (inl (ap (λ x. x.pfn) same)) k.elsewhere
  after_fault tlb first c room (Faults.copies pte' f u q cow' many free fault k) =
      resolve tlb f (mapped_pte 3 f) u first fault c k.cached k.root k.sound k.here refl refl
        (inr free) k.elsewhere
  after_fault tlb first c room (Faults.miscounts pte' q cow' many full fault) =
      let same : pte' ≡ pte = some-injective _ _ (sym q ∙ e) in
      let shared : 1 < m.mapcounts pte.pfn = subst (λ x. 1 < m.mapcounts x.pfn) same many in
      elim room [
        | inl few ↦ absurd (omega (arith, few, shared))
        | inr (f, frame, free) ↦ absurd (full f frame (unmapped_free m pte'.pfn f many free))
      ]

-- On a sound machine with its page table in use, of the flags 1 and 3, and with a TLB that agrees
-- with the page table, a write access to a page under copy-on-write succeeds within the two rounds
-- of the loop, when its frame is not shared or some frame is free. It goes to the old frame or a
-- free one, which the page then maps for writing; the other pages stay as they were and the machine
-- stays sound.
pub access_memory-Resolves :
    (fresh : Fresh) (vpn : ℕ) (m : Machine) (lost : List Process) (pte : Pte)
    → vpn < 64
    → Sound m lost
    → m.ptbr ≡ true
    → HasFlags m.current.pagetable
    → Coherent m.current.pagetable m.tlb
    → mapping vpn m.current.pagetable ≡ some pte
    → CopiesOnWrite pte access_write
    → (m.mapcounts pte.pfn ≤ 1) ⊎ ((f : ℕ) × (f < nr_pageframes) × (m.mapcounts f ≡ 0))
    → Resolves vpn pte m lost (access_memory fresh vpn access_write m)
access_memory-Resolves fresh vpn m lost pte page s on h c e copies room =
    let cow = CopiesOnWrite-cow pte access_write copies in
    let t = translate-Translates access_write vpn m (inr refl) page s.shape on h c in
    let first : translate access_write vpn m ≡ some (none, with_tlb t.after m) =
      t.result
      ∙ ap (λ a. some (a, with_tlb t.after m))
          (ap (answer access_write t.cached) e ∙ if_false _ _ (cow-permits pte cow)) in
    after_fault fresh vpn m lost pte page e h on cow t.after first t.coherent room (
      handle_page_fault-Faults fresh vpn access_write (with_tlb t.after m) lost page
        (with_tlb-Sound t.after m lost s))
