-- ===== src/Vm/Frames/Sharing.antt =====
-- A fork leaves no page writable that it shares, and a switch keeps every page its own.
use os_pa.Common.{
  false, All, ℕ, ◌≤◌, ◌<◌, ◌≡◌, ◌≢◌, refl, sym, ap, subst, ◌∙◌, inl, inr, Option, none, some, List,
  [], ◌∷◌, All-snoc, get_elem?, ◌==◌, Bool-cases, Option-cases, if◌then◌else◌, if_true, if_false,
  arith,
}
use mathlib.Core.Option.{some-injective}
use os_pa.Vm.Types.{Pte, Directory, Pagetable, Process, Machine, Fresh, pd_index, pte_index}
use os_pa.Vm.Frames.Count.{count_pte, count_table, count_all, count-directory_le, count-table_le}
use os_pa.Vm.Frames.Sound.{Sound, pte_in, only_valid, mapping}
use os_pa.Vm.Frames.Copies.{protected}
use os_pa.Vm.Frames.Fork.{Forks, SharesPages}
use os_pa.Vm.Frames.Switch.{Switches}
use os_pa.Vm.Frames.Exclusive.{Own, OwnPages, AllOwn, Exclusive}

-- A page that is mapped counts for its frame.
module _ (v : ℕ) (table : Pagetable) (pte : Pte) where
  in_directory :
      (dir : Directory) (o : Option Pte)
      → get_elem? table (pd_index v) ≡ some (some dir)
      → get_elem? dir (pte_index v) ≡ o
      → only_valid o ≡ some pte
      → 0 < count_table pte.pfn table
  in_directory dir none e e' h = absurd (ground (arith, h))
  in_directory dir (some q) e e' h = elim (Bool-cases q.valid) [
    | inl live ↦
        let same : q ≡ pte = some-injective _ _ (sym (if_true _ _ live) ∙ h) in
        let one : count_pte q.pfn q ≡ 1 = ground (arith, live) in
        let least : 0 < count_table q.pfn table = omega (
          arith,
          one,
          count-directory_le q.pfn dir (pte_index v) q e',
          count-table_le q.pfn table (pd_index v) (some dir) e,
        ) in
        subst (λ (x : Pte). 0 < count_table x.pfn table) same least
    | inr dead ↦ absurd (ground (arith, sym (if_false (some q) none dead) ∙ h))
  ]

  in_table :
      (o : Option (Option Directory))
      → get_elem? table (pd_index v) ≡ o
      → only_valid (pte_in v o) ≡ some pte
      → 0 < count_table pte.pfn table
  in_table none e h = absurd (ground (arith, h))
  in_table (some none) e h = absurd (ground (arith, h))
  in_table (some (some dir)) e h = in_directory dir (get_elem? dir (pte_index v)) e refl h

  pub mapping-count : mapping v table ≡ some pte → 0 < count_table pte.pfn table
  mapping-count h = in_table (get_elem? table (pd_index v)) refl h

-- The frames that the processes map, and are mapped once at most, stay so.
AllOwn-fork :
    (counts counts' : ℕ → ℕ) (ps : List Process)
    → ((g : ℕ) → 0 < count_all g ps → counts g ≤ 1 → counts' g ≤ 1)
    → AllOwn counts ps
    → AllOwn counts' ps
AllOwn-fork counts counts' [] k h = tt
AllOwn-fork counts counts' (p ∷ ps) k h =
    (own, AllOwn-fork counts counts' ps (λ g there. k g (omega (arith, there))) h.1)
  where
    keeps :
        (v : ℕ) (pte : Pte) → mapping v p.pagetable ≡ some pte → Own counts pte → Own counts' pte
    keeps v pte e (inl flag) = inl flag
    keeps v pte e (inr (flag, few)) =
        inr (flag, k pte.pfn (omega (arith, mapping-count v p.pagetable pte e)) few)

    own : OwnPages counts' p.pagetable
    own v pte e = keeps v pte e (h.0 v pte e)

-- A page that two processes share is read-only in both.
SharesPages-OwnPages :
    (counts counts' : ℕ → ℕ) (table copy : Pagetable)
    → SharesPages table copy
    → OwnPages counts table
    → OwnPages counts' copy
SharesPages-OwnPages counts counts' table copy shares h v pte e =
    elim (Option-cases (mapping v table)) [
      | inl absent ↦ absurd (ground (arith, sym (shares v ∙ ap protected absent) ∙ e))
      | inr (q, there) ↦
          inl (
            read_only q (h v q there)
              (some-injective _ _ (sym (shares v ∙ ap protected there) ∙ e)))
    ]
  where
    read_only :
        (q : Pte) → Own counts q → (if q.rw == 3 then record q { rw = 1 } else q) ≡ pte → pte.rw ≡ 1
    read_only q (inl flag) same =
        sym (ap (λ (x : Pte). x.rw) (sym (if_false _ _ (ap (λ n. n == 3) flag)) ∙ same)) ∙ flag
    read_only q (inr (flag, few)) same =
        sym (ap (λ (x : Pte). x.rw) (sym (if_true _ _ (ap (λ n. n == 3) flag)) ∙ same))

pub Forks-Exclusive :
    (fresh : Fresh) (pid : ℕ) (m m' : Machine) (lost : List Process)
    → Sound m lost
    → SharesPages m.current.pagetable m'.current.pagetable
    → Forks fresh pid m m'
    → Exclusive m lost
    → Exclusive m' lost
Forks-Exclusive fresh pid m m' lost s child k h = record {
  current = SharesPages-OwnPages m.mapcounts m'.mapcounts _ _ child h.current;
  listed = subst (AllOwn m'.mapcounts) (sym k.listed) (
      All-snoc (λ p. OwnPages m'.mapcounts p.pagetable) k.parent m.processes
        (SharesPages-OwnPages m.mapcounts m'.mapcounts _ _ k.parent_pages h.current)
        (AllOwn-fork m.mapcounts m'.mapcounts m.processes
          (λ g there few. omega (arith, there, few, k.counted g, s.counts g)) h.listed));
  lost_ones =
      AllOwn-fork m.mapcounts m'.mapcounts lost
        (λ g there few. omega (arith, there, few, k.counted g, s.counts g)) h.lost_ones;
}

pub Exclusive-Unshared :
    (vpn : ℕ) (pte : Pte) (m : Machine) (lost : List Process)
    → Sound m lost
    → Exclusive m lost
    → mapping vpn m.current.pagetable ≡ some pte
    → pte.rw ≢ 1
    → (m.mapcounts pte.pfn ≡ 1)
      × (count_table pte.pfn m.current.pagetable ≡ 1)
      × (count_all pte.pfn m.processes ≡ 0)
Exclusive-Unshared vpn pte m lost s h e writable = once (h.current vpn pte e)
  where
    there : 0 < count_table pte.pfn m.current.pagetable
    there = mapping-count vpn m.current.pagetable pte e

    once :
        Own m.mapcounts pte
        → (m.mapcounts pte.pfn ≡ 1)
          × (count_table pte.pfn m.current.pagetable ≡ 1)
          × (count_all pte.pfn m.processes ≡ 0)
    once (inl flag) = absurd (writable flag)
    once (inr (flag, few)) = (
      omega (arith, few, s.counts pte.pfn, there),
      omega (arith, few, s.counts pte.pfn, there),
      omega (arith, few, s.counts pte.pfn, there),
    )

-- The process that a switch leaves keeps its pages among the lost ones.
pub Switches-Exclusive :
    (fresh : Fresh) (pid : ℕ) (m m' : Machine) (lost : List Process)
    → Sound m lost
    → Exclusive m lost
    → (All (λ p. (p.pid == pid) ≡ false) m.processes
        → Sound m' lost × SharesPages m.current.pagetable m'.current.pagetable)
    → Switches fresh pid m lost m'
    → (lost' : List Process) × Sound m' lost' × Exclusive m' lost'
Switches-Exclusive fresh pid m m' lost s h clean (Switches.forked far k flushed) =
    let (sound, child) = clean far in (lost, sound, Forks-Exclusive fresh pid m m' lost s child k h)
Switches-Exclusive fresh pid m m' lost s h clean (Switches.resumes others taken e counts sound) =
    let (found, rest) = taken.kept (λ p. OwnPages m.mapcounts p.pagetable) h.listed in
    (
      m.current ∷ lost,
      sound,
      record {
        current = subst (λ c. OwnPages c m'.current.pagetable) (sym counts) found;
        listed =
            subst (AllOwn m'.mapcounts) (sym e) (subst (λ c. AllOwn c others) (sym counts) rest);
        lost_ones = subst (λ c. AllOwn c (m.current ∷ lost)) (sym counts) (h.current, h.lost_ones);
      },
    )
