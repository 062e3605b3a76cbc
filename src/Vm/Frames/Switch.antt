-- ===== src/Vm/Frames/Switch.antt =====
-- switch_process as a whole, and what it does to the process that it leaves.
use os_pa.Common.{
  ◌++◌, ap, ℕ, ◌+◌, ◌<◌, ◌≡◌, refl, subst, sym, inl, inr, false, Option, none, some, List, [], ◌∷◌,
  All, u32_mod, ◌==◌, arith, Bool-cases, if_true, if_false, ==→eq,
}
use os_pa.Vm.Types.{Process, Machine, Fresh}
use os_pa.Vm.Tlb.{flush_tlb}
use os_pa.Vm.Fork.{fork_process, find_process, switch_to, switch_process}
use os_pa.Vm.Frames.Count.{count_table, count_all}
use os_pa.Vm.Frames.Sound.{TableShape, Sound, CleanFork, Sized}
use os_pa.Vm.Frames.Fork.{SharesPages, Forks, fork_process-Forks, fork_process-Sound}

-- The process is the first of the list with the pid, and the others are the rest of the list.
pub record Takes (pid : ℕ) (processes : List Process) (found : Process) (others : List Process)
    : Type 1 where
  pub named : found.pid ≡ pid
  pub before : List Process
  pub after : List Process
  pub whole : processes ≡ before ++ found ∷ after
  pub remains : others ≡ before ++ after
  pub first : All (λ p. (p.pid == pid) ≡ false) before
  pub counted : (f : ℕ) → count_all f processes ≡ count_table f found.pagetable + count_all f others
  pub kept : (P : Process → Type 0) → All P processes → P found × All P others

Takes-head : (p : Process) (processes : List Process) → Takes p.pid (p ∷ processes) p processes
Takes-head p processes = record {
  named = refl;
  before = [];
  after = processes;
  whole = refl;
  remains = refl;
  first = tt;
  counted = λ f. refl;
  kept = λ P h. h;
}

Takes-tail :
    (pid : ℕ) (p : Process) (processes : List Process) (found : Process) (others : List Process)
    → (p.pid == pid) ≡ false
    → Takes pid processes found others
    → Takes pid (p ∷ processes) found (p ∷ others)
Takes-tail pid p processes found others apart h = record {
  named = h.named;
  before = p ∷ h.before;
  after = h.after;
  whole = ap (λ l. p ∷ l) h.whole;
  remains = ap (λ l. p ∷ l) h.remains;
  first = (apart, h.first);
  counted = λ f. omega (arith, h.counted f);
  kept = λ P a. let (q, rest) = h.kept P a.1 in (q, (a.0, rest));
}

-- The first process of the list with the pid is taken out of it, or there is none.
abbrev pub Finds : ℕ → List Process → Option (Process × List Process) → Type 1
Finds pid processes none = All (λ p. (p.pid == pid) ≡ false) processes × Unit {1}
Finds pid processes (some (found, others)) = Takes pid processes found others

find_later :
    (pid : ℕ) (p : Process) (processes : List Process) (r : Option (Process × List Process))
    → (p.pid == pid) ≡ false
    → Finds pid processes r
    → Finds pid
        (p ∷ processes)
        (elim r [ none ↦ none | some (found, others) ↦ some (found, p ∷ others) ])
find_later pid p processes none e h = ((e, h.0), tt)
find_later pid p processes (some (found, others)) e h = Takes-tail pid p processes found others e h

pub find_process-Finds :
    (pid : ℕ) (processes : List Process) → Finds pid processes (find_process pid processes)
unfolding find_process
find_process-Finds pid [] = (tt, tt)
find_process-Finds pid (p ∷ processes) = elim (Bool-cases (p.pid == pid)) [
  | inl e ↦
      subst (Finds pid (p ∷ processes)) (sym (if_true _ _ e))
        (subst (λ k. Takes k (p ∷ processes) p processes) (==→eq _ _ e) (Takes-head p processes))
  | inr e ↦
      subst (Finds pid (p ∷ processes)) (sym (if_false _ _ e))
        (find_later pid p processes _ e (find_process-Finds pid processes))
]

pub find_process-none :
    (pid : ℕ) (processes : List Process)
    → All (λ p. (p.pid == pid) ≡ false) processes
    → find_process pid processes ≡ none
unfolding find_process
find_process-none pid [] h = refl
find_process-none pid (p ∷ processes) h = rw (h.0, find_process-none pid processes h.1)

fork_process-tlb :
    (fresh : Fresh) (pid : ℕ) (m : Machine)
    → flush_tlb (fork_process fresh pid m).tlb ≡ flush_tlb m.tlb
unfolding fork_process
fork_process-tlb fresh pid m = refl

-- What a switch does: it goes to a process of the list, and the process that it leaves is on no
-- list any more; or it forks.
pub data Switches (fresh : Fresh) (pid : ℕ) (m : Machine) (lost : List Process) (m' : Machine)
    : Type 1 where
  resumes :
      (others : List Process)
      → Takes pid m.processes m'.current others
      → m'.processes ≡ others
      → m'.mapcounts ≡ m.mapcounts
      → Sound m' (m.current ∷ lost)
      → Switches fresh pid m lost m'
  forked :
      All (λ p. (p.pid == pid) ≡ false) m.processes
      → Forks fresh pid m m'
      → m'.tlb ≡ flush_tlb m.tlb
      → Switches fresh pid m lost m'

module _ (fresh : Fresh) (pid : ℕ) (m : Machine) (lost : List Process) (sized : Sized fresh)
    (s : Sound m lost)
    (room : (f : ℕ) → m.mapcounts f + count_table f m.current.pagetable < u32_mod) where
  switch_to-Switches :
      (r : Option (Process × List Process))
      → Finds pid m.processes r
      → Switches fresh pid m lost
          (record (switch_to fresh pid r m) { tlb = flush_tlb (switch_to fresh pid r m).tlb })
  unfolding switch_to
  switch_to-Switches none h =
      let forks = fork_process-Forks fresh pid m sized s.shape room in
      Switches.forked h.0
        (record {
          named = forks.named;
          child = forks.child;
          parent = forks.parent;
          parent_pid = forks.parent_pid;
          parent_pages = forks.parent_pages;
          listed = forks.listed;
          counted = forks.counted;
        })
        (fork_process-tlb fresh pid m)
  switch_to-Switches (some (found, others)) h =
      let (shape, shapes) = h.kept (λ p. TableShape p.pagetable) s.shapes in
      Switches.resumes others h refl refl (record {
        shape = shape;
        shapes = shapes;
        counts = λ f. omega (arith, s.counts f, h.counted f);
        fits = s.fits;
        high = s.high;
      })

-- On a sound machine, with memory of the right size from malloc() and map counts that do not
-- overflow, switch_process goes to the first process of the list with the pid and takes it from
-- the list. The machine stays sound with the process that is left among the lost ones: it is
-- current no longer and was not put on the list. If no process has the pid, switch_process forks
-- as fork_process-Forks says, and clears the TLB by flush_tlb.
pub switch_process-Switches :
    (fresh : Fresh) (pid : ℕ) (m : Machine) (lost : List Process)
    → Sized fresh
    → Sound m lost
    → ((f : ℕ) → m.mapcounts f + count_table f m.current.pagetable < u32_mod)
    → Switches fresh pid m lost (switch_process fresh pid m)
unfolding switch_process
switch_process-Switches fresh pid m lost sized s room =
    switch_to-Switches fresh pid m lost sized s room _ (find_process-Finds pid m.processes)

-- A fork with nothing left by malloc() keeps the machine sound.
pub switch_process-Sound :
    (fresh : Fresh) (pid : ℕ) (m : Machine) (lost : List Process)
    → Sized fresh
    → CleanFork fresh
    → Sound m lost
    → ((f : ℕ) → m.mapcounts f + count_table f m.current.pagetable < u32_mod)
    → All (λ p. (p.pid == pid) ≡ false) m.processes
    → Sound (switch_process fresh pid m) lost
      × SharesPages m.current.pagetable (switch_process fresh pid m).current.pagetable
unfolding switch_process switch_to
switch_process-Sound fresh pid m lost sized clean s room apart =
    let (sound, shares) = fork_process-Sound fresh pid m sized s.shape room lost clean s in
    rw (find_process-none pid m.processes apart) (
      record {
        shape = sound.shape;
        shapes = sound.shapes;
        counts = sound.counts;
        fits = sound.fits;
        high = sound.high;
      },
      shares,
    )

-- After a switch to a process of the list, with the pid of the process that was left on no process
-- of the list, a switch back forks: the process that was left is gone.
pub switch_process_back :
    (fresh fresh' : Fresh) (pid : ℕ) (m : Machine) (found : Process) (others : List Process)
    → find_process pid m.processes ≡ some (found, others)
    → All (λ p. (p.pid == m.current.pid) ≡ false) m.processes
    → let away = switch_process fresh pid m in
      let forked = fork_process fresh' m.current.pid away in
      (away.current ≡ found)
      × (switch_process fresh' m.current.pid away ≡ record forked { tlb = flush_tlb forked.tlb })
unfolding switch_process switch_to
switch_process_back fresh fresh' pid m found others e apart =
    (rw e, rw e (rw (find_process-none m.current.pid others rest)))
  where
    rest : All (λ p. (p.pid == m.current.pid) ≡ false) others
    rest =
        let h : Finds pid m.processes (some (found, others)) =
          subst (Finds pid m.processes) e (find_process-Finds pid m.processes) in
        (h.kept (λ p. (p.pid == m.current.pid) ≡ false) apart).1
