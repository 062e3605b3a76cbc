-- ===== src/Vm/Fork.antt =====
-- switch_process of pa3.c: a context switch, or a fork that shares the pages for copy-on-write.
use os_pa.Common.{
  ℕ, ◌+◌, true, Option, none, some, List, [], ◌∷◌, ◌++◌, ◌==◌, if◌then◌else◌, update, inc32,
}
use os_pa.Vm.Types.{Pte, Directory, Pagetable, Process, Machine, Fresh}
use os_pa.Vm.Tlb.{flush_tlb}

-- The parent's entry, the child's, and the map counts.
pub record Shared (A : Type 0) : Type 0 where
  pub parent : A
  pub child : A
  pub counts : ℕ → ℕ

-- A valid PTE is copied; a writable one becomes read-only on both sides. An invalid one leaves the
-- child's as malloc() returned it.
unfoldable pub fork_pte : Pte → Pte → (ℕ → ℕ) → Shared Pte
fork_pte pte fresh counts =
    if pte.valid
    then record {
      parent = if pte.rw == 3 then record pte { rw = 1 } else pte;
      child = if pte.rw == 3 then record pte { rw = 1 } else pte;
      counts = update counts pte.pfn (inc32 (counts pte.pfn));
    }
    else record { parent = pte; child = fresh; counts = counts }

-- The loop over the PTEs of a directory, beside the new directory.
unfoldable pub fork_directory : Directory → Directory → (ℕ → ℕ) → Shared Directory
unfolding fork_pte
fork_directory [] fresh counts = record { parent = []; child = fresh; counts = counts }
fork_directory (pte ∷ dir) [] counts = record { parent = pte ∷ dir; child = []; counts = counts }
fork_directory (pte ∷ dir) (f ∷ fresh) counts =
    let one = fork_pte pte f counts in
    let rest = fork_directory dir fresh one.counts in
    record {
      parent = one.parent ∷ rest.parent;
      child = one.child ∷ rest.child;
      counts = rest.counts;
    }

-- The loop over the directories from the i-th on. Where the parent has none, the child's entry
-- stays as malloc() returned it.
unfoldable pub fork_pagetable : Fresh → ℕ → Pagetable → Pagetable → (ℕ → ℕ) → Shared Pagetable
unfolding fork_directory
fork_pagetable fresh i [] pdes counts = record { parent = []; child = pdes; counts = counts }
fork_pagetable fresh i (pde ∷ table) [] counts = record {
  parent = pde ∷ table;
  child = [];
  counts = counts;
}
fork_pagetable fresh i (none ∷ table) (p ∷ pdes) counts =
    let rest = fork_pagetable fresh (i + 1) table pdes counts in
    record { parent = none ∷ rest.parent; child = p ∷ rest.child; counts = rest.counts }
fork_pagetable fresh i (some dir ∷ table) (p ∷ pdes) counts =
    let one = fork_directory dir (fresh.directory i) counts in
    let rest = fork_pagetable fresh (i + 1) table pdes one.counts in
    record {
      parent = some one.parent ∷ rest.parent;
      child = some one.child ∷ rest.child;
      counts = rest.counts;
    }

-- The parent goes to the tail of the process list, and the child runs.
unfoldable pub fork_process : Fresh → ℕ → Machine → Machine
unfolding fork_pagetable
fork_process fresh pid m =
    let shared = fork_pagetable fresh 0 m.current.pagetable fresh.pdes m.mapcounts in
    record m {
      current = record { pid = pid; pagetable = shared.child };
      processes = m.processes ++ record (m.current) { pagetable = shared.parent } ∷ [];
      mapcounts = shared.counts;
      ptbr = true;
    }

-- The loop over `processes`: the first process with the pid, and the list without it.
unfoldable pub find_process : ℕ → List Process → Option (Process × List Process)
find_process pid [] = none
find_process pid (p ∷ processes) =
    let rest = find_process pid processes in
    if p.pid == pid
    then some (p, processes)
    else elim rest [ none ↦ none | some (found, others) ↦ some (found, p ∷ others) ]

-- The current process is not put back on the list when another one is found.
unfoldable pub switch_to : Fresh → ℕ → Option (Process × List Process) → Machine → Machine
unfolding fork_process
switch_to fresh pid none m = fork_process fresh pid m
switch_to fresh pid (some (found, others)) m = record m {
  current = found;
  processes = others;
  ptbr = true;
}

unfoldable pub switch_process : Fresh → ℕ → Machine → Machine
unfolding find_process switch_to
switch_process fresh pid m =
    let m' = switch_to fresh pid (find_process pid m.processes) m in
    record m' { tlb = flush_tlb m'.tlb }
