-- ===== src/Vm/Tests/Reach.antt =====
-- A session that allocates a page, forks and writes to it.
use os_pa.Common.{
  ℕ, sym, zero, suc, get_elem?, ◌∙◌, ◌≡◌, ◌⊎◌, inl, inr, refl, true, false, Option, none, some,
  List, [], ◌∷◌, codes, arith, Bool,
}
use os_pa.Vm.Mmu.Taints.{Taints, Leaves}
use os_pa.Vm.Types.{Directory, pd_index, Process, Machine}
use os_pa.Vm.Page.{alloc_page, find_free, handle_page_fault}
use os_pa.Vm.Fork.{switch_process}
use os_pa.Vm.Mmu.{Command, init_system, run_command, translate}
use os_pa.Vm.Frames.Count.{AllInvalid, AllInvalid-get_elem?, count_table, count_all}
use os_pa.Vm.Frames.Sound.{Sound, pte_in, only_valid, mapping}
use os_pa.Vm.Frames.Exclusive.{Exclusive}
use os_pa.Vm.Mmu.Reach.{Allows, Reaches, Tainted, Reaches-Sound, Reaches-unshared}
use os_pa.Vm.Tests.{zeros, zeros-Sized}

-- Nothing is mapped, and the TLB is not used.
abbrev empty : Machine
empty = record {
  current = record { pid = 0; pagetable = none ∷ none ∷ none ∷ none ∷ [] };
  processes = [];
  ptbr = false;
  mapcounts = λ f. 0;
  tlb = [];
  print_tlb_result = false;
}

empty-Sound : Sound empty []
empty-Sound = record {
  shape = record { four = refl; sixteen = (tt, (tt, (tt, (tt, tt)))) };
  shapes = tt;
  counts = λ f. ground arith;
  fits = λ f. omega arith;
  high = λ f h. refl;
}

unmapped : (v j : ℕ) → only_valid (pte_in v (get_elem? empty.current.pagetable j)) ≡ none
unmapped v zero = refl
unmapped v (suc zero) = refl
unmapped v (suc (suc zero)) = refl
unmapped v (suc (suc (suc zero))) = refl
unmapped v (suc (suc (suc (suc j)))) = refl

empty-Exclusive : Exclusive empty []
empty-Exclusive = record {
  current = λ v pte e. absurd (ground (arith, sym (unmapped v (pd_index v)) ∙ e));
  listed = tt;
  lost_ones = tt;
}

abbrev machine_of : Option (Bool × Machine) → Machine
machine_of none = empty
machine_of (some (again, m)) = m

abbrev next : Command → Machine → Machine
next c m = machine_of (run_command zeros c m)

abbrev allocated : Machine
allocated = next (Command.alloc 0 (codes "w")) (init_system empty)

abbrev forked : Machine
forked = next (Command.switch 1) allocated

abbrev written : Machine
written = next (Command.write 0) forked

allocated_run :
    run_command zeros (Command.alloc 0 (codes "w")) (init_system empty) ≡ some (true, allocated)
unfolding run_command init_system translate alloc_page find_free
allocated_run = refl

forked_run : run_command zeros (Command.switch 1) allocated ≡ some (true, forked)
unfolding run_command
forked_run = refl

written_run : run_command zeros (Command.write 0) forked ≡ some (true, written)
unfolding run_command init_system translate alloc_page find_free switch_process handle_page_fault
written_run = refl

allocated-Allows : Allows (Command.switch 1) allocated
unfolding run_command init_system translate alloc_page find_free
allocated-Allows f = ground arith

forked-Allows : Allows (Command.write 0) forked
unfolding run_command init_system translate alloc_page find_free switch_process
forked-Allows = (1, omega arith, refl)

no_directory : (i : ℕ) (dir : Directory) → get_elem? zeros.pdes i ≡ some (some dir) → ⊥
no_directory zero dir e = ground (arith, e)
no_directory (suc zero) dir e = ground (arith, e)
no_directory (suc (suc zero)) dir e = ground (arith, e)
no_directory (suc (suc (suc zero))) dir e = ground (arith, e)
no_directory (suc (suc (suc (suc i)))) dir e = ground (arith, e)

zeros_clear : (dir : Directory) → AllInvalid dir → Leaves dir → ⊥
zeros_clear dir clean (j, pte, e, live) =
    ground (arith, live, AllInvalid-get_elem? dir j pte clean e)

-- The memory of the session is clear.
zeros_untainted : (m : Machine) (c : Command) → Taints zeros m c → ⊥
zeros_untainted m c (Taints.page vpn flags e left) =
    zeros_clear (zeros.directory (pd_index vpn)) (ground arith) left
zeros_untainted m c (Taints.copy pid i e h left) =
    zeros_clear (zeros.directory i) (ground arith) left
zeros_untainted m c (Taints.child pid i dir e e') = no_directory i dir e'

written-Reaches : Reaches (init_system empty) written
written-Reaches =
    Reaches.step forked _ zeros (Command.write 0) true
      (Reaches.step allocated _ zeros (Command.switch 1) true
        (Reaches.step (init_system empty) _ zeros (Command.alloc 0 (codes "w")) true Reaches.here
          zeros-Sized (omega arith) allocated_run)
        zeros-Sized allocated-Allows forked_run)
      zeros-Sized forked-Allows written_run

written_untainted : Tainted (init_system empty) written written-Reaches → ⊥
unfolding written-Reaches
written_untainted (inr taints) = zeros_untainted _ _ taints
written_untainted (inl (inr taints)) = zeros_untainted _ _ taints
written_untainted (inl (inl (inr taints))) = zeros_untainted _ _ taints
written_untainted (inl (inl (inl bottom))) = bottom

Reaches-Sound_example :
    ((lost' : List Process) × Sound written lost' × Exclusive written lost' × (written.ptbr ≡ true))
    ⊎ Tainted (init_system empty) written written-Reaches
Reaches-Sound_example = Reaches-Sound empty written [] empty-Sound empty-Exclusive written-Reaches

written_pte :
    mapping 0 written.current.pagetable
    ≡ some (record { valid = true; rw = 3; pfn = 1; private = 3 })
unfolding run_command init_system translate alloc_page find_free switch_process handle_page_fault
written_pte = refl

Reaches-unshared_example :
    ((written.mapcounts 1 ≡ 1)
      × (count_table 1 written.current.pagetable ≡ 1)
      × (count_all 1 written.processes ≡ 0))
    ⊎ Tainted (init_system empty) written written-Reaches
Reaches-unshared_example =
    Reaches-unshared empty written [] 0 (record { valid = true; rw = 3; pfn = 1; private = 3 })
      empty-Sound empty-Exclusive written-Reaches written_pte (omega arith)

-- The child writes to a frame of its own.
written_counts : (written.mapcounts 0 ≡ 1) × (written.mapcounts 1 ≡ 1)
unfolding run_command init_system translate alloc_page find_free switch_process handle_page_fault
written_counts = (refl, refl)
