-- ===== src/Vm/Tests.antt =====
-- Runs of the simulator on concrete machines, and the theorems on them.
mod Reach
mod Console
use os_pa.Common.{
  ℕ, ◌+◌, ◌≤◌, ◌<◌, ◌≡◌, ◌≢◌, refl, true, none, some, List, All, codes, strmatch, atoi, [], ◌∷◌,
  replicate, u32_mod, ◌==◌, if◌then◌else◌, arith, All-replicate, inl, inr,
}
use os_pa.Vm.Types.{Pte, Directory, Process, TlbEntry, Machine, Fresh}
use os_pa.Vm.Tlb.{cleared, lookup_tlb, insert_tlb, remove_tlb, flush_tlb}
use os_pa.Vm.Tlb.Lookup.{EmptyFrom, lookup-insert_tlb, flush_tlb_complete}
use os_pa.Vm.Tlb.Stale.{remove-insert_tlb_stale}
use os_pa.Vm.Mmu.{Command, init_system, run_commands, translate, access_memory}
use os_pa.Vm.Console.{lowered, read_line, do_simulation}
use os_pa.Parser.{parse_command}
use os_pa.Vm.Mmu.Coherent.{HasFlags, PteFlags, Agrees, Coherent, All-HasFlags}
use os_pa.Vm.Mmu.Translate.{Translates, translate-Translates}
use os_pa.Vm.Mmu.Write.{Resolves, access_memory-Resolves}
use os_pa.Vm.Page.{
  unmap_frame, set_pte, unmapped_pte, find_free, alloc_page, free_page, handle_page_fault,
}
use os_pa.Vm.Fork.{fork_process, find_process, switch_process}
use os_pa.Vm.Frames.Sound.{TableShape, Sound, Sized, mapping}
use os_pa.Vm.Frames.Place.{Places, alloc_page-Places}
use os_pa.Vm.Frames.Count.{count_table}
use os_pa.Vm.Frames.Free.{Frees, free_page-Frees}
use os_pa.Vm.Frames.Full.{AllMapped, handle_page_fault_twice}
use os_pa.Vm.Frames.Fork.{Forks, fork_process-Forks}
use os_pa.Vm.Frames.Switch.{Switches, switch_process-Switches, switch_process_back}

abbrev no_pages : Directory
no_pages = replicate 16 unmapped_pte

-- Memory as calloc() would return it.
abbrev zeros : Fresh
zeros = record { directory = λ i. no_pages; pdes = none ∷ none ∷ none ∷ none ∷ [] }

abbrev garbage_pte : Pte
garbage_pte = record { valid = true; rw = 3; pfn = 9; private = 0 }

-- Memory with a valid entry at the start of each directory.
abbrev garbage : Fresh
garbage = record {
  directory = λ i. garbage_pte ∷ replicate 15 unmapped_pte;
  pdes = none ∷ none ∷ some (garbage_pte ∷ []) ∷ none ∷ [];
}

zeros-Sized : Sized zeros
zeros-Sized = record { full = λ i. refl; four = refl }

garbage-Sized : Sized garbage
garbage-Sized = record { full = λ i. refl; four = refl }

-- A page that was writable before a fork, at frame 5.
abbrev shared_pte : Pte
shared_pte = record { valid = true; rw = 1; pfn = 5; private = 3 }

abbrev one_page : Process
one_page = record {
  pid = 0;
  pagetable = some (shared_pte ∷ replicate 15 unmapped_pte) ∷ none ∷ none ∷ none ∷ [];
}

abbrev other_page : Process
other_page = record { pid = 1; pagetable = one_page.pagetable }

-- Two processes share frame 5, and the TLB is free.
abbrev sharing : Machine
sharing = record {
  current = one_page;
  processes = other_page ∷ [];
  ptbr = true;
  mapcounts = λ f. if 5 == f then 2 else 0;
  tlb = replicate 256 cleared;
  print_tlb_result = true;
}

one_page-TableShape : TableShape one_page.pagetable
one_page-TableShape = record { four = refl; sixteen = (refl, (tt, (tt, (tt, tt)))) }

sharing-Sound : Sound sharing []
sharing-Sound = record {
  shape = one_page-TableShape;
  shapes = (one_page-TableShape, tt);
  counts = λ f. ground arith;
  fits = λ f. ground arith;
  high = λ f h. ground arith;
}

sharing_room : (f : ℕ) → sharing.mapcounts f + count_table f one_page.pagetable < u32_mod
sharing_room f = ground arith

alloc_page-Places_example : Places garbage 20 3 sharing [] (alloc_page garbage 20 3 sharing)
alloc_page-Places_example =
    alloc_page-Places garbage 20 3 sharing [] garbage-Sized (omega arith) sharing-Sound refl

-- A page beside the allocated one is mapped to the frame that its memory names.
garbage_beside :
    elim (alloc_page garbage 20 3 sharing) [
      | none ↦ none
      | some (f, m) ↦ mapping 16 m.current.pagetable
    ]
    ≡ some garbage_pte
unfolding alloc_page find_free
garbage_beside = refl

free_page-Frees_example : Frees 0 sharing [] (free_page 0 sharing)
free_page-Frees_example = free_page-Frees 0 sharing [] (omega arith) sharing-Sound

-- As `sharing`, with every other frame mapped once.
abbrev crowded : Machine
crowded = record sharing { mapcounts = λ f. if 5 == f then 2 else 1 }

crowded-AllMapped : AllMapped crowded.mapcounts
crowded-AllMapped j frame z = ground (arith, z)

handle_page_fault_twice_example :
    let t = unmap_frame 5 crowded in
    (handle_page_fault zeros 0 2 crowded ≡ some (true, t))
    × (t.mapcounts 5 ≡ 1)
    × (handle_page_fault zeros 0 2 t
        ≡ some (
          true,
          set_pte 0 (shared_pte ∷ replicate 15 unmapped_pte) (record shared_pte { rw = 3 }) t,
        ))
handle_page_fault_twice_example =
    handle_page_fault_twice zeros 0 2 crowded (shared_pte ∷ replicate 15 unmapped_pte) shared_pte
      refl refl refl refl refl crowded-AllMapped

fork_process-Forks_example : Forks garbage 2 sharing (fork_process garbage 2 sharing)
fork_process-Forks_example =
    fork_process-Forks garbage 2 sharing garbage-Sized one_page-TableShape sharing_room

-- A page that the parent does not map is what the memory of the fork holds.
garbage_child : mapping 32 (fork_process garbage 2 sharing).current.pagetable ≡ some garbage_pte
unfolding fork_process
garbage_child = refl

switch_process-Switches_example : Switches garbage 1 sharing [] (switch_process garbage 1 sharing)
switch_process-Switches_example =
    switch_process-Switches garbage 1 sharing [] garbage-Sized sharing-Sound sharing_room

switch_process_back_example :
    let away = switch_process zeros 1 sharing in
    let forked = fork_process zeros 0 away in
    (away.current ≡ other_page)
    × (switch_process zeros 0 away ≡ record forked { tlb = flush_tlb forked.tlb })
unfolding find_process
switch_process_back_example =
    switch_process_back zeros zeros 1 sharing other_page [] refl (refl, tt)

lookup-insert_tlb_example :
    ((r : ℕ) → r ≤ 3 → lookup_tlb 9 r (insert_tlb 9 3 5 sharing.tlb) ≡ some 5)
    × ((v r : ℕ)
        → v ≢ 9
        → lookup_tlb v r (insert_tlb 9 3 5 sharing.tlb) ≡ lookup_tlb v r sharing.tlb)
lookup-insert_tlb_example = lookup-insert_tlb 9 3 5 sharing.tlb tt

sharing_empty : EmptyFrom 128 sharing.tlb
sharing_empty = ground arith

flush_tlb_complete_example :
    ((vpn flags pfn : ℕ) → EmptyFrom 128 (insert_tlb vpn flags pfn sharing.tlb))
    × ((vpn : ℕ) → EmptyFrom 128 (remove_tlb vpn sharing.tlb))
    × ((vpn r : ℕ) → lookup_tlb vpn r (flush_tlb sharing.tlb) ≡ none)
flush_tlb_complete_example = flush_tlb_complete sharing.tlb sharing_empty

abbrev old_entry : TlbEntry
old_entry = record { valid = true; rw = 1; vpn = 9; pfn = 5; private = 1 }

remove-insert_tlb_stale_example :
    lookup_tlb 9 1 (remove_tlb 9 (insert_tlb 9 3 6 (cleared ∷ old_entry ∷ []))) ≡ some 5
unfolding lookup_tlb
remove-insert_tlb_stale_example =
    remove-insert_tlb_stale 9 1 3 6 5 [] cleared (old_entry ∷ []) (omega arith) tt refl refl

one_page-HasFlags : HasFlags one_page.pagetable
one_page-HasFlags = All-HasFlags one_page.pagetable (
  (λ live. inl refl, All-replicate PteFlags 15 unmapped_pte (λ live. absurd (ground arith))),
  (tt, (tt, (tt, tt))),
)

sharing-Coherent : Coherent one_page.pagetable sharing.tlb
sharing-Coherent =
    All-replicate (Agrees one_page.pagetable) 256 cleared (λ live. absurd (ground arith))

translate-Translates_example : Translates 1 0 sharing (translate 1 0 sharing)
translate-Translates_example =
    translate-Translates 1 0 sharing (inl refl) (omega arith) one_page-TableShape refl
      one_page-HasFlags sharing-Coherent

access_memory-Resolves_example : Resolves 0 shared_pte sharing [] (access_memory zeros 0 2 sharing)
access_memory-Resolves_example =
    access_memory-Resolves zeros 0 sharing [] shared_pte (omega arith) sharing-Sound refl
      one_page-HasFlags sharing-Coherent refl (omega arith, refl, omega arith)
      (inr (0, omega arith, refl))
