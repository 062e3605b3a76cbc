-- ===== src/Vm/Mmu.antt =====
-- vm.c: the translation of addresses, and the commands of the simulator that change its state.
--
-- `none` is a fault of the simulator itself, or a failed assertion.
pub mod Coherent
pub mod Translate
pub mod Write
pub mod Healthy
pub mod Commands
pub mod Reach
pub mod Taints
use os_pa.Common.{
  ℕ, zero, suc, Bool, true, false, ◌&&◌, ◌||◌, not, Option, none, some, List, [], ◌∷◌, ltb, ◌==◌,
  if◌then◌else◌, get_elem?,
}
use os_pa.Vm.Types.{
  Pte, Directory, Machine, Fresh, access_read, access_write, has_read, has_write, pd_index,
  pte_index,
}
use os_pa.Vm.Tlb.{lookup_tlb, insert_tlb}
use os_pa.Vm.Page.{alloc_page, free_page, handle_page_fault}
use os_pa.Vm.Fork.{switch_process}

-- A successful translation: the frame, and whether it came from the TLB.
abbrev pub Translation : Type 0
Translation = Option (ℕ × Bool)

-- The checks on the PTE, and the insertion into the TLB.
unfoldable pub use_pte : ℕ → ℕ → Pte → Machine → Translation × Machine
use_pte rw vpn pte m =
    if not pte.valid
    then (none, m)
    else if has_write rw && not (has_write pte.rw)
    then (none, m)
    else (
      some (pte.pfn, false),
      if m.print_tlb_result then record m { tlb = insert_tlb vpn pte.rw pte.pfn m.tlb } else m,
    )

unfoldable pub walk_directory :
    ℕ → ℕ → Option (Option Directory) → Machine → Option (Translation × Machine)
unfolding use_pte
walk_directory rw vpn none m = none
walk_directory rw vpn (some none) m = some (none, m)
walk_directory rw vpn (some (some dir)) m = elim (get_elem? dir (pte_index vpn)) [
  | none ↦ none
  | some pte ↦ some (use_pte rw vpn pte m)
]

-- The walk through the table that ptbr points to.
unfoldable pub walk_table : ℕ → ℕ → Machine → Option (Translation × Machine)
unfolding walk_directory
walk_table rw vpn m =
    if m.ptbr
    then walk_directory rw vpn (get_elem? m.current.pagetable (pd_index vpn)) m
    else some (none, m)

-- __translate
unfoldable pub translate : ℕ → ℕ → Machine → Option (Translation × Machine)
unfolding walk_table
translate rw vpn m = elim (if m.print_tlb_result then lookup_tlb vpn rw m.tlb else none) [
  | some pfn ↦ some (some (pfn, true), m)
  | none ↦ walk_table rw vpn m
]

-- How __access_memory ends: it returns true with a translation, true without one, or false.
pub data Access : Type 0 where
  done : ℕ → Bool → Access
  unresolved : Access
  denied : Access

-- The loop of __access_memory, for that many rounds.
unfoldable pub access_loop : ℕ → Fresh → ℕ → ℕ → Machine → Option (Access × Machine)
access_loop zero fresh vpn rw m = some (Access.unresolved, m)
access_loop (suc rounds) fresh vpn rw m = elim (translate rw vpn m) [
  | none ↦ none
  | some (found, t) ↦ elim found [
    | some (pfn, from_tlb) ↦ some (Access.done pfn from_tlb, t)
    | none ↦ elim (handle_page_fault fresh vpn rw t) [
      | none ↦ none
      | some (handled, u) ↦ elim handled [
        | true ↦ access_loop rounds fresh vpn rw u
        | false ↦ some (Access.denied, u)
      ]
    ]
  ]
]

-- assert((rw & ACCESS_READ) ^ (rw & ACCESS_WRITE)): the exclusive or of two different bits is
-- zero only if both are.
unfoldable pub access_memory : Fresh → ℕ → ℕ → Machine → Option (Access × Machine)
unfolding access_loop
access_memory fresh vpn rw m =
    if has_read rw || has_write rw
    then if ltb vpn 64 then access_loop 2 fresh vpn rw m else none
    else none

-- __make_rwflag, on the characters of the text.
unfoldable pub rwflag_each : Bool → List ℕ → ℕ
rwflag_each write [] = if write then 3 else access_read
rwflag_each write (c ∷ cs) = rwflag_each (write || c == b'w' || c == b'W') cs

unfoldable pub make_rwflag : List ℕ → ℕ
unfolding rwflag_each
make_rwflag rw = rwflag_each false rw

-- __alloc_page and __free_page
unfoldable pub alloc_command : Fresh → ℕ → ℕ → Machine → Option (Bool × Machine)
alloc_command fresh vpn rw m =
    if has_read rw
    then elim (translate access_read vpn m) [
      | none ↦ none
      | some (found, t) ↦ elim found [
        | some hit ↦ some (false, t)
        | none ↦ elim (alloc_page fresh vpn rw t) [
          | none ↦ none
          | some (pfn, u) ↦ elim pfn [ none ↦ some (false, u) | some f ↦ some (true, u) ]
        ]
      ]
    ]
    else none

unfoldable pub free_command : ℕ → Machine → Option (Bool × Machine)
free_command vpn m = elim (translate access_read vpn m) [
  | none ↦ none
  | some (found, t) ↦ elim found [
    | none ↦ some (false, t)
    | some hit ↦ elim (free_page vpn t) [ none ↦ none | some u ↦ some (true, u) ]
  ]
]

-- __init_system
unfoldable pub init_system : Machine → Machine
init_system m = record m { ptbr = true }

-- The commands of __do_simulation that change the state.
pub data Command : Type 0 where
  switch free read write : ℕ → Command
  alloc access : ℕ → List ℕ → Command

-- One command: the new state, and whether the loop goes on.
unfoldable pub run_command : Fresh → Command → Machine → Option (Bool × Machine)
unfolding access_memory make_rwflag alloc_command free_command
run_command fresh (Command.switch pid) m = some (true, switch_process fresh pid m)
run_command fresh (Command.free vpn) m = elim (free_command vpn m) [
  | none ↦ none
  | some (freed, t) ↦ some (true, t)
]
run_command fresh (Command.read vpn) m = elim (access_memory fresh vpn access_read m) [
  | none ↦ none
  | some (r, t) ↦ some (true, t)
]
run_command fresh (Command.write vpn) m = elim (access_memory fresh vpn access_write m) [
  | none ↦ none
  | some (r, t) ↦ some (true, t)
]
run_command fresh (Command.alloc vpn flags) m = alloc_command fresh vpn (make_rwflag flags) m
run_command fresh (Command.access vpn flags) m =
    elim (access_memory fresh vpn (make_rwflag flags) m) [
      | none ↦ none
      | some (r, t) ↦ some (true, t)
    ]

-- The loop of __do_simulation, with what malloc() returns to each command.
unfoldable pub run_commands : List (Fresh × Command) → Machine → Option Machine
unfolding run_command
run_commands [] m = some m
run_commands ((fresh, c) ∷ cs) m = elim (run_command fresh c m) [
  | none ↦ none
  | some (again, t) ↦ elim again [ true ↦ run_commands cs t | false ↦ some t ]
]
