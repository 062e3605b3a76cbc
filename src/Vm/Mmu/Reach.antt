-- ===== src/Vm/Mmu/Reach.antt =====
-- The machines that a session of commands can come to.
use os_pa.Common.{
  ℕ, ◌||◌, ◌==◌, ◌≢◌, inl, inr, ◌+◌, ◌<◌, ◌≡◌, refl, sym, ap, subst, ◌∙◌, ◌⊎◌, All, Option-cases,
  false, Bool, true, false, Option, none, some, List, [], ◌∷◌, u32_mod, arith,
}
use mathlib.Core.Option.{some-injective}
use os_pa.Vm.Types.{Pte, Process, Machine, Fresh}
use os_pa.Vm.Fork.{find_process, switch_to, switch_process}
use os_pa.Vm.Mmu.{
  Access, Command, access_memory, free_command, init_system, rwflag_each, make_rwflag, run_command,
}
use os_pa.Vm.Frames.Count.{count_table, count_all}
use os_pa.Vm.Frames.Sound.{Sound, mapping, CleanFork, Sized}
use os_pa.Vm.Frames.Exclusive.{Exclusive}
use os_pa.Vm.Frames.Sharing.{Exclusive-Unshared, Switches-Exclusive}
use os_pa.Vm.Frames.Switch.{find_process-none, switch_process-Switches, switch_process-Sound}
use os_pa.Vm.Mmu.Healthy.{Healthy, IsFlag, Keeps, Spare}
use os_pa.Vm.Mmu.Taints.{Taints, page_cases, fork_cases}
use os_pa.Vm.Mmu.Commands.{free_command-Keeps, alloc_command-Keeps, access_memory-Keeps}

-- When a command can be given: the page number of an allocation or a release is one of the 64, an
-- access that may copy finds a free frame, and no map count overflows in a fork.
abbrev pub Allows : Command → Machine → Type 0
Allows (Command.switch pid) m = (f : ℕ) → m.mapcounts f + m.mapcounts f < u32_mod
Allows (Command.free vpn) m = vpn < 64
Allows (Command.alloc vpn flags) m = vpn < 64
Allows (Command.read vpn) m = Unit {0}
Allows (Command.write vpn) m = Spare m
Allows (Command.access vpn flags) m = Spare m

-- The machines that commands lead to. malloc() returns memory of the size that it is asked for.
pub data Reaches (m : Machine) : Machine → Type 0 where
  here : Reaches m m
  step :
      (t u : Machine) (fresh : Fresh) (c : Command) (again : Bool)
      → Reaches m t
      → Sized fresh
      → Allows c t
      → run_command fresh c t ≡ some (again, u)
      → Reaches m u

-- For a command on the way, malloc() has memory that is not clear.
abbrev pub Tainted : (m u : Machine) → Reaches m u → Type 0
Tainted m u Reaches.here = ⊥
Tainted m u (Reaches.step t _ fresh c again r sized allowed e) = Tainted m t r ⊎ Taints fresh t c

switch_process-root :
    (fresh : Fresh) (pid : ℕ) (m : Machine) → (switch_process fresh pid m).ptbr ≡ true
unfolding switch_process switch_to
switch_process-root fresh pid m = set_root (find_process pid m.processes)
  where
    set_root : (r : Option (Process × List Process)) → (switch_to fresh pid r m).ptbr ≡ true
    set_root none = refl
    set_root (some (found, others)) = refl

-- A healthy machine, with what it has lost.
abbrev Stays : Machine → Type 0
Stays m = (lost : List Process) × Healthy m lost

switch_cases :
    (fresh : Fresh) (pid : ℕ) (m : Machine)
    → (All (λ p. (p.pid == pid) ≡ false) m.processes → CleanFork fresh)
      ⊎ Taints fresh m (Command.switch pid)
switch_cases fresh pid m = elim (Option-cases (find_process pid m.processes)) [
  | inr (found, e) ↦
      inl (λ far. absurd (ground (arith, sym (find_process-none pid m.processes far) ∙ e)))
  | inl e ↦ elim (fork_cases fresh m pid e) [
    | inl clean ↦ inl (λ far. clean)
    | inr taints ↦ inr taints
  ]
]

switch-Stays :
    (fresh : Fresh) (pid : ℕ) (m : Machine) (lost : List Process)
    → Healthy m lost
    → Sized fresh
    → (All (λ p. (p.pid == pid) ≡ false) m.processes → CleanFork fresh)
    → ((f : ℕ) → m.mapcounts f + m.mapcounts f < u32_mod)
    → Stays (switch_process fresh pid m)
switch-Stays fresh pid m lost h sized clean room =
    let enough : (f : ℕ) → m.mapcounts f + count_table f m.current.pagetable < u32_mod =
      λ f. omega (arith, room f, h.sound.counts f) in
    let (lost', sound, exclusive) =
      Switches-Exclusive fresh pid m (switch_process fresh pid m) lost h.sound h.exclusive
        (λ far. switch_process-Sound fresh pid m lost sized (clean far) h.sound enough far)
        (switch_process-Switches fresh pid m lost sized h.sound enough) in
    (lost', record { sound = sound; exclusive = exclusive; root = switch_process-root fresh pid m })

-- The flags that a text comes to.
rwflag_each-IsFlag : (write : Bool) (cs : List ℕ) → IsFlag (rwflag_each write cs)
unfolding rwflag_each
rwflag_each-IsFlag true [] = inr refl
rwflag_each-IsFlag false [] = inl refl
rwflag_each-IsFlag write (c ∷ cs) = rwflag_each-IsFlag (write || c == b'w' || c == b'W') cs

make_rwflag-IsFlag : (flags : List ℕ) → IsFlag (make_rwflag flags)
unfolding make_rwflag
make_rwflag-IsFlag flags = rwflag_each-IsFlag false flags

-- The machine of a result that is there.
Keeps-result :
    (A : Type 0) (lost : List Process) (r : Option (A × Machine)) (u : Machine) (a : A)
    → Keeps A lost r
    → r ≡ some (a, u)
    → Healthy u lost
Keeps-result A lost r u a h e = subst (Keeps A lost) e h

-- The command goes on whatever came of the access.
Keeps-after :
    (A : Type 0) (lost : List Process) (r : Option (A × Machine))
    → Keeps A lost r
    → Keeps Bool lost (elim r [ none ↦ none | some (a, t) ↦ some (true, t) ])
Keeps-after A lost none h = tt
Keeps-after A lost (some (a, t)) h = h

run_command-Stays :
    (fresh : Fresh) (c : Command) (t u : Machine) (again : Bool) (lost : List Process)
    → Healthy t lost
    → Sized fresh
    → Allows c t
    → run_command fresh c t ≡ some (again, u)
    → Stays u ⊎ Taints fresh t c
unfolding run_command
run_command-Stays fresh (Command.switch pid) t u again lost h sized allowed e =
    elim (switch_cases fresh pid t) [
      | inr taints ↦ inr taints
      | inl clean ↦ inl (
          subst Stays (ap (λ x. x.1) (some-injective _ _ e))
            (switch-Stays fresh pid t lost h sized clean allowed))
    ]
run_command-Stays fresh (Command.free vpn) t u again lost h sized allowed e = inl (
  lost,
  Keeps-result Bool lost _ u again
      (Keeps-after Bool lost (free_command vpn t) (free_command-Keeps vpn lost allowed t h)) e,
)
run_command-Stays fresh (Command.read vpn) t u again lost h sized allowed e = inl (
  lost,
  Keeps-result Bool lost _ u again
      (Keeps-after Access lost (access_memory fresh vpn 1 t)
        (access_memory-Keeps fresh vpn 1 t lost h (λ pte cow. absurd (ground (arith, cow)))))
      e,
)
run_command-Stays fresh (Command.write vpn) t u again lost h sized allowed e = inl (
  lost,
  Keeps-result Bool lost _ u again
      (Keeps-after Access lost (access_memory fresh vpn 2 t)
        (access_memory-Keeps fresh vpn 2 t lost h (λ pte cow. allowed)))
      e,
)
run_command-Stays fresh (Command.alloc vpn flags) t u again lost h sized allowed e =
    elim (page_cases fresh t vpn flags sized) [
      | inr taints ↦ inr taints
      | inl clean ↦ inl (
        lost,
        Keeps-result Bool lost _ u again
            (alloc_command-Keeps vpn lost allowed fresh (make_rwflag flags) t clean
              (make_rwflag-IsFlag flags) h)
            e,
      )
    ]
run_command-Stays fresh (Command.access vpn flags) t u again lost h sized allowed e = inl (
  lost,
  Keeps-result Bool lost _ u again
      (Keeps-after Access lost (access_memory fresh vpn (make_rwflag flags) t)
        (access_memory-Keeps fresh vpn (make_rwflag flags) t lost h (λ pte cow. allowed)))
      e,
)

Reaches-Stays : (m u : Machine) (r : Reaches m u) → Stays m → Stays u ⊎ Tainted m u r
Reaches-Stays m u Reaches.here s = inl s
Reaches-Stays m u (Reaches.step t _ fresh c again r sized allowed e) s =
    elim (Reaches-Stays m t r s) [
      | inr before ↦ inr (inl before)
      | inl (lost, h) ↦ elim (run_command-Stays fresh c t u again lost h sized allowed e) [
        | inl stays ↦ inl stays
        | inr taints ↦ inr (inr taints)
      ]
    ]

-- From a sound machine whose page table init_system has put in use, and whose pages are exclusive,
-- let commands lead to another one: each with memory of the right size from malloc(), each
-- allocation and release of one of the 64 pages, each write or access command with a free frame,
-- and each switch with map counts that do not overflow when doubled. Then that machine is sound
-- with some list of lost processes, its pages are exclusive, and its page table is in use, or
-- malloc() had memory for one of the commands that the code does not clear: a new directory, of an
-- allocation or a fork, with an entry that says that it is valid, or the page table of a child
-- with a pointer other than NULL. Pages are exclusive if each mapped page of all processes, the
-- lost ones included, has the flag 1, or the flag 3 and a frame that is mapped once at most.
pub Reaches-Sound :
    (m u : Machine) (lost : List Process)
    → Sound m lost
    → Exclusive m lost
    → (r : Reaches (init_system m) u)
    → ((lost' : List Process) × Sound u lost' × Exclusive u lost' × (u.ptbr ≡ true))
      ⊎ Tainted (init_system m) u r
unfolding init_system
Reaches-Sound m u lost s x r =
    let started : Healthy (init_system m) lost = record {
      sound = record {
        shape = s.shape;
        shapes = s.shapes;
        counts = s.counts;
        fits = s.fits;
        high = s.high;
      };
      exclusive = record { current = x.current; listed = x.listed; lost_ones = x.lost_ones };
      root = refl;
    } in
    elim (Reaches-Stays (init_system m) u r (lost, started)) [
      | inl (lost', h) ↦ inl (lost', h.sound, h.exclusive, h.root)
      | inr taints ↦ inr taints
    ]

-- From a sound machine whose page table init_system has put in use, and whose pages are exclusive,
-- let commands lead to another one: each with memory of the right size from malloc(), each
-- allocation and release of one of the 64 pages, each write or access command with a free frame,
-- and each switch with map counts that do not overflow when doubled. If the current process then
-- maps a page with another flag than 1, the map count of its frame is one, no other page of the
-- process maps that frame, and no process of the list does, or malloc() had memory for one of the
-- commands that the code does not clear: a new directory, of an allocation or a fork, with an
-- entry that says that it is valid, or the page table of a child with a pointer other than NULL.
pub Reaches-unshared :
    (m u : Machine) (lost : List Process) (vpn : ℕ) (pte : Pte)
    → Sound m lost
    → Exclusive m lost
    → (r : Reaches (init_system m) u) → mapping vpn u.current.pagetable ≡ some pte
    → pte.rw ≢ 1
    → ((u.mapcounts pte.pfn ≡ 1)
        × (count_table pte.pfn u.current.pagetable ≡ 1)
        × (count_all pte.pfn u.processes ≡ 0))
      ⊎ Tainted (init_system m) u r
Reaches-unshared m u lost vpn pte s x r e writable = elim (Reaches-Sound m u lost s x r) [
  | inl (lost', sound, exclusive, on) ↦
      inl (Exclusive-Unshared vpn pte u lost' sound exclusive e writable)
  | inr taints ↦ inr taints
]
