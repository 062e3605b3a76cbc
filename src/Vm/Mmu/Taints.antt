-- ===== src/Vm/Mmu/Taints.antt =====
-- What malloc() leaves in the memory of a new directory (pa3.c:149, pa3.c:310) and of the page
-- table of a child (pa3.c:302), and the commands that take it over.
use os_pa.Common.{
  ℕ, zero, suc, ◌<◌, ◌≡◌, ◌⊎◌, refl, sym, subst, ◌∙◌, inl, inr, true, Option, none, some, List, [],
  ◌∷◌, get_elem?, arith, Bool-cases, ◌==◌, ==→eq, ==→ne,
}
use os_pa.Vm.Types.{Pte, Directory, Pagetable, Machine, Fresh, pd_index}
use os_pa.Vm.Fork.{find_process}
use os_pa.Vm.Mmu.{Command}
use os_pa.Vm.Frames.Count.{AllInvalid}
use os_pa.Vm.Frames.Copies.{AllNone}
use os_pa.Vm.Frames.Sound.{CleanPage, CleanFork, NoneValid, Sized}

-- The directory has an entry that says that it is valid.
abbrev pub Leaves : Directory → Type 0
Leaves dir = (j : ℕ) × (pte : Pte) × (get_elem? dir j ≡ some pte) × (pte.valid ≡ true)

-- The memory that malloc() has for the command holds a valid entry or a pointer to a directory,
-- which the code does not clear.
pub data Taints (fresh : Fresh) (m : Machine) : Command → Type 0 where
  page :
      (vpn : ℕ) (flags : List ℕ)
      → get_elem? m.current.pagetable (pd_index vpn) ≡ some none
      → Leaves (fresh.directory (pd_index vpn))
      → Taints fresh m (Command.alloc vpn flags)
  copy :
      (pid i : ℕ)
      → find_process pid m.processes ≡ none
      → i < 4
      → Leaves (fresh.directory i)
      → Taints fresh m (Command.switch pid)
  child :
      (pid i : ℕ) (dir : Directory)
      → find_process pid m.processes ≡ none
      → get_elem? fresh.pdes i ≡ some (some dir)
      → Taints fresh m (Command.switch pid)

directory_cases : (dir : Directory) → AllInvalid dir ⊎ Leaves dir
directory_cases [] = inl tt
directory_cases (pte ∷ dir) = elim (Bool-cases pte.valid) [
  | inl live ↦ inr (0, pte, refl, live)
  | inr dead ↦ elim (directory_cases dir) [
    | inl clean ↦ inl (dead, clean)
    | inr (j, q, e, live) ↦ inr (suc j, q, e, live)
  ]
]

pdes_cases :
    (pdes : Pagetable)
    → AllNone pdes ⊎ ((i : ℕ) × (dir : Directory) × (get_elem? pdes i ≡ some (some dir)))
pdes_cases [] = inl tt
pdes_cases (some dir ∷ pdes) = inr (0, dir, refl)
pdes_cases (none ∷ pdes) = elim (pdes_cases pdes) [
  | inl clean ↦ inl (refl, clean)
  | inr (i, dir, e) ↦ inr (suc i, dir, e)
]

-- The first n directories of the memory.
directories_cases :
    (fresh : Fresh) (n : ℕ) → NoneValid fresh n ⊎ ((i : ℕ) × (i < n) × Leaves (fresh.directory i))
directories_cases fresh zero = inl (λ k h. absurd (omega arith))
directories_cases fresh (suc n) = elim (directory_cases (fresh.directory n)) [
  | inr left ↦ inr (n, omega arith, left)
  | inl last ↦ elim (directories_cases fresh n) [
    | inr (i, h, left) ↦ inr (i, omega arith, left)
    | inl clean ↦ inl λ k h. elim (Bool-cases (k == n)) [
      | inl e ↦ subst (λ j. AllInvalid (fresh.directory j)) (sym (==→eq k n e)) last
      | inr e ↦ let apart = ==→ne k n e in clean k (omega arith)
    ]
  ]
]

pub page_cases :
    (fresh : Fresh) (m : Machine) (vpn : ℕ) (flags : List ℕ)
    → Sized fresh
    → CleanPage fresh vpn m.current.pagetable ⊎ Taints fresh m (Command.alloc vpn flags)
page_cases fresh m vpn flags sized = at (get_elem? m.current.pagetable (pd_index vpn)) refl
  where
    at :
        (o : Option (Option Directory))
        → get_elem? m.current.pagetable (pd_index vpn) ≡ o
        → CleanPage fresh vpn m.current.pagetable ⊎ Taints fresh m (Command.alloc vpn flags)
    at none e = inl (λ q. absurd (ground (arith, sym q ∙ e)))
    at (some (some dir)) e = inl (λ q. absurd (ground (arith, sym q ∙ e)))
    at (some none) e = elim (directory_cases (fresh.directory (pd_index vpn))) [
      | inl clean ↦ inl (λ q. (clean, sized.full (pd_index vpn)))
      | inr left ↦ inr (Taints.page vpn flags e left)
    ]

pub fork_cases :
    (fresh : Fresh) (m : Machine) (pid : ℕ)
    → find_process pid m.processes ≡ none
    → CleanFork fresh ⊎ Taints fresh m (Command.switch pid)
fork_cases fresh m pid forks = elim (directories_cases fresh 4) [
  | inr (i, h, left) ↦ inr (Taints.copy pid i forks h left)
  | inl directories ↦ elim (pdes_cases fresh.pdes) [
    | inr (i, dir, e) ↦ inr (Taints.child pid i dir forks e)
    | inl empty ↦ inl (record { directories = directories; empty = empty })
  ]
]
