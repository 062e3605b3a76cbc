-- ===== src/Vm/Frames/Copies.antt =====
-- The copy of a page table in a fork, and the map counts that it leaves.
use os_pa.Common.{
  ℕ, zero, suc, ◌+◌, ◌<◌, ◌≡◌, refl, ap, subst, sym, ◌∙◌, Option, none, some, List, [], ◌∷◌, ◌++◌,
  All, length, get_elem?, u32_mod, ◌==◌, if◌then◌else◌, arith, inl, inr, Bool-cases, Option-cases,
}
use os_pa.Vm.Types.{Pte, Directory, Pagetable, Process, Fresh}
use os_pa.Vm.Fork.{Shared, fork_pte, fork_directory, fork_pagetable}
use os_pa.Vm.Frames.Count.{
  count_pte, count_directory, count_table, count_all, count_pde, AllInvalid, AllInvalid-get_elem?,
}
use os_pa.Vm.Frames.Sound.{PdeShape, only_valid, Sized, NoneValid}

-- What a mapping becomes on both sides of a fork: a writable page is read-only.
abbrev pub protected : Option Pte → Option Pte
protected none = none
protected (some pte) = some (if pte.rw == 3 then record pte { rw = 1 } else pte)

-- A copy of the directory whose valid entries are protected.
record CopiesDirectory (dir : Directory) (copy : Directory) : Type 0 where
  same_length : length copy ≡ length dir
  entries : (i : ℕ) → only_valid (get_elem? copy i) ≡ protected (only_valid (get_elem? dir i))
  same_count : (f : ℕ) → count_directory f copy ≡ count_directory f dir

abbrev Room : (ℕ → ℕ) → (ℕ → ℕ) → Type 0
Room counts more = (f : ℕ) → counts f + more f < u32_mod

-- The entry of the child: the parent's, protected, or what malloc() left.
abbrev pub inherits : Option Pte → Option Pte → Option Pte
inherits none left = left
inherits (some pte) left = protected (some pte)

record SharesDirectory (dir fresh : Directory) (counts : ℕ → ℕ) (s : Shared Directory)
    : Type 0 where
  parent : CopiesDirectory dir s.parent
  same_length : length s.child ≡ length dir
  child :
      (i : ℕ)
      → only_valid (get_elem? s.child i)
        ≡ inherits (only_valid (get_elem? dir i)) (only_valid (get_elem? fresh i))
  child_count : AllInvalid fresh → (f : ℕ) → count_directory f s.child ≡ count_directory f dir
  counted : (f : ℕ) → s.counts f ≡ counts f + count_directory f dir

copy_entry :
    (pte copy : Pte) (dir rest : Directory)
    → only_valid (some copy) ≡ protected (only_valid (some pte))
    → ((f : ℕ) → count_pte f copy ≡ count_pte f pte)
    → CopiesDirectory dir rest
    → CopiesDirectory (pte ∷ dir) (copy ∷ rest)
copy_entry pte copy dir rest e c h = record {
  same_length = ap suc h.same_length;
  entries = entries;
  same_count = λ f. omega (arith, c f, h.same_count f);
}
  where
    entries :
        (i : ℕ)
        → only_valid (get_elem? (copy ∷ rest) i) ≡ protected (only_valid (get_elem? (pte ∷ dir) i))
    entries zero = e
    entries (suc i) = h.entries i

fork_pte-count :
    (pte fresh : Pte) (counts : ℕ → ℕ) (f : ℕ)
    → counts f + count_pte f pte < u32_mod
    → (fork_pte pte fresh counts).counts f ≡ counts f + count_pte f pte
unfolding fork_pte
fork_pte-count pte fresh counts f h = ground arith

fork_pte-child :
    (pte x : Pte) (counts : ℕ → ℕ)
    → only_valid (some (fork_pte pte x counts).child)
      ≡ inherits (only_valid (some pte)) (only_valid (some x))
unfolding fork_pte
fork_pte-child pte x counts = elim (Bool-cases pte.valid) [
  | inl live ↦ rw live (ground (arith, live))
  | inr dead ↦ rw dead refl
]

fork_directory-Shares :
    (dir fresh : Directory) (counts : ℕ → ℕ)
    → length fresh ≡ length dir
    → Room counts (λ f. count_directory f dir)
    → SharesDirectory dir fresh counts (fork_directory dir fresh counts)
unfolding fork_directory
fork_directory-Shares [] [] counts l room = record {
  parent = record { same_length = refl; entries = λ i. refl; same_count = λ f. refl };
  same_length = refl;
  child = λ i. refl;
  child_count = λ z f. refl;
  counted = λ f. omega arith;
}
fork_directory-Shares [] (x ∷ fresh) counts l room = absurd (omega arith)
fork_directory-Shares (pte ∷ dir) [] counts l room = absurd (omega arith)
fork_directory-Shares (pte ∷ dir) (x ∷ fresh) counts l room =
    let one = fork_pte pte x counts in
    let step = λ (f : ℕ). fork_pte-count pte x counts f (omega (arith, room f)) in
    let rest =
      fork_directory-Shares dir fresh one.counts (omega arith)
        (λ f. omega (arith, step f, room f)) in
    record {
      parent = copy_entry pte one.parent dir _ (ground arith) (λ f. ground arith) rest.parent;
      same_length = ap suc rest.same_length;
      child = child rest.child;
      child_count = λ z f. ground (arith, z.0, rest.child_count z.1 f);
      counted = λ f. omega (arith, step f, rest.counted f);
    }
  where
    child :
        ((i : ℕ)
          → only_valid (get_elem? (fork_directory dir fresh (fork_pte pte x counts).counts).child i)
            ≡ inherits (only_valid (get_elem? dir i)) (only_valid (get_elem? fresh i)))
        → (i : ℕ)
        → only_valid (get_elem? (fork_directory (pte ∷ dir) (x ∷ fresh) counts).child i)
          ≡ inherits (only_valid (get_elem? (pte ∷ dir) i)) (only_valid (get_elem? (x ∷ fresh) i))
    child rest zero = fork_pte-child pte x counts
    child rest (suc i) = rest i

-- The entry of a directory at an index.
abbrev pub pde_entry : ℕ → Option (Option Directory) → Option Pte
pde_entry j none = none
pde_entry j (some none) = none
pde_entry j (some (some dir)) = get_elem? dir j

-- The same for page tables. A missing directory stays missing.
pub record CopiesTable (table : Pagetable) (copy : Pagetable) : Type 0 where
  pub same_length : length copy ≡ length table
  pub shaped : All PdeShape copy
  pub entries :
      (i j : ℕ)
      → only_valid (pde_entry j (get_elem? copy i))
        ≡ protected (only_valid (pde_entry j (get_elem? table i)))
  pub same_count : (f : ℕ) → count_table f copy ≡ count_table f table

-- What malloc() left at an entry of the child: in the new directory, or, where the parent has no
-- directory, behind whatever pointer stands in the new page table.
abbrev pub left_at : Fresh → ℕ → Option Directory → Option Directory → ℕ → Option Pte
left_at fresh i none p j = pde_entry j (some p)
left_at fresh i (some dir) p j = get_elem? (fresh.directory i) j

abbrev pub leftover : Fresh → ℕ → Pagetable → Pagetable → ℕ → ℕ → Option Pte
leftover fresh i [] pdes n j = none
leftover fresh i (x ∷ table) [] n j = none
leftover fresh i (x ∷ table) (p ∷ pdes) zero j = left_at fresh i x p j
leftover fresh i (x ∷ table) (p ∷ pdes) (suc n) j = leftover fresh (i + 1) table pdes n j

abbrev pub AllNone : Pagetable → Type 0
AllNone = All (λ pde. pde ≡ none)

pub record SharesTable (fresh : Fresh) (i : ℕ) (table pdes : Pagetable) (counts : ℕ → ℕ)
    (s : Shared Pagetable) : Type 0 where
  pub parent : CopiesTable table s.parent
  pub child :
      (n j : ℕ)
      → only_valid (pde_entry j (get_elem? s.child n))
        ≡ inherits
            (only_valid (pde_entry j (get_elem? table n)))
            (only_valid (leftover fresh i table pdes n j))
  pub child_length : length s.child ≡ length table
  pub child_shape : AllNone pdes → All PdeShape s.child
  pub child_count :
      NoneValid fresh (i + length table)
      → AllNone pdes
      → (f : ℕ) → count_table f s.child ≡ count_table f table
  pub counted : (f : ℕ) → s.counts f ≡ counts f + count_table f table

copy_none :
    (table rest : Pagetable) → CopiesTable table rest → CopiesTable (none ∷ table) (none ∷ rest)
copy_none table rest h = record {
  same_length = ap suc h.same_length;
  shaped = (tt, h.shaped);
  entries = entries;
  same_count = λ f. omega (arith, h.same_count f);
}
  where
    entries :
        (i j : ℕ)
        → only_valid (pde_entry j (get_elem? (none ∷ rest) i))
          ≡ protected (only_valid (pde_entry j (get_elem? (none ∷ table) i)))
    entries zero j = refl
    entries (suc i) j = h.entries i j

copy_some :
    (dir copy : Directory) (table rest : Pagetable)
    → length dir ≡ 16
    → CopiesDirectory dir copy
    → CopiesTable table rest
    → CopiesTable (some dir ∷ table) (some copy ∷ rest)
copy_some dir copy table rest l d h = record {
  same_length = ap suc h.same_length;
  shaped = (d.same_length ∙ l, h.shaped);
  entries = entries;
  same_count = λ f. omega (arith, h.same_count f, d.same_count f);
}
  where
    entries :
        (i j : ℕ)
        → only_valid (pde_entry j (get_elem? (some copy ∷ rest) i))
          ≡ protected (only_valid (pde_entry j (get_elem? (some dir ∷ table) i)))
    entries zero j = d.entries j
    entries (suc i) j = h.entries i j

-- The entries of the child, the first directory and the others apart.
child_entries :
    (fresh : Fresh) (i : ℕ) (x p c : Option Directory) (table pdes child : Pagetable)
    → ((j : ℕ)
        → only_valid (pde_entry j (some c))
          ≡ inherits (only_valid (pde_entry j (some x))) (only_valid (left_at fresh i x p j)))
    → ((n j : ℕ)
        → only_valid (pde_entry j (get_elem? child n))
          ≡ inherits
              (only_valid (pde_entry j (get_elem? table n)))
              (only_valid (leftover fresh (i + 1) table pdes n j)))
    → (n j : ℕ)
    → only_valid (pde_entry j (get_elem? (c ∷ child) n))
      ≡ inherits
          (only_valid (pde_entry j (get_elem? (x ∷ table) n)))
          (only_valid (leftover fresh i (x ∷ table) (p ∷ pdes) n j))
child_entries fresh i x p c table pdes child first others zero j = first j
child_entries fresh i x p c table pdes child first others (suc n) j = others n j

pub fork_pagetable-Shares :
    (fresh : Fresh) (i : ℕ) (table pdes : Pagetable) (counts : ℕ → ℕ)
    → Sized fresh
    → length pdes ≡ length table
    → All PdeShape table
    → Room counts (λ f. count_table f table)
    → SharesTable fresh i table pdes counts (fork_pagetable fresh i table pdes counts)
unfolding fork_pagetable
fork_pagetable-Shares fresh i [] [] counts z l sh room = record {
  parent = record {
    same_length = refl;
    shaped = tt;
    entries = λ i j. refl;
    same_count = λ f. refl;
  };
  child = λ n j. refl;
  child_length = refl;
  child_shape = λ n. tt;
  child_count = λ v n f. refl;
  counted = λ f. omega arith;
}
fork_pagetable-Shares fresh i [] (x ∷ pdes) counts z l sh room = absurd (omega arith)
fork_pagetable-Shares fresh i (x ∷ table) [] counts z l sh room = absurd (omega arith)
fork_pagetable-Shares fresh i (none ∷ table) (p ∷ pdes) counts z l sh room =
    let rest =
      fork_pagetable-Shares fresh (i + 1) table pdes counts z (omega arith) sh.1
        (λ f. omega (arith, room f)) in
    record {
      parent = copy_none table _ rest.parent;
      child = child_entries fresh i none p p table pdes _ (λ j. refl) rest.child;
      child_length = ap suc rest.child_length;
      child_shape = λ n. (subst PdeShape (sym n.0) tt, rest.child_shape n.1);
      child_count = λ v n f.
          omega (arith, rest.child_count (λ k h. v k (omega arith)) n.1 f, ap (count_pde f) n.0);
      counted = λ f. omega (arith, rest.counted f);
    }
fork_pagetable-Shares fresh i (some dir ∷ table) (p ∷ pdes) counts z l sh room =
    let one =
      fork_directory-Shares dir (fresh.directory i) counts (z.full i ∙ sym sh.0)
        (λ f. omega (arith, room f)) in
    let rest =
      fork_pagetable-Shares fresh (i + 1) table pdes
        (fork_directory dir (fresh.directory i) counts).counts z (omega arith) sh.1
        (λ f. omega (arith, one.counted f, room f)) in
    record {
      parent = copy_some dir _ table _ sh.0 one.parent rest.parent;
      child = child_entries fresh i (some dir) p _ table pdes _ one.child rest.child;
      child_length = ap suc rest.child_length;
      child_shape = λ n. (one.same_length ∙ sh.0, rest.child_shape n.1);
      child_count = λ v n f. omega (
        arith,
        one.child_count (v i (omega arith)) f,
        rest.child_count (λ k h. v k (omega arith)) n.1 f,
      );
      counted = λ f. omega (arith, one.counted f, rest.counted f);
    }

-- With nothing left by malloc(), the child has the parent's pages only.
nothing_left :
    (fresh : Fresh) (i : ℕ) (table pdes : Pagetable) (n j : ℕ)
    → NoneValid fresh (i + length table)
    → AllNone pdes
    → only_valid (leftover fresh i table pdes n j) ≡ none
nothing_left fresh i [] pdes n j v e = refl
nothing_left fresh i (x ∷ table) [] n j v e = refl
nothing_left fresh i (none ∷ table) (p ∷ pdes) zero j v e = rw (e.0) refl
nothing_left fresh i (some dir ∷ table) (p ∷ pdes) zero j v e =
    elim (Option-cases (get_elem? (fresh.directory i) j)) [
      | inl q ↦ rw q refl
      | inr (pte, q) ↦
          rw (q, AllInvalid-get_elem? (fresh.directory i) j pte (v i (omega arith)) q) refl
    ]
nothing_left fresh i (x ∷ table) (p ∷ pdes) (suc n) j v e =
    nothing_left fresh (i + 1) table pdes n j (λ k h. v k (omega arith)) e.1

inherits_nothing : (o left : Option Pte) → left ≡ none → inherits o left ≡ protected o
inherits_nothing none left e = e
inherits_nothing (some pte) left e = refl

pub SharesTable-clean :
    (fresh : Fresh) (i : ℕ) (table pdes : Pagetable) (counts : ℕ → ℕ) (s : Shared Pagetable)
    → NoneValid fresh (i + length table)
    → AllNone pdes
    → SharesTable fresh i table pdes counts s
    → CopiesTable table s.child
SharesTable-clean fresh i table pdes counts s v e h = record {
  same_length = h.child_length;
  shaped = h.child_shape e;
  entries = λ n j. h.child n j ∙ inherits_nothing _ _ (nothing_left fresh i table pdes n j v e);
  same_count = h.child_count v e;
}

pub count_all-append :
    (f : ℕ) (ps : List Process) (p : Process)
    → count_all f (ps ++ p ∷ []) ≡ count_all f ps + count_table f p.pagetable
count_all-append f [] p = omega arith
count_all-append f (x ∷ ps) p = omega (arith, count_all-append f ps p)
