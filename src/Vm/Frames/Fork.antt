-- ===== src/Vm/Frames/Fork.antt =====
-- switch_process: a fork shares every page for copy-on-write, and keeps the invariant.
use os_pa.Common.{
  ℕ, ◌+◌, ◌<◌, ◌≡◌, refl, sym, ◌∙◌, Option, none, some, List, [], ◌∷◌, ◌++◌, All-snoc, get_elem?,
  u32_mod, arith,
}
use os_pa.Vm.Types.{Directory, Pagetable, Process, Machine, Fresh, pd_index, pte_index}
use os_pa.Vm.Fork.{Shared, fork_pagetable, fork_process}
use os_pa.Vm.Frames.Count.{count_table}
use os_pa.Vm.Frames.Sound.{TableShape, Sound, pte_in, mapping, only_valid, CleanFork, Sized}
use os_pa.Vm.Frames.Copies.{
  protected, CopiesTable, fork_pagetable-Shares, count_all-append, pde_entry, inherits, leftover,
  SharesTable, SharesTable-clean,
}

-- Every page of one table is a page of the other, at the same frame, and writable in neither.
abbrev pub SharesPages : Pagetable → Pagetable → Type 0
SharesPages before after = (v : ℕ) → mapping v after ≡ protected (mapping v before)

mapping-entry : (v : ℕ) (o : Option (Option Directory)) → pte_in v o ≡ pde_entry (pte_index v) o
mapping-entry v none = refl
mapping-entry v (some none) = refl
mapping-entry v (some (some dir)) = refl

CopiesTable-SharesPages : (table copy : Pagetable) → CopiesTable table copy → SharesPages table copy
CopiesTable-SharesPages table copy h v =
    rw
      (
        mapping-entry v (get_elem? copy (pd_index v)),
        mapping-entry v (get_elem? table (pd_index v)),
      )
      (h.entries (pd_index v) (pte_index v))

-- The new process is current and the old one waits at the end of the list, with the same pages. A
-- page that the old process does not map is in the new one as malloc() left it.
pub record Forks (fresh : Fresh) (pid : ℕ) (m m' : Machine) : Type 0 where
  pub named : m'.current.pid ≡ pid
  pub child :
      (v : ℕ)
      → mapping v m'.current.pagetable
        ≡ inherits (mapping v m.current.pagetable) (
            only_valid (leftover fresh 0 m.current.pagetable fresh.pdes (pd_index v) (pte_index v)))
  pub parent : Process
  pub parent_pid : parent.pid ≡ m.current.pid
  pub parent_pages : SharesPages m.current.pagetable parent.pagetable
  pub listed : m'.processes ≡ m.processes ++ parent ∷ []
  pub counted : (f : ℕ) → m'.mapcounts f ≡ m.mapcounts f + count_table f m.current.pagetable

module _ (fresh : Fresh) (pid : ℕ) (m : Machine) (sized : Sized fresh)
    (shape : TableShape m.current.pagetable)
    (room : (f : ℕ) → m.mapcounts f + count_table f m.current.pagetable < u32_mod) where
  shared : Shared Pagetable
  shared = fork_pagetable fresh 0 m.current.pagetable fresh.pdes m.mapcounts

  shares : SharesTable fresh 0 m.current.pagetable fresh.pdes m.mapcounts shared
  unfolding shared
  shares =
      fork_pagetable-Shares fresh 0 m.current.pagetable fresh.pdes m.mapcounts sized
        (sized.four ∙ sym shape.four) shape.sixteen room

  -- On a page table of four directories or NULL, each of 16 entries, with memory of the right size
  -- from malloc() and map counts that do not overflow, fork_process makes a child that is current
  -- and maps every page of its parent at the same frame. A page with the flag 3 has the flag 1 on
  -- both sides. A page that the parent does not map is in the child as malloc() left it. Each map
  -- count grows by the pages of the parent that map the frame, and the parent goes to the end of
  -- the list.
  pub fork_process-Forks : Forks fresh pid m (fork_process fresh pid m)
  unfolding fork_process shared
  fork_process-Forks = record {
    named = refl;
    child = λ v.
        rw
          (
            mapping-entry v (get_elem? shared.child (pd_index v)),
            mapping-entry v (get_elem? m.current.pagetable (pd_index v)),
          )
          (shares.child (pd_index v) (pte_index v));
    parent = record (m.current) { pagetable = shared.parent };
    parent_pid = refl;
    parent_pages = CopiesTable-SharesPages _ _ shares.parent;
    listed = refl;
    counted = shares.counted;
  }

  -- With nothing left by malloc(), the machine stays sound and the child has the parent's pages.
  pub fork_process-Sound :
      (lost : List Process)
      → CleanFork fresh
      → Sound m lost
      → Sound (fork_process fresh pid m) lost
        × SharesPages m.current.pagetable (fork_process fresh pid m).current.pagetable
  unfolding fork_process shared
  fork_process-Sound lost clean s =
      let child =
        SharesTable-clean fresh 0 m.current.pagetable fresh.pdes m.mapcounts shared
          (λ k h. clean.directories k (omega (arith, h, shape.four))) clean.empty shares in
      let parent : Process = record (m.current) { pagetable = shared.parent } in
      (
        record {
          shape = record { four = child.same_length ∙ s.shape.four; sixteen = child.shaped };
          shapes =
              All-snoc (λ p. TableShape p.pagetable) parent m.processes
                (record {
                  four = shares.parent.same_length ∙ s.shape.four;
                  sixteen = shares.parent.shaped;
                })
                s.shapes;
          counts = λ f. omega (
            arith,
            shares.counted f,
            s.counts f,
            child.same_count f,
            shares.parent.same_count f,
            count_all-append f m.processes parent,
          );
          fits = λ f. omega (arith, shares.counted f, room f);
          high = λ f h. omega (arith, shares.counted f, s.counts f, s.high f h);
        },
        CopiesTable-SharesPages _ _ child,
      )
