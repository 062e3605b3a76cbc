-- ===== src/Shell/Pipe.antt =====
-- The branch of run_command of OS-PA1/pa1.c for a command with a pipe: the descriptors of the shell
-- and of its two children.
--
-- A table of descriptors has an open file, by a number of its own, or nothing at each of them. A
-- fork copies the table. pipe(), dup2() and close() are parameters, and fork() succeeds.
pub mod Connects
use os_pa.Common.{
  ℕ, ◌<◌, ◌≡◌, ◌≢◌, refl, sym, ap, ◌∙◌, subst, Bool, true, false, Option, none, some, List, [], ◌∷◌,
  ◌++◌, All, if◌then◌else◌, codes, strmatch, inl, inr, Bool-cases, ◌==◌, ==→eq, ==→ne, arith,
  if_true, if_false,
}
use os_pa.Shell.Alias.{split_pipe, Calls, Result, change_directory}

abbrev pub Files : Type 0
Files = ℕ → Option ℕ

-- What pipe() fills in, and the table with its ends.
pub record NewPipe : Type 0 where
  pub read_fd : ℕ
  pub write_fd : ℕ
  pub reads : ℕ
  pub writes : ℕ
  pub files : Files

pub record Kernel : Type 0 where
  pub pipe : Files → Option NewPipe
  pub dup2 : ℕ → ℕ → Files → Files
  pub close : ℕ → Files → Files

-- What a child executes, and with which descriptors.
pub record Child : Type 0 where
  pub argv : List (List ℕ)
  pub files : Files

pub record Piped : Type 0 where
  pub left : Child
  pub right : Child
  pub shell : Files

-- The left child is forked first, and the right one when the shell has closed its writing end.
unfoldable pub fork_children : Kernel → List (List ℕ) → List (List ℕ) → NewPipe → Piped
fork_children k left right p =
    let after_left = k.close p.write_fd p.files in
    record {
      left = record { argv = left; files = k.close p.read_fd (k.dup2 p.write_fd 1 p.files) };
      right = record { argv = right; files = k.close p.write_fd (k.dup2 p.read_fd 0 after_left) };
      shell = k.close p.read_fd after_left;
    }

-- What becomes of a command that may have a pipe: it has none, cd changes the directory, exit(1)
-- when pipe() fails, or two children.
pub data PipeResult : Type 0 where
  no_pipe : PipeResult
  changed : Result → PipeResult
  dies : PipeResult
  forked : Piped → PipeResult

abbrev pub is_cd : List (List ℕ) → Bool
is_cd [] = false
is_cd (token ∷ tokens) = strmatch token (codes "cd")

unfoldable pub run_piped : Kernel → Calls → List (List ℕ) → Files → PipeResult
unfolding fork_children split_pipe change_directory
run_piped k calls tokens files = elim (split_pipe tokens) [
  | none ↦ PipeResult.no_pipe
  | some (left, right) ↦
      if is_cd tokens
      then PipeResult.changed (change_directory calls tokens)
      else elim (k.pipe files) [
        | none ↦ PipeResult.dies
        | some p ↦ PipeResult.forked (fork_children k left right p)
      ]
]
