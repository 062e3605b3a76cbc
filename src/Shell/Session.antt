-- ===== src/Shell/Session.antt =====
-- main of OS-PA1/mash.c: lines are read, split and run until one ends the shell.
--
-- fgets() returns the lines of a session in turn, each with the system calls as they behave while
-- it runs. The prompt and the options, which only change it, are left out.
pub mod Survival
use os_pa.Common.{ℕ, zero, Option, none, some, List, [], ◌∷◌, ◌==◌, if◌then◌else◌}
use os_pa.Shell.Tokens.{parse_command}
use os_pa.Shell.Alias.{AliasEntry, Calls, Result, run_command}

-- How the shell ends: at the end of the input, by exit, by a call of exit(1), or by what C leaves
-- open, with a loop that does not end among these.
pub data Ending : Type 0 where
  closed left died crashed overran looped : Ending

-- A line ends the shell, or the next one is read.
pub data Turn : Type 0 where
  ends : Ending → Turn
  goes_on : Turn

-- The tests on the return value of run_command; -EINVAL is not among its values.
unfoldable pub after_command : Result → Turn
after_command Result.leaves = Turn.ends Ending.left
after_command Result.succeeds = Turn.goes_on
after_command Result.fails = Turn.goes_on
after_command Result.dies = Turn.ends Ending.died
after_command Result.crashes = Turn.ends Ending.crashed
after_command Result.overruns = Turn.ends Ending.overran
after_command Result.loops = Turn.ends Ending.looped

-- One round of the loop. A line without a word is skipped.
unfoldable pub run_line : ℕ → Calls → List AliasEntry → List ℕ → Turn × List AliasEntry
unfolding run_command after_command
run_line fuel calls stack line = elim (parse_command line) [
  | none ↦ (Turn.ends Ending.overran, stack)
  | some [] ↦ (Turn.goes_on, stack)
  | some (key ∷ tokens) ↦
      let (result, stack') = run_command fuel calls stack (key ∷ tokens) in
      (after_command result, stack')
]

unfoldable pub read_lines : ℕ → List (Calls × List ℕ) → List AliasEntry → Ending × List AliasEntry
unfolding run_line
read_lines fuel [] stack = (Ending.closed, stack)
read_lines fuel ((calls, line) ∷ lines) stack =
    let (turn, stack') = run_line fuel calls stack line in
    elim turn [ Turn.ends ending ↦ (ending, stack') | Turn.goes_on ↦ read_lines fuel lines stack' ]

-- initialize() of pa1.c succeeds, and the stack of aliases is empty at first.
unfoldable pub initialize : ℕ
initialize = 0

-- EXIT_FAILURE, or the end of the loop.
unfoldable pub main : ℕ → List (Calls × List ℕ) → Option (Ending × List AliasEntry)
unfolding read_lines initialize
main fuel lines = if initialize == 0 then some (read_lines fuel lines []) else none
