-- ===== src/Shell/Tests.antt =====
-- Runs of the shell's functions, and the theorems on them.
mod Pipe
use os_pa.Common.{
  ℕ, ◌≡◌, refl, true, some, none, false, strmatch, ◌<◌, List, All, [], ◌∷◌, codes, ltb, length,
  if◌then◌else◌, arith,
}
use os_pa.Parser.{max_nr_tokens}
use os_pa.Parser.Words.{words}
use os_pa.Shell.Tokens.{parse_command, parse_command-strtok}
use os_pa.Shell.Alias.{AliasEntry, Expanded, expand, Calls, Result, run_command}
use os_pa.Shell.Session.{Ending, main}
use os_pa.Shell.Session.Survival.{Plain, asks_exit, main_survives}
use os_pa.Shell.Expansion.{replaced, expand-replaced}

abbrev line : List ℕ
line = codes " ls -l "

parse_command-strtok_example :
    parse_command line
    ≡ (if ltb (length (words line)) max_nr_tokens then some (words line) else none)
parse_command-strtok_example = parse_command-strtok line

line_tokens : parse_command line ≡ some (codes "ls" ∷ codes "-l" ∷ [])
unfolding parse_command
line_tokens = refl

-- alias ls ls -l
abbrev entry : AliasEntry
entry = record { name = codes "ls"; command = codes "ls -l" }

entry_tokens : parse_command entry.command ≡ some (codes "ls" ∷ codes "-l" ∷ [])
unfolding parse_command
entry_tokens = refl

other_token : strmatch (codes "-l") (codes "ls") ≡ false
unfolding strmatch
other_token = refl

abbrev typed : List (List ℕ)
typed = codes "ls" ∷ codes "src" ∷ []

abbrev long : List (List ℕ)
long = replaced (codes "ls") (codes "ls" ∷ codes "-l" ∷ []) typed

few : length long < 4
unfolding strmatch
few = omega arith

expand-replaced_example : expand 4 entry [] typed ≡ Expanded.expanded long
expand-replaced_example =
    expand-replaced entry (codes "ls") (codes "-l" ∷ []) typed 4 entry_tokens (other_token, tt) few

abbrev calls : Calls
calls = record { home = none; chdir = λ dir. true; pipe = true; run = λ tokens. true }

-- An alias is defined, and "exit" leaves.
define_alias :
    run_command 9 calls [] (codes "alias" ∷ codes "ls" ∷ codes "ls" ∷ codes "-l" ∷ [])
    ≡ (Result.succeeds, entry ∷ [])
unfolding run_command strmatch
define_alias = refl

exit_leaves : run_command 9 calls [] (codes "exit" ∷ []) ≡ (Result.leaves, [])
unfolding run_command strmatch
exit_leaves = refl

-- A command that fails, a blank line, and exit.
abbrev failing : Calls
failing = record { home = none; chdir = λ dir. false; pipe = true; run = λ tokens. false }

abbrev session : List (Calls × List ℕ)
session =
    (failing, codes "ls -l | wc")
    ∷ (failing, codes "cd /")
    ∷ (calls, codes " ")
    ∷ (calls, codes "exit")
    ∷ (calls, codes "ls")
    ∷ []

session-Plain : All Plain session
unfolding parse_command strmatch
session-Plain = (
  record {
    words = codes "ls" ∷ codes "-l" ∷ codes "|" ∷ codes "wc" ∷ [];
    parsed = refl;
    unaliased = refl;
    piped = refl;
  },
  (
    record { words = codes "cd" ∷ codes "/" ∷ []; parsed = refl; unaliased = refl; piped = refl },
    (
      record { words = []; parsed = refl; unaliased = refl; piped = refl },
      (
        record { words = codes "exit" ∷ []; parsed = refl; unaliased = refl; piped = refl },
        (record { words = codes "ls" ∷ []; parsed = refl; unaliased = refl; piped = refl }, tt),
      ),
    ),
  ),
)

session_leaves : (if asks_exit session then Ending.left else Ending.closed) ≡ Ending.left
unfolding parse_command strmatch
session_leaves = refl

main_survives_example :
    main 9 session ≡ some (if asks_exit session then Ending.left else Ending.closed, [])
main_survives_example = main_survives 9 session session-Plain
