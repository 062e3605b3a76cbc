-- ===== src/Shell/Alias.antt =====
-- run_command of OS-PA1/pa1.c: the expansion of aliases and the built-in commands.
use os_pa.Common.{
  ℕ, zero, suc, Bool, true, false, Option, none, some, List, [], ◌∷◌, ◌++◌, if◌then◌else◌, codes,
  strmatch,
}
use os_pa.Shell.Tokens.{parse_command}

-- alias_entry
pub record AliasEntry : Type 0 where
  pub name : List ℕ
  pub command : List ℕ

-- The tokens after the expansion, an overrun of the array of the alias's tokens, or no end so far.
pub data Expanded : Type 0 where
  expanded : List (List ℕ) → Expanded
  overrun out_of_fuel : Expanded

-- The loop over the tokens for one alias, at the token after `before`. A token that is the name
-- gives way to the tokens of the command, and the loop goes on behind the first of these.
unfoldable pub expand : ℕ → AliasEntry → List (List ℕ) → List (List ℕ) → Expanded
expand zero e before tokens = Expanded.out_of_fuel
expand (suc fuel) e before [] = Expanded.expanded before
expand (suc fuel) e before (token ∷ tokens) = elim (strmatch token e.name) [
  | false ↦ expand fuel e (before ++ token ∷ []) tokens
  | true ↦ elim (parse_command e.command) [
    | none ↦ Expanded.overrun
    | some command ↦ elim (command ++ tokens) [
      | [] ↦ Expanded.expanded before
      | first ∷ rest ↦ expand fuel e (before ++ first ∷ []) rest
    ]
  ]
]

-- The loop over the stack.
unfoldable pub expand_all : ℕ → List AliasEntry → List (List ℕ) → Expanded
unfolding expand
expand_all fuel [] tokens = Expanded.expanded tokens
expand_all fuel (e ∷ stack) tokens = elim (expand fuel e [] tokens) [
  | Expanded.expanded tokens' ↦ expand_all fuel stack tokens'
  | Expanded.overrun ↦ Expanded.overrun
  | Expanded.out_of_fuel ↦ Expanded.out_of_fuel
]

-- strcat() of the tokens, with a blank between two.
unfoldable pub join : List (List ℕ) → List ℕ
join [] = []
join (token ∷ []) = token
join (token ∷ next ∷ tokens) = token ++ 32 ∷ join (next ∷ tokens)

-- alias NAME COMMAND: a new entry on top of the stack. Without a name the stack is printed.
unfoldable pub add_alias : List (List ℕ) → List AliasEntry → List AliasEntry
unfolding join
add_alias (key ∷ name ∷ tokens) stack = record { name = name; command = join tokens } ∷ stack
add_alias _ stack = stack

-- The last pipe splits the tokens.
unfoldable pub split_pipe : List (List ℕ) → Option (List (List ℕ) × List (List ℕ))
split_pipe [] = none
split_pipe (token ∷ tokens) = elim (split_pipe tokens) [
  | some (left, right) ↦ some (token ∷ left, right)
  | none ↦ if strmatch token (codes "|") then some ([], tokens) else none
]

-- The environment: HOME, the success of chdir() and pipe(), and whether a command that is run ends
-- with the status 0.
pub record Calls : Type 0 where
  pub home : Option (List ℕ)
  pub chdir : Option (List ℕ) → Bool
  pub pipe : Bool
  pub run : List (List ℕ) → Bool

-- The return values 0, 1 and -1, exit(1), and what has no value.
pub data Result : Type 0 where
  leaves succeeds fails dies crashes overruns loops : Result

-- cd
unfoldable pub change_directory : Calls → List (List ℕ) → Result
change_directory calls (key ∷ dir ∷ tokens) =
    let target : Option (List ℕ) = if strmatch dir (codes "~") then calls.home else some dir in
    if calls.chdir target then Result.succeeds else Result.fails
change_directory calls _ = if calls.chdir calls.home then Result.succeeds else Result.fails

-- The command after the expansion of its aliases. A piped command runs in two children (Shell/Pipe),
-- whose status is not returned.
unfoldable pub dispatch : Calls → List AliasEntry → List (List ℕ) → Result × List AliasEntry
unfolding split_pipe change_directory add_alias
dispatch calls stack [] = (Result.crashes, stack)
dispatch calls stack (key ∷ tokens) = elim (split_pipe (key ∷ tokens)) [
  | some sides ↦
      if strmatch key (codes "cd")
      then (change_directory calls (key ∷ tokens), stack)
      else (if calls.pipe then Result.succeeds else Result.dies, stack)
  | none ↦
      if strmatch key (codes "cd")
      then (change_directory calls (key ∷ tokens), stack)
      else if strmatch key (codes "alias")
      then (Result.succeeds, add_alias (key ∷ tokens) stack)
      else (if calls.run (key ∷ tokens) then Result.succeeds else Result.fails, stack)
]

unfoldable pub run_command : ℕ → Calls → List AliasEntry → List (List ℕ) → Result × List AliasEntry
unfolding expand_all dispatch
run_command fuel calls stack [] = (Result.crashes, stack)
run_command fuel calls stack (key ∷ tokens) = elim (strmatch key (codes "exit")) [
  | true ↦ (Result.leaves, stack)
  | false ↦ elim (expand_all fuel stack (key ∷ tokens)) [
    | Expanded.expanded tokens' ↦ dispatch calls stack tokens'
    | Expanded.overrun ↦ (Result.overruns, stack)
    | Expanded.out_of_fuel ↦ (Result.loops, stack)
  ]
]
