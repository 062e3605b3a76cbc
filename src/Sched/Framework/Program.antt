-- ===== src/Sched/Framework/Program.antt =====
-- main of sched.c: the options select a scheduler, the script is loaded, and the simulation runs.
-- The options are the characters that getopt() returns; the script is the list of the lines that
-- fgets() returns, and fopen() succeeds.
use os_pa.Common.{◌≡◌, refl, ℕ, ◌==◌, if◌then◌else◌, Option, none, some, List, [], ◌∷◌}
use os_pa.Parser.{parse_command}
use os_pa.Sched.Types.{System}
use os_pa.Sched.Policy.Tables.{Policy, scheduler_of}
use os_pa.Sched.Framework.Simulation.{Outcome, do_simulation, initialize}
use os_pa.Sched.Framework.Loader.{Tokens, Loader, Loaded, load_line, load_script}

-- One option: the scheduler after it, if the loop goes on.
unfoldable pub select : ℕ → Policy → Option Policy
select opt sched =
    if opt == b'q'
    then some sched
    else if opt == b'f'
    then some Policy.fcfs
    else if opt == b's'
    then some Policy.sjf
    else if opt == b'S'
    then some Policy.stcf
    else if opt == b'r'
    then some Policy.rr
    else if opt == b'p'
    then some Policy.prio
    else if opt == b'a'
    then some Policy.pa
    else if opt == b'i'
    then some Policy.pip
    else if opt == b'c'
    then some Policy.pcp
    else none

unfoldable pub options : List ℕ → Policy → Option Policy
unfolding select
options [] sched = some sched
options (opt ∷ opts) sched = elim (select opt sched) [ none ↦ none | some next ↦ options opts next ]

-- The loop over the lines of the script: each is parsed and then loaded. `none` if a line has too
-- many tokens.
unfoldable pub load_lines : List (List ℕ) → Loader → Option Loaded
unfolding parse_command load_line
load_lines [] l = some (Loaded.loading l)
load_lines (line ∷ lines) l = elim (parse_command line) [
  | none ↦ none
  | some tokens ↦ elim (load_line tokens l) [
    | Loaded.loading next ↦ load_lines lines next
    | Loaded.unknown ↦ some Loaded.unknown
    | Loaded.failed ↦ some Loaded.failed
  ]
]

-- The usage text is printed, a token does not fit in its array, the script has an unknown property,
-- an assertion fails in loading it, or the simulation ends.
pub data Exit : Type 0 where
  usage overrun bad_property bad_script : Exit
  simulated : Outcome → Exit

-- What main does with the loaded script. `fuel` bounds the rounds of the simulation.
unfoldable pub finish : ℕ → Policy → Loaded → Exit
unfolding do_simulation scheduler_of
finish fuel sched (Loaded.loading l) =
    Exit.simulated (do_simulation fuel (scheduler_of sched) l.system)
finish fuel sched Loaded.unknown = Exit.bad_property
finish fuel sched Loaded.failed = Exit.bad_script

abbrev start : System → Loader
start s = record { system = initialize s; p = none; next_address = 0 }

-- From the lines as tokens.
unfoldable pub run_script : ℕ → Policy → List Tokens → System → Exit
unfolding load_script initialize finish
run_script fuel sched script s = finish fuel sched (load_script script (start s))

-- The script is the argument behind the options: it is missing, or a file of lines.
unfoldable pub main : ℕ → List ℕ → Option (List (List ℕ)) → System → Exit
unfolding options load_lines initialize finish
main fuel opts scriptfile s = elim (options opts Policy.fcfs) [
  | none ↦ Exit.usage
  | some sched ↦ elim scriptfile [
    | none ↦ Exit.usage
    | some lines ↦ elim (load_lines lines (start s)) [
      | none ↦ Exit.overrun
      | some r ↦ finish fuel sched r
    ]
  ]
]

-- The lines have these tokens.
abbrev Parse : List (List ℕ) → List Tokens → Type 0
Parse [] [] = Unit {0}
Parse [] (tokens ∷ script) = ⊥
Parse (line ∷ lines) [] = ⊥
Parse (line ∷ lines) (tokens ∷ script) = (parse_command line ≡ some tokens) × Parse lines script

goes_on :
    (lines : List (List ℕ)) (script : List Tokens) (r : Loaded)
    → ((l : Loader) → load_lines lines l ≡ some (load_script script l))
    → elim r [
      | Loaded.loading l ↦ load_lines lines l
      | Loaded.unknown ↦ some Loaded.unknown
      | Loaded.failed ↦ some Loaded.failed
    ]
      ≡ some (elim r [
        | Loaded.loading l ↦ load_script script l
        | Loaded.unknown ↦ Loaded.unknown
        | Loaded.failed ↦ Loaded.failed
      ])
goes_on lines script (Loaded.loading l) h = h l
goes_on lines script Loaded.unknown h = refl
goes_on lines script Loaded.failed h = refl

load_lines-load_script :
    (lines : List (List ℕ)) (script : List Tokens) (l : Loader)
    → Parse lines script
    → load_lines lines l ≡ some (load_script script l)
unfolding load_lines load_script
load_lines-load_script [] [] l h = refl
load_lines-load_script [] (tokens ∷ script) l h = absurd h
load_lines-load_script (line ∷ lines) [] l h = absurd h
load_lines-load_script (line ∷ lines) (tokens ∷ script) l h =
    rw (h.0, load_lines)
      (goes_on lines script (load_line tokens l)
        (λ next. load_lines-load_script lines script next h.1))

-- A script whose lines have these tokens is run as they are.
main-run_script :
    (fuel : ℕ) (opts : List ℕ) (sched : Policy) (lines : List (List ℕ)) (script : List Tokens)
    (s : System)
    → options opts Policy.fcfs ≡ some sched
    → Parse lines script
    → main fuel opts (some lines) s ≡ run_script fuel sched script s
unfolding main run_script
main-run_script fuel opts sched lines script s e h =
    rw (e, load_lines-load_script lines script (start s) h, main) refl
