-- ===== src/Vm/Console.antt =====
-- The loop of __do_simulation in vm.c from the text of its commands, and main.
--
-- fgets() returns the lines in turn, each with what malloc() returns while its command runs.
-- strtoimax() is a parameter: the value of a text, as the unsigned int that the source stores.
-- tolower() is modelled by the C standard. The show functions print only.
pub mod Sessions
use os_pa.Common.{
  ℕ, ◌+◌, Bool, true, false, ◌&&◌, ◌||◌, Option, none, some, List, [], ◌∷◌, leb, ◌==◌,
  if◌then◌else◌, codes, strmatch,
}
use os_pa.Parser.{parse_command}
use os_pa.Vm.Types.{Machine, Fresh}
use os_pa.Vm.Mmu.{Command, init_system, run_command}

abbrev pub tolower : ℕ → ℕ
tolower c = if leb b'A' c && leb c b'Z' then c + 32 else c

unfoldable pub lowered : List ℕ → List ℕ
lowered [] = []
lowered (c ∷ cs) = tolower c ∷ lowered cs

-- What a line asks for: the end, text to be printed, or a command. With more than three tokens it
-- fails an assertion, or does not fit in the array.
pub data Request : Type 0 where
  leaves prints faults : Request
  runs : Command → Request

-- "exit"; all others of one word print.
unfoldable pub one_token : List ℕ → Request
unfolding strmatch
one_token key = if strmatch key (codes "exit") then Request.leaves else Request.prints

unfoldable pub two_tokens : List ℕ → ℕ → Request
unfolding strmatch
two_tokens key arg =
    if strmatch key (codes "switch") || strmatch key (codes "s")
    then Request.runs (Command.switch arg)
    else if strmatch key (codes "free") || strmatch key (codes "f")
    then Request.runs (Command.free arg)
    else if strmatch key (codes "read") || strmatch key (codes "r")
    then Request.runs (Command.read arg)
    else if strmatch key (codes "write") || strmatch key (codes "w")
    then Request.runs (Command.write arg)
    else Request.prints

unfoldable pub three_tokens : List ℕ → ℕ → List ℕ → Request
unfolding strmatch
three_tokens key vpn flags =
    if strmatch key (codes "alloc") || strmatch key (codes "a")
    then Request.runs (Command.alloc vpn flags)
    else if strmatch key (codes "access")
    then Request.runs (Command.access vpn flags)
    else Request.prints

-- An empty line is skipped.
unfoldable pub request_of : (List ℕ → ℕ) → List (List ℕ) → Request
unfolding one_token two_tokens three_tokens
request_of strtoimax [] = Request.prints
request_of strtoimax (key ∷ []) = one_token key
request_of strtoimax (key ∷ arg ∷ []) = two_tokens key (strtoimax arg)
request_of strtoimax (key ∷ vpn ∷ flags ∷ []) = three_tokens key (strtoimax vpn) flags
request_of strtoimax _ = Request.faults

-- A line in lower case, as tokens, as what it asks for.
unfoldable pub read_line : (List ℕ → ℕ) → List ℕ → Request
unfolding lowered parse_command request_of
read_line strtoimax line = elim (parse_command (lowered line)) [
  | none ↦ Request.faults
  | some tokens ↦ request_of strtoimax tokens
]

unfoldable pub answer : Fresh → Request → Machine → Option (Bool × Machine)
unfolding run_command
answer fresh Request.leaves m = some (false, m)
answer fresh Request.prints m = some (true, m)
answer fresh Request.faults m = none
answer fresh (Request.runs command) m = run_command fresh command m

unfoldable pub read_lines : (List ℕ → ℕ) → List (Fresh × List ℕ) → Machine → Option Machine
unfolding read_line answer
read_lines strtoimax [] m = some m
read_lines strtoimax ((fresh, line) ∷ lines) m = elim (answer fresh (read_line strtoimax line) m) [
  | none ↦ none
  | some (again, t) ↦ elim again [ true ↦ read_lines strtoimax lines t | false ↦ some t ]
]

unfoldable pub do_simulation : (List ℕ → ℕ) → List (Fresh × List ℕ) → Machine → Option Machine
unfolding init_system read_lines
do_simulation strtoimax lines m = read_lines strtoimax lines (init_system m)

-- The options that getopt() returns: -q prints less, -t uses the TLB, and all others print the usage
-- and leave.
unfoldable pub options : List ℕ → Machine → Option Machine
options [] m = some m
options (opt ∷ opts) m = elim (opt == b'q') [
  | true ↦ options opts m
  | false ↦ elim (opt == b't') [
    | true ↦ options opts (record m { print_tlb_result = true })
    | false ↦ none
  ]
]

-- EXIT_FAILURE without a simulation, a fault, or the machine at the end.
pub data Exit : Type 0 where
  usage fault : Exit
  success : Machine → Exit

unfoldable pub main : (List ℕ → ℕ) → List ℕ → List (Fresh × List ℕ) → Machine → Exit
unfolding options do_simulation
main strtoimax opts lines m = elim (options opts m) [
  | none ↦ Exit.usage
  | some t ↦ elim (do_simulation strtoimax lines t) [ none ↦ Exit.fault | some u ↦ Exit.success u ]
]
