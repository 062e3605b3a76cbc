-- ===== src/Vm/Console/Sessions.antt =====
-- What the lines of a session ask for: a table of the commands, apart from the loop of vm.c.
use os_pa.Common.{
  ℕ, ◌≤◌, ◌≡◌, ◌≢◌, refl, sym, ap, ◌∙◌, subst, Bool, true, false, ◌==◌, ==→eq, Option, none, some,
  List, [], ◌∷◌, length, codes, strmatch, leb, if_true, Bool-cases, inl, inr, arith,
}
use os_pa.Parser.{max_nr_tokens}
use os_pa.Parser.Words.{NoNul, words, before_comment, parse_command-words}
use os_pa.Vm.Types.{Machine, Fresh}
use os_pa.Vm.Mmu.{Command, init_system, run_command, run_commands}
use os_pa.Vm.Console.{
  lowered, Request, one_token, two_tokens, three_tokens, request_of, read_line, answer, read_lines,
  do_simulation,
}

-- The words that a number follows.
pub data OneNumber : List ℕ → (ℕ → Command) → Type 0 where
  switch : OneNumber (codes "switch") Command.switch
  short_switch : OneNumber (codes "s") Command.switch
  free : OneNumber (codes "free") Command.free
  short_free : OneNumber (codes "f") Command.free
  read : OneNumber (codes "read") Command.read
  short_read : OneNumber (codes "r") Command.read
  write : OneNumber (codes "write") Command.write
  short_write : OneNumber (codes "w") Command.write

-- The words that a number and flags follow.
pub data NumberAndFlags : List ℕ → (ℕ → List ℕ → Command) → Type 0 where
  alloc : NumberAndFlags (codes "alloc") Command.alloc
  short_alloc : NumberAndFlags (codes "a") Command.alloc
  access : NumberAndFlags (codes "access") Command.access

-- What the words of a line ask for.
pub data Asks (strtoimax : List ℕ → ℕ) : List (List ℕ) → Request → Type 0 where
  nothing : Asks strtoimax [] Request.prints
  exit : Asks strtoimax (codes "exit" ∷ []) Request.leaves
  show : (key : List ℕ) → key ≢ codes "exit" → Asks strtoimax (key ∷ []) Request.prints
  one_number :
      (key arg : List ℕ) (command : ℕ → Command)
      → OneNumber key command
      → Asks strtoimax (key ∷ arg ∷ []) (Request.runs (command (strtoimax arg)))
  no_number :
      (key arg : List ℕ)
      → ((command : ℕ → Command) → OneNumber key command → ⊥)
      → Asks strtoimax (key ∷ arg ∷ []) Request.prints
  flags :
      (key vpn rwflag : List ℕ) (command : ℕ → List ℕ → Command)
      → NumberAndFlags key command
      → Asks strtoimax (key ∷ vpn ∷ rwflag ∷ []) (Request.runs (command (strtoimax vpn) rwflag))
  no_flags :
      (key vpn rwflag : List ℕ)
      → ((command : ℕ → List ℕ → Command) → NumberAndFlags key command → ⊥)
      → Asks strtoimax (key ∷ vpn ∷ rwflag ∷ []) Request.prints

-- The words of a line in lower case, up to a comment.
pub record Reads (line : List ℕ) (tokens : List (List ℕ)) : Type 0 where
  pub text : NoNul (lowered line)
  pub few : length (words (lowered line)) ≤ max_nr_tokens
  pub first : before_comment (words (lowered line)) ≡ tokens

-- A session and the commands that it asks for, up to the first `exit`.
pub data Session (strtoimax : List ℕ → ℕ)
    : List (Fresh × List ℕ) → List (Fresh × Command) → Type 0 where
  done : Session strtoimax [] []
  leaves :
      (fresh : Fresh) (line : List ℕ) (lines : List (Fresh × List ℕ)) (tokens : List (List ℕ))
      → Reads line tokens
      → Asks strtoimax tokens Request.leaves
      → Session strtoimax ((fresh, line) ∷ lines) []
  prints :
      (fresh : Fresh) (line : List ℕ) (lines : List (Fresh × List ℕ)) (tokens : List (List ℕ))
      (commands : List (Fresh × Command))
      → Reads line tokens
      → Asks strtoimax tokens Request.prints
      → Session strtoimax lines commands
      → Session strtoimax ((fresh, line) ∷ lines) commands
  runs :
      (fresh : Fresh) (line : List ℕ) (lines : List (Fresh × List ℕ)) (tokens : List (List ℕ))
      (command : Command) (commands : List (Fresh × Command))
      → Reads line tokens
      → Asks strtoimax tokens (Request.runs command)
      → Session strtoimax lines commands
      → Session strtoimax ((fresh, line) ∷ lines) ((fresh, command) ∷ commands)

strmatch-eq : (key text : List ℕ) → strmatch key text ≡ true → key ≡ text
unfolding strmatch
strmatch-eq [] [] h = refl
strmatch-eq [] (d ∷ ds) h = absurd (ground (arith, h))
strmatch-eq (c ∷ cs) [] h = absurd (ground (arith, h))
strmatch-eq (c ∷ cs) (d ∷ ds) h =
    let first : (c == d) ≡ true = ground (arith, h) in
    let rest : strmatch cs ds ≡ true = ground (arith, h) in
    ap (λ x. x ∷ cs) (==→eq c d first) ∙ ap (λ xs. d ∷ xs) (strmatch-eq cs ds rest)

-- A key that is not in a table differs from each that is.
differs :
    (In : List ℕ → Type 0) (key text : List ℕ) → (In key → ⊥) → In text → strmatch key text ≡ false
differs In key text unlisted there = elim (Bool-cases (strmatch key text)) [
  | inl same ↦ absurd (unlisted (subst In (sym (strmatch-eq key text same)) there))
  | inr other ↦ other
]

module _ (strtoimax : List ℕ → ℕ) where
  one_number_request :
      (key arg : List ℕ) (command : ℕ → Command)
      → OneNumber key command
      → request_of strtoimax (key ∷ arg ∷ []) ≡ Request.runs (command (strtoimax arg))
  unfolding request_of two_tokens strmatch
  one_number_request key arg command OneNumber.switch = refl
  one_number_request key arg command OneNumber.short_switch = refl
  one_number_request key arg command OneNumber.free = refl
  one_number_request key arg command OneNumber.short_free = refl
  one_number_request key arg command OneNumber.read = refl
  one_number_request key arg command OneNumber.short_read = refl
  one_number_request key arg command OneNumber.write = refl
  one_number_request key arg command OneNumber.short_write = refl

  flags_request :
      (key vpn rwflag : List ℕ) (command : ℕ → List ℕ → Command)
      → NumberAndFlags key command
      → request_of strtoimax (key ∷ vpn ∷ rwflag ∷ [])
        ≡ Request.runs (command (strtoimax vpn) rwflag)
  unfolding request_of three_tokens strmatch
  flags_request key vpn rwflag command NumberAndFlags.alloc = refl
  flags_request key vpn rwflag command NumberAndFlags.short_alloc = refl
  flags_request key vpn rwflag command NumberAndFlags.access = refl

  no_number_request :
      (key arg : List ℕ)
      → ((command : ℕ → Command) → OneNumber key command → ⊥)
      → request_of strtoimax (key ∷ arg ∷ []) ≡ Request.prints
  unfolding request_of two_tokens
  no_number_request key arg unlisted =
      rw
        (
          other (codes "switch") (_, OneNumber.switch),
          other (codes "s") (_, OneNumber.short_switch),
          other (codes "free") (_, OneNumber.free),
          other (codes "f") (_, OneNumber.short_free),
          other (codes "read") (_, OneNumber.read),
          other (codes "r") (_, OneNumber.short_read),
          other (codes "write") (_, OneNumber.write),
          other (codes "w") (_, OneNumber.short_write),
        )
        refl
    where
      other :
          (text : List ℕ)
          → (command : ℕ → Command) × OneNumber text command
          → strmatch key text ≡ false
      other text =
          differs (λ t. (command : ℕ → Command) × OneNumber t command) key text
            (λ known. unlisted known.0 known.1)

  no_flags_request :
      (key vpn rwflag : List ℕ)
      → ((command : ℕ → List ℕ → Command) → NumberAndFlags key command → ⊥)
      → request_of strtoimax (key ∷ vpn ∷ rwflag ∷ []) ≡ Request.prints
  unfolding request_of three_tokens
  no_flags_request key vpn rwflag unlisted =
      rw
        (
          other (codes "alloc") (_, NumberAndFlags.alloc),
          other (codes "a") (_, NumberAndFlags.short_alloc),
          other (codes "access") (_, NumberAndFlags.access),
        )
        refl
    where
      other :
          (text : List ℕ)
          → (command : ℕ → List ℕ → Command) × NumberAndFlags text command
          → strmatch key text ≡ false
      other text =
          differs (λ t. (command : ℕ → List ℕ → Command) × NumberAndFlags t command) key text
            (λ known. unlisted known.0 known.1)

  Asks-request :
      (tokens : List (List ℕ)) (q : Request)
      → Asks strtoimax tokens q
      → request_of strtoimax tokens ≡ q
  unfolding request_of one_token strmatch
  Asks-request tokens q Asks.nothing = refl
  Asks-request tokens q Asks.exit = refl
  Asks-request tokens q (Asks.show key unlisted) =
      rw (differs (λ t. t ≡ codes "exit") key (codes "exit") unlisted refl) refl
  Asks-request tokens q (Asks.one_number key arg command k) = one_number_request key arg command k
  Asks-request tokens q (Asks.no_number key arg unlisted) = no_number_request key arg unlisted
  Asks-request tokens q (Asks.flags key vpn rwflag command k) =
      flags_request key vpn rwflag command k
  Asks-request tokens q (Asks.no_flags key vpn rwflag unlisted) =
      no_flags_request key vpn rwflag unlisted

  Reads-request :
      (line : List ℕ) (tokens : List (List ℕ)) (q : Request)
      → Reads line tokens
      → Asks strtoimax tokens q
      → read_line strtoimax line ≡ q
  unfolding read_line
  Reads-request line tokens q h k =
      let within : leb (length (words (lowered line))) max_nr_tokens ≡ true =
        ground (arith, h.few) in
      ap (λ o. elim o [ none ↦ Request.faults | some ts ↦ request_of strtoimax ts ])
        (parse_command-words (lowered line) h.text ∙ if_true _ _ within ∙ ap some h.first)
      ∙ Asks-request tokens q k

  read_lines-Session :
      (lines : List (Fresh × List ℕ)) (commands : List (Fresh × Command)) (m : Machine)
      → Session strtoimax lines commands
      → read_lines strtoimax lines m ≡ run_commands commands m
  unfolding read_lines run_commands answer
  read_lines-Session lines commands m Session.done = refl
  read_lines-Session lines commands m (Session.leaves fresh line rest tokens h k) =
      rw (Reads-request line tokens Request.leaves h k, read_lines) refl
  read_lines-Session lines commands m (Session.prints fresh line rest tokens _ h k later) =
      rw (Reads-request line tokens Request.prints h k, read_lines)
        (read_lines-Session rest commands m later)
  read_lines-Session lines commands m (Session.runs fresh line rest tokens command cs h k later) =
      rw (Reads-request line tokens (Request.runs command) h k, read_lines)
        (go_on (run_command fresh command m) (λ t. read_lines-Session rest cs t later))
    where
      go_on :
          (o : Option (Bool × Machine))
          → ((t : Machine) → read_lines strtoimax rest t ≡ run_commands cs t)
          → elim o [
            | none ↦ none
            | some (again, t) ↦ elim again [ true ↦ read_lines strtoimax rest t | false ↦ some t ]
          ]
            ≡ elim o [
              | none ↦ none
              | some (again, t) ↦ elim again [ true ↦ run_commands cs t | false ↦ some t ]
            ]
      go_on none e = refl
      go_on (some (true, t)) e = e t
      go_on (some (false, t)) e = refl

-- A session is a list of lines, each with at most MAX_NR_TOKENS words and no NUL. By a table of
-- the commands, the words of a line in lower case, up to a comment, ask for a command (switch,
-- free, read or write with a number, alloc or access with a number and flags, or s, f, r, w and
-- a), for the end (exit), or, as any others up to three, for text only. Then __do_simulation comes
-- to what the commands do in turn on the machine with its page table in use; none behind `exit` is
-- run.
pub do_simulation-Session :
    (strtoimax : List ℕ → ℕ) (lines : List (Fresh × List ℕ)) (commands : List (Fresh × Command))
    (m : Machine)
    → Session strtoimax lines commands
    → do_simulation strtoimax lines m ≡ run_commands commands (init_system m)
unfolding do_simulation
do_simulation-Session strtoimax lines commands m h =
    read_lines-Session strtoimax lines commands (init_system m) h
