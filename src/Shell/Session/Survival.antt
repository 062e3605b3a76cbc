-- ===== src/Shell/Session/Survival.antt =====
-- What ends the shell.
use os_pa.Common.{
  ℕ, ◌≡◌, refl, ap, ◌∙◌, sym, Bool, true, false, ◌||◌, Option, none, some, List, [], ◌∷◌, All,
  codes, strmatch, if◌then◌else◌, Bool-cases, inl, inr,
}
use os_pa.Shell.Tokens.{parse_command}
use os_pa.Shell.Alias.{
  AliasEntry, Calls, Result, change_directory, split_pipe, dispatch, expand_all, run_command,
}
use os_pa.Shell.Session.{Ending, Turn, initialize, after_command, run_line, read_lines, main}

-- The first word, if there is one, is `key`.
abbrev pub starts_with : List ℕ → List (List ℕ) → Bool
starts_with key [] = false
starts_with key (word ∷ words) = strmatch word key

-- A line whose words fit in their array and do not define an alias, while pipe() succeeds.
pub record Plain (turn : Calls × List ℕ) : Type 0 where
  pub words : List (List ℕ)
  pub parsed : parse_command turn.1 ≡ some words
  pub unaliased : starts_with (codes "alias") words ≡ false
  pub piped : turn.0.pipe ≡ true

abbrev pub asks_exit : List (Calls × List ℕ) → Bool
asks_exit [] = false
asks_exit ((calls, line) ∷ lines) =
    (elim (parse_command line) [ none ↦ false | some words ↦ starts_with (codes "exit") words ])
    || asks_exit lines

if_else : (b : Bool) → after_command (if b then Result.succeeds else Result.fails) ≡ Turn.goes_on
unfolding after_command
if_else true = refl
if_else false = refl

after-change_directory :
    (calls : Calls) (tokens : List (List ℕ))
    → after_command (change_directory calls tokens) ≡ Turn.goes_on
unfolding change_directory
after-change_directory calls [] = if_else (calls.chdir calls.home)
after-change_directory calls (key ∷ []) = if_else (calls.chdir calls.home)
after-change_directory calls (key ∷ dir ∷ tokens) =
    if_else (calls.chdir (if strmatch dir (codes "~") then calls.home else some dir))

-- The shell survives a command.
Survives : List AliasEntry → Result × List AliasEntry → Type 0
Survives stack r = (after_command r.0 ≡ Turn.goes_on) × (r.1 ≡ stack)

module _ (calls : Calls) (piped : calls.pipe ≡ true) (stack : List AliasEntry) (key : List ℕ)
    (tokens : List (List ℕ)) (unaliased : strmatch key (codes "alias") ≡ false) where
  dispatch-Survives :
      (sides : Option (List (List ℕ) × List (List ℕ)))
      → split_pipe (key ∷ tokens) ≡ sides
      → Survives stack (dispatch calls stack (key ∷ tokens))
  unfolding dispatch after_command Survives
  dispatch-Survives (some x) e = elim (Bool-cases (strmatch key (codes "cd"))) [
    | inl cd ↦ rw (e, cd, Survives, dispatch) (after-change_directory calls (key ∷ tokens), refl)
    | inr other ↦ rw (e, other, piped, Survives, dispatch) (refl, refl)
  ]
  dispatch-Survives none e = elim (Bool-cases (strmatch key (codes "cd"))) [
    | inl cd ↦ rw (e, cd, Survives, dispatch) (after-change_directory calls (key ∷ tokens), refl)
    | inr other ↦
        rw (e, other, unaliased, Survives, dispatch) (if_else (calls.run (key ∷ tokens)), refl)
  ]

module _ (fuel : ℕ) (calls : Calls) (line : List ℕ) where
  run_line-exit :
      (words : List (List ℕ))
      → parse_command line ≡ some words
      → starts_with (codes "exit") words ≡ true
      → run_line fuel calls [] line ≡ (Turn.ends Ending.left, [])
  unfolding run_line run_command after_command
  run_line-exit [] parsed e = cc
  run_line-exit (key ∷ tokens) parsed e = rw (parsed, e, run_line, run_command) refl

  run_line-goes_on :
      (words : List (List ℕ))
      → parse_command line ≡ some words
      → starts_with (codes "exit") words ≡ false
      → starts_with (codes "alias") words ≡ false
      → calls.pipe ≡ true
      → run_line fuel calls [] line ≡ (Turn.goes_on, [])
  unfolding run_line run_command expand_all after_command Survives
  run_line-goes_on [] parsed e unaliased piped = rw (parsed, run_line) refl
  run_line-goes_on (key ∷ tokens) parsed e unaliased piped =
      let (goes, same) =
        dispatch-Survives calls piped [] key tokens unaliased (split_pipe (key ∷ tokens)) refl in
      rw (parsed, e, run_line, run_command) (tuple (dispatch calls [] (key ∷ tokens)) goes same)
    where
      tuple :
          (r : Result × List AliasEntry)
          → after_command r.0 ≡ Turn.goes_on
          → r.1 ≡ []
          → ◌≡◌ {A = Turn × List AliasEntry} (after_command r.0, r.1) (Turn.goes_on, [])
      tuple r a b = cc

-- A line of the session, by how it ends.
module _ (fuel : ℕ) (calls : Calls) (line : List ℕ) (lines : List (Calls × List ℕ)) where
  read_lines-step :
      (turn : Turn)
      → run_line fuel calls [] line ≡ (turn, [])
      → read_lines fuel ((calls, line) ∷ lines) []
        ≡ (elim turn [ Turn.ends ending ↦ (ending, []) | Turn.goes_on ↦ read_lines fuel lines [] ])
  unfolding read_lines
  read_lines-step turn e =
      ap
        (λ (r : Turn × List AliasEntry). elim r.0 [
          | Turn.ends ending ↦ (ending, r.1)
          | Turn.goes_on ↦ read_lines fuel lines r.1
        ])
        e

  asks_exit-words :
      (words : List (List ℕ))
      → parse_command line ≡ some words
      → asks_exit ((calls, line) ∷ lines) ≡ (starts_with (codes "exit") words || asks_exit lines)
  asks_exit-words words e =
      ap
        (λ o.
          (elim o [ none ↦ false | some ws ↦ starts_with (codes "exit") ws ]) || asks_exit lines)
        e

abbrev ending : Bool → Ending × List AliasEntry
ending leaves = (if leaves then Ending.left else Ending.closed, [])

read_lines-Plain :
    (fuel : ℕ) (lines : List (Calls × List ℕ))
    → All Plain lines
    → read_lines fuel lines [] ≡ ending (asks_exit lines)
unfolding read_lines
read_lines-Plain fuel [] h = refl
read_lines-Plain fuel ((calls, line) ∷ lines) (p, h) =
    elim (Bool-cases (starts_with (codes "exit") p.words)) [
      | inl leaves ↦
          read_lines-step fuel calls line lines (Turn.ends Ending.left)
            (run_line-exit fuel calls line p.words p.parsed leaves)
          ∙ sym (
              ap ending (
                asks_exit-words fuel calls line lines p.words p.parsed
                ∙ ap (λ b. b || asks_exit lines) leaves))
      | inr stays ↦
          read_lines-step fuel calls line lines Turn.goes_on
            (run_line-goes_on fuel calls line p.words p.parsed stays p.unaliased p.piped)
          ∙ read_lines-Plain fuel lines h
          ∙ sym (
              ap ending (
                asks_exit-words fuel calls line lines p.words p.parsed
                ∙ ap (λ b. b || asks_exit lines) stays))
    ]

-- The shell survives failing commands. When every line of a session has words that fit in their
-- array and none begins with `alias`, and pipe() succeeds, then the shell ends by `exit` if a line
-- begins so, and else at the end of the input, with the stack of aliases empty, whatever chdir() and
-- the commands return.
pub main_survives :
    (fuel : ℕ) (lines : List (Calls × List ℕ))
    → All Plain lines
    → main fuel lines ≡ some (if asks_exit lines then Ending.left else Ending.closed, [])
unfolding main initialize
main_survives fuel lines h = ap some (read_lines-Plain fuel lines h)
