-- ===== src/Shell/Pipe/Connects.antt =====
-- How the two children of a command with a pipe are connected.
use os_pa.Common.{
  none-ne-some, ℕ, ◌≡◌, ◌≢◌, refl, sym, ap, ◌∙◌, false, none, some, List, [], ◌∷◌, ◌++◌, All, codes,
  strmatch, inl, inr, Bool-cases, ◌==◌, ==→eq, ==→ne, arith,
}
use mathlib.Core.Option.{some-injective}
use os_pa.Shell.Alias.{split_pipe, Calls}
use os_pa.Shell.Pipe.{Files, NewPipe, Kernel, Piped, PipeResult, is_cd, fork_children, run_piped}

-- The ends stand at descriptors that were not in use, and are new.
pub record Opens (files : Files) (p : NewPipe) : Type 0 where
  pub read_free : files p.read_fd ≡ none
  pub write_free : files p.write_fd ≡ none
  pub apart : p.read_fd ≢ p.write_fd
  pub read_end : p.files p.read_fd ≡ some p.reads
  pub write_end : p.files p.write_fd ≡ some p.writes
  pub others : (fd : ℕ) → fd ≢ p.read_fd → fd ≢ p.write_fd → p.files fd ≡ files fd
  pub ends : p.reads ≢ p.writes
  pub new_reads : (fd : ℕ) → files fd ≢ some p.reads
  pub new_writes : (fd : ℕ) → files fd ≢ some p.writes

-- dup2() and close() of descriptors in any table.
pub record Posix (k : Kernel) : Type 0 where
  pub closed : (fd : ℕ) (files : Files) → k.close fd files fd ≡ none
  pub close_others : (fd x : ℕ) (files : Files) → x ≢ fd → k.close fd files x ≡ files x
  pub duplicated :
      (old fd x : ℕ) (files : Files) → files old ≡ some x → k.dup2 old fd files fd ≡ some x
  pub dup2_others : (old fd x : ℕ) (files : Files) → x ≢ fd → k.dup2 old fd files x ≡ files x

-- The left child writes to the pipe and cannot read from it, the right one reads and cannot write.
-- The other standard descriptor of each is the shell's, and the shell has the table it had.
pub record Connects (files : Files) (p : NewPipe) (left right : List (List ℕ)) (c : Piped)
    : Type 0 where
  pub left_argv : c.left.argv ≡ left
  pub right_argv : c.right.argv ≡ right
  pub output : c.left.files 1 ≡ some p.writes
  pub left_input : c.left.files 0 ≡ files 0
  pub input : c.right.files 0 ≡ some p.reads
  pub right_output : c.right.files 1 ≡ files 1
  pub no_reader : (fd : ℕ) → c.left.files fd ≢ some p.reads
  pub no_writer : (fd : ℕ) → c.right.files fd ≢ some p.writes
  pub kept : (fd : ℕ) → c.shell fd ≡ files fd

module _ (k : Kernel) (posix : Posix k) (files : Files) (p : NewPipe) (o : Opens files p)
    (stdin : files 0 ≢ none) (stdout : files 1 ≢ none) (left right : List (List ℕ)) where
  in_use : (x fd : ℕ) → files x ≢ none → files fd ≡ none → x ≢ fd
  in_use x fd used free e = used (ap files e ∙ free)

  children : Piped
  children = fork_children k left right p

  after_left : Files
  after_left = k.close p.write_fd p.files

  no_reader : (fd : ℕ) → children.left.files fd ≢ some p.reads
  unfolding children fork_children after_left
  no_reader fd e = elim (Bool-cases (fd == p.read_fd)) [
    | inl at ↦
        none-ne-some p.reads
          (sym (posix.closed p.read_fd _) ∙ ap children.left.files (sym (==→eq _ _ at)) ∙ e)
    | inr off ↦
        let d = sym (posix.close_others p.read_fd fd _ (==→ne _ _ off)) ∙ e in
        elim (Bool-cases (fd == 1)) [
          | inl at ↦ o.ends (
              some-injective _ _ (
                sym d
                ∙ ap (k.dup2 p.write_fd 1 p.files) (==→eq _ _ at)
                ∙ posix.duplicated p.write_fd 1 p.writes p.files o.write_end))
          | inr apart ↦
              let f = sym (posix.dup2_others p.write_fd 1 fd p.files (==→ne _ _ apart)) ∙ d in
              elim (Bool-cases (fd == p.write_fd)) [
                | inl at ↦
                    o.ends (some-injective _ _ (sym f ∙ ap p.files (==→eq _ _ at) ∙ o.write_end))
                | inr far ↦ o.new_reads fd (sym (o.others fd (==→ne _ _ off) (==→ne _ _ far)) ∙ f)
              ]
        ]
  ]

  no_writer : (fd : ℕ) → children.right.files fd ≢ some p.writes
  unfolding children fork_children after_left
  no_writer fd e = elim (Bool-cases (fd == p.write_fd)) [
    | inl at ↦
        none-ne-some p.writes
          (sym (posix.closed p.write_fd _) ∙ ap children.right.files (sym (==→eq _ _ at)) ∙ e)
    | inr off ↦
        let d = sym (posix.close_others p.write_fd fd _ (==→ne _ _ off)) ∙ e in
        elim (Bool-cases (fd == 0)) [
          | inl at ↦ o.ends (
              some-injective _ _ (
                sym (
                  ap (k.dup2 p.read_fd 0 after_left) (==→eq _ _ at)
                  ∙ posix.duplicated p.read_fd 0 p.reads after_left
                      (posix.close_others p.write_fd p.read_fd p.files o.apart ∙ o.read_end))
                ∙ d))
          | inr apart ↦
              let f =
                sym (
                  posix.dup2_others p.read_fd 0 fd after_left (==→ne _ _ apart)
                  ∙ posix.close_others p.write_fd fd p.files (==→ne _ _ off))
                ∙ d in
              elim (Bool-cases (fd == p.read_fd)) [
                | inl at ↦
                    o.ends (some-injective _ _ (sym (ap p.files (==→eq _ _ at) ∙ o.read_end) ∙ f))
                | inr far ↦ o.new_writes fd (sym (o.others fd (==→ne _ _ far) (==→ne _ _ off)) ∙ f)
              ]
        ]
  ]

  kept : (fd : ℕ) → children.shell fd ≡ files fd
  unfolding children fork_children after_left
  kept fd = elim (Bool-cases (fd == p.read_fd)) [
    | inl at ↦
        ap children.shell (==→eq _ _ at)
        ∙ posix.closed p.read_fd after_left
        ∙ sym (ap files (==→eq _ _ at) ∙ o.read_free)
    | inr off ↦
        posix.close_others p.read_fd fd after_left (==→ne _ _ off)
        ∙ elim (Bool-cases (fd == p.write_fd)) [
          | inl at ↦
              ap after_left (==→eq _ _ at)
              ∙ posix.closed p.write_fd p.files
              ∙ sym (ap files (==→eq _ _ at) ∙ o.write_free)
          | inr far ↦
              posix.close_others p.write_fd fd p.files (==→ne _ _ far)
              ∙ o.others fd (==→ne _ _ off) (==→ne _ _ far)
        ]
  ]

  fork_children-Connects : Connects files p left right children
  unfolding children fork_children after_left
  fork_children-Connects = record {
    left_argv = refl;
    right_argv = refl;
    output =
        posix.close_others p.read_fd 1 _ (in_use 1 p.read_fd stdout o.read_free)
        ∙ posix.duplicated p.write_fd 1 p.writes p.files o.write_end;
    left_input =
        posix.close_others p.read_fd 0 _ (in_use 0 p.read_fd stdin o.read_free)
        ∙ posix.dup2_others p.write_fd 1 0 p.files (omega arith)
        ∙ o.others 0 (in_use 0 p.read_fd stdin o.read_free)
            (in_use 0 p.write_fd stdin o.write_free);
    input =
        posix.close_others p.write_fd 0 _ (in_use 0 p.write_fd stdin o.write_free)
        ∙ posix.duplicated p.read_fd 0 p.reads after_left
            (posix.close_others p.write_fd p.read_fd p.files o.apart ∙ o.read_end);
    right_output =
        posix.close_others p.write_fd 1 _ (in_use 1 p.write_fd stdout o.write_free)
        ∙ posix.dup2_others p.read_fd 0 1 after_left (omega arith)
        ∙ posix.close_others p.write_fd 1 p.files (in_use 1 p.write_fd stdout o.write_free)
        ∙ o.others 1 (in_use 1 p.read_fd stdout o.read_free)
            (in_use 1 p.write_fd stdout o.write_free);
    no_reader = no_reader;
    no_writer = no_writer;
    kept = kept;
  }

abbrev pub NoPipe : List ℕ → Type 0
NoPipe token = strmatch token (codes "|") ≡ false

split_pipe-none : (tokens : List (List ℕ)) → All NoPipe tokens → split_pipe tokens ≡ none
unfolding split_pipe
split_pipe-none [] h = refl
split_pipe-none (token ∷ tokens) h = rw (split_pipe-none tokens h.1, h.0) refl

-- The last pipe splits the tokens.
split_pipe-last :
    (left right : List (List ℕ))
    → All NoPipe right
    → split_pipe (left ++ codes "|" ∷ right) ≡ some (left, right)
unfolding split_pipe strmatch
split_pipe-last [] right h = rw (split_pipe-none right h) refl
split_pipe-last (token ∷ left) right h = rw (split_pipe-last left right h) refl

is_cd-append :
    (left right : List (List ℕ)) → is_cd left ≡ false → is_cd (left ++ codes "|" ∷ right) ≡ false
unfolding strmatch
is_cd-append [] right h = refl
is_cd-append (token ∷ left) right h = h

two_children :
    (k : Kernel) (calls : Calls) (files : Files) (p : NewPipe) (left right tokens : List (List ℕ))
    → split_pipe tokens ≡ some (left, right)
    → is_cd tokens ≡ false
    → k.pipe files ≡ some p
    → run_piped k calls tokens files ≡ PipeResult.forked (fork_children k left right p)
unfolding run_piped
two_children k calls files p left right tokens split other opened =
    rw (split, other, opened, run_piped) refl

-- Let the standard input and output of the shell be open, let pipe() succeed with two new ends at
-- free descriptors, and let dup2() and close() do what POSIX says. A command that does not begin
-- with `cd`, and of which the last pipe has `left` before and `right` behind it, is run by two
-- children. The left one executes `left` with its output into the pipe, and holds no reading end.
-- The right one executes `right` with its input from the pipe, and holds no writing end. The other
-- standard stream of each is the shell's, and the shell ends with the descriptors that it had.
pub run_piped-Connects :
    (k : Kernel) (calls : Calls) (files : Files) (p : NewPipe) (left right : List (List ℕ))
    → Posix k
    → files 0 ≢ none
    → files 1 ≢ none
    → k.pipe files ≡ some p
    → Opens files p
    → is_cd left ≡ false
    → All NoPipe right
    → (c : Piped) × (run_piped k calls (left ++ codes "|" ∷ right) files ≡ PipeResult.forked c)
      × Connects files p left right c
unfolding run_piped children
run_piped-Connects k calls files p left right posix stdin stdout opened o other last = (
  fork_children k left right p,
  two_children k calls files p left right (left ++ codes "|" ∷ right)
      (split_pipe-last left right last) (is_cd-append left right other) opened,
  fork_children-Connects k posix files p o stdin stdout left right,
)
