-- ===== src/Parser.antt =====
-- parser.c: a command line is cut into tokens in place. OS-PA2 and OS-PA3 share the text of the
-- file.
--
-- A line is the list of the characters before its NUL. The loop overwrites blanks by NUL and keeps
-- the offsets at which tokens start; a token is read from its offset up to the next NUL.
pub mod Words
mod Tests
use os_pa.Common.{
  ℕ, zero, suc, ◌+◌, Bool, true, false, ◌&&◌, ◌||◌, not, Option, none, some, List, [], ◌∷◌, length,
  leb, ◌==◌, if◌then◌else◌,
}

-- isspace() of the C library, in its default locale: tab to carriage return, and space.
abbrev pub isspace : ℕ → Bool
isspace c = (leb 9 c && leb c 13) || c == 32

-- What the loop leaves: the buffer and the offsets of the tokens.
pub record Scan : Type 0 where
  pub buffer : List ℕ
  pub starts : List ℕ

-- The loop, at the offset i.
unfoldable pub scan : ℕ → Bool → List ℕ → Scan
scan i token_started [] = record { buffer = []; starts = [] }
scan i token_started (c ∷ cs) =
    let rest = scan (i + 1) (not (isspace c)) cs in
    record {
      buffer = (if isspace c then 0 else c) ∷ rest.buffer;
      starts = if isspace c || token_started then rest.starts else i ∷ rest.starts;
    }

-- The text of a C string.
abbrev pub until_nul : List ℕ → List ℕ
until_nul [] = []
until_nul (c ∷ cs) = if c == 0 then [] else c ∷ until_nul cs

abbrev pub drop : ℕ → List ℕ → List ℕ
drop zero cs = cs
drop (suc i) [] = []
drop (suc i) (c ∷ cs) = drop i cs

abbrev pub texts : List ℕ → List ℕ → List (List ℕ)
texts buffer [] = []
texts buffer (i ∷ starts) = until_nul (drop i buffer) ∷ texts buffer starts

-- strncmp(token, "#", 1) == 0
abbrev pub is_comment : List ℕ → Bool
is_comment [] = false
is_comment (c ∷ cs) = c == b'#'

-- The second loop: the first token that begins a comment ends the command.
unfoldable pub remove_comments : List (List ℕ) → List (List ℕ)
remove_comments [] = []
remove_comments (token ∷ tokens) =
    let rest = remove_comments tokens in if is_comment token then [] else token ∷ rest

abbrev pub max_nr_tokens : ℕ
max_nr_tokens = 32

-- The callers' array has MAX_NR_TOKENS places, which the loop does not check: a line with more
-- tokens is a fault.
unfoldable pub parse_command : List ℕ → Option (List (List ℕ))
unfolding scan remove_comments
parse_command line =
    let s = scan 0 false line in
    if leb (length s.starts) max_nr_tokens
    then some (remove_comments (texts s.buffer s.starts))
    else none
