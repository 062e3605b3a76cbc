-- ===== src/Parser/Words.antt =====
-- The tokens are the words of the line.
use os_pa.Common.{
  ℕ, suc, ◌+◌, ◌≡◌, ◌≢◌, refl, sym, ap, ◌∙◌, Bool, false, ◌||◌, not, none, some, List, [], ◌∷◌,
  ◌++◌, append_assoc, All, length, leb, if◌then◌else◌, arith, Bool-cases, inl, inr, if_true,
  if_false, length-append,
}
use os_pa.Parser.{
  isspace, scan, until_nul, drop, texts, remove_comments, is_comment, max_nr_tokens, parse_command,
}

-- The characters up to the first blank.
abbrev pub word : List ℕ → List ℕ
word [] = []
word (c ∷ cs) = if isspace c then [] else c ∷ word cs

-- The words of a line, of which the first has begun before it if the flag says so.
abbrev pub words_after : Bool → List ℕ → List (List ℕ)
words_after begun [] = []
words_after begun (c ∷ cs) =
    let rest = words_after (not (isspace c)) cs in
    if isspace c || begun then rest else word (c ∷ cs) ∷ rest

abbrev pub words : List ℕ → List (List ℕ)
words line = words_after false line

-- No NUL stands in the line.
abbrev pub NoNul : List ℕ → Type 0
NoNul = All (λ c. c ≢ 0)

until_nul-scan :
    (i : ℕ) (begun : Bool) (cs : List ℕ) → NoNul cs → until_nul (scan i begun cs).buffer ≡ word cs
unfolding scan
until_nul-scan i begun [] h = refl
until_nul-scan i begun (c ∷ cs) h =
    ground (arith, until_nul-scan (i + 1) (not (isspace c)) cs h.1, h.0)

drop-append : (pre cs : List ℕ) → drop (length pre) (pre ++ cs) ≡ cs
drop-append [] cs = refl
drop-append (c ∷ pre) cs = drop-append pre cs

cons_eq : {v w : List ℕ} {vs ws : List (List ℕ)} → v ≡ w → vs ≡ ws → v ∷ vs ≡ w ∷ ws
cons_eq e h = cc

-- The texts in the whole buffer, of the tokens that start at or after an offset.
texts-scan :
    (pre : List ℕ) (i : ℕ) (begun : Bool) (cs : List ℕ)
    → i ≡ length pre
    → NoNul cs
    → texts (pre ++ (scan i begun cs).buffer) (scan i begun cs).starts ≡ words_after begun cs
unfolding scan
texts-scan pre i begun [] e h = refl
texts-scan pre i begun (c ∷ cs) e h =
    let mark : ℕ = if isspace c then 0 else c in
    let rest = scan (i + 1) (not (isspace c)) cs in
    let later : texts (pre ++ mark ∷ rest.buffer) rest.starts ≡ words_after (not (isspace c)) cs =
      ap (λ b. texts b rest.starts) (sym (append_assoc pre (mark ∷ []) rest.buffer))
      ∙ texts-scan (pre ++ mark ∷ []) (i + 1) (not (isspace c)) cs
          (omega (arith, length-append pre (mark ∷ []))) h.1 in
    let here : until_nul (drop i (pre ++ mark ∷ rest.buffer)) ≡ word (c ∷ cs) =
      ap until_nul
        (ap (λ k. drop k (pre ++ mark ∷ rest.buffer)) e ∙ drop-append pre (mark ∷ rest.buffer))
      ∙ until_nul-scan i begun (c ∷ cs) h in
    elim (Bool-cases (isspace c || begun)) [
      | inl skip ↦
          ap (texts (pre ++ mark ∷ rest.buffer)) (if_true _ _ skip) ∙ later ∙ sym (if_true _ _ skip)
      | inr new ↦
          ap (texts (pre ++ mark ∷ rest.buffer)) (if_false _ _ new)
          ∙ cons_eq here later
          ∙ sym (if_false _ _ new)
    ]

-- The words before the first that begins a comment.
abbrev pub before_comment : List (List ℕ) → List (List ℕ)
before_comment [] = []
before_comment (w ∷ ws) = if is_comment w then [] else w ∷ before_comment ws

remove_comments_lem : (ws : List (List ℕ)) → remove_comments ws ≡ before_comment ws
unfolding remove_comments
remove_comments_lem [] = refl
remove_comments_lem (w ∷ ws) = ap (λ r. if is_comment w then [] else w ∷ r) (remove_comments_lem ws)

length-texts : (buffer starts : List ℕ) → length (texts buffer starts) ≡ length starts
length-texts buffer [] = refl
length-texts buffer (i ∷ starts) = ap suc (length-texts buffer starts)

-- On a line without NUL, parse_command overruns its array of tokens exactly when the line has more
-- words than MAX_NR_TOKENS, those of a comment included. Otherwise it returns the words of the line
-- up to the first that begins a comment, though it only marks places in the line.
pub parse_command-words :
    (line : List ℕ)
    → NoNul line
    → parse_command line ≡ (
        if leb (length (words line)) max_nr_tokens
        then some (before_comment (words line))
        else none)
unfolding parse_command
parse_command-words line h =
    let s = scan 0 false line in
    let e : texts s.buffer s.starts ≡ words line = texts-scan [] 0 false line refl h in
    let n : length s.starts ≡ length (words line) =
      sym (length-texts s.buffer s.starts) ∙ ap length e in
    ap (λ k. if leb k max_nr_tokens then some (remove_comments (texts s.buffer s.starts)) else none)
      n
    ∙ ap (λ ws. if leb (length (words line)) max_nr_tokens then some ws else none)
        (remove_comments_lem (texts s.buffer s.starts) ∙ ap before_comment e)
