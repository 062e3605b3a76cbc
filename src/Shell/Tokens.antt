-- ===== src/Shell/Tokens.antt =====
-- parse_command of OS-PA1/parser.c, which calls strtok() with its delimiters in a loop.
use os_pa.Common.{
  ℕ, zero, suc, ◌+◌, ◌<◌, ◌≤◌, ◌≡◌, refl, sym, ap, subst, ◌∙◌, Bool, true, false, ◌||◌, Option,
  none, some, List, [], ◌∷◌, length, ltb, ◌==◌, if◌then◌else◌, if_true, if_false, arith, Bool-cases,
  inl, inr,
}
use os_pa.Parser.{isspace, max_nr_tokens}
use os_pa.Parser.Words.{word, words_after, words}

-- " \t\r\f\r\n\v"
abbrev pub is_delimiter : ℕ → Bool
is_delimiter c = c == 32 || c == 9 || c == 13 || c == 12 || c == 10 || c == 11

-- strtok(): leading delimiters are skipped, and the token ends before the next one.
unfoldable pub skip_delimiters : List ℕ → List ℕ
skip_delimiters [] = []
skip_delimiters (c ∷ cs) = if is_delimiter c then skip_delimiters cs else c ∷ cs

unfoldable pub until_delimiter : List ℕ → List ℕ
until_delimiter [] = []
until_delimiter (c ∷ cs) = if is_delimiter c then [] else c ∷ until_delimiter cs

unfoldable pub after_delimiter : List ℕ → List ℕ
after_delimiter [] = []
after_delimiter (c ∷ cs) = if is_delimiter c then cs else after_delimiter cs

-- The loop, on fuel: `none` when it runs out.
unfoldable pub strtok_loop : ℕ → List ℕ → Option (List (List ℕ))
unfolding skip_delimiters until_delimiter after_delimiter
strtok_loop zero cs = none
strtok_loop (suc fuel) cs = elim (skip_delimiters cs) [
  | [] ↦ some []
  | c ∷ rest ↦ elim (strtok_loop fuel (after_delimiter (c ∷ rest))) [
    | none ↦ none
    | some tokens ↦ some (until_delimiter (c ∷ rest) ∷ tokens)
  ]
]

-- The array of the caller has MAX_NR_TOKENS places, one of them for the final NULL; the loop does
-- not check them, and `none` is an overrun.
unfoldable pub parse_command : List ℕ → Option (List (List ℕ))
unfolding strtok_loop
parse_command command = elim (strtok_loop (length command + 1) command) [
  | none ↦ none
  | some tokens ↦ if ltb (length tokens) max_nr_tokens then some tokens else none
]

delimiter_lem : (c : ℕ) → is_delimiter c ≡ isspace c
delimiter_lem c = ground arith

until_lem : (cs : List ℕ) → until_delimiter cs ≡ word cs
unfolding until_delimiter
until_lem [] = refl
until_lem (c ∷ cs) = ground (arith, delimiter_lem c, until_lem cs)

skip_lem : (cs : List ℕ) → words_after false (skip_delimiters cs) ≡ words_after false cs
unfolding skip_delimiters
skip_lem [] = refl
skip_lem (c ∷ cs) = ground (arith, delimiter_lem c, skip_lem cs)

after_lem : (cs : List ℕ) → words_after true cs ≡ words_after false (after_delimiter cs)
unfolding after_delimiter
after_lem [] = refl
after_lem (c ∷ cs) = ground (arith, delimiter_lem c, after_lem cs)

length-after : (cs : List ℕ) → length (after_delimiter cs) ≤ length cs
unfolding after_delimiter
length-after [] = omega arith
length-after (c ∷ cs) = ground (arith, length-after cs)

length-skip : (cs : List ℕ) → length (skip_delimiters cs) ≤ length cs
unfolding skip_delimiters
length-skip [] = omega arith
length-skip (c ∷ cs) = ground (arith, length-skip cs)

-- No delimiter comes first.
abbrev Starts : List ℕ → Type 0
Starts [] = Unit {0}
Starts (c ∷ cs) = is_delimiter c ≡ false

skip_delimiters-Starts : (cs : List ℕ) → Starts (skip_delimiters cs)
unfolding skip_delimiters
skip_delimiters-Starts [] = tt
skip_delimiters-Starts (c ∷ cs) = elim (Bool-cases (is_delimiter c)) [
  | inl blank ↦ subst Starts (sym (if_true _ _ blank)) (skip_delimiters-Starts cs)
  | inr letter ↦ subst Starts (sym (if_false _ _ letter)) letter
]

after_cons :
    (c : ℕ) (rest : List ℕ)
    → is_delimiter c ≡ false
    → after_delimiter (c ∷ rest) ≡ after_delimiter rest
unfolding after_delimiter
after_cons c rest h = if_false _ _ h

words_cons :
    (c : ℕ) (rest : List ℕ)
    → isspace c ≡ false
    → words (c ∷ rest) ≡ word (c ∷ rest) ∷ words_after true rest
words_cons c rest h = rw h

-- One round of the loop.
abbrev strtok_round : ℕ → List ℕ → Option (List (List ℕ))
strtok_round fuel [] = some []
strtok_round fuel (c ∷ rest) = elim (strtok_loop fuel (after_delimiter (c ∷ rest))) [
  | none ↦ none
  | some tokens ↦ some (until_delimiter (c ∷ rest) ∷ tokens)
]

round_eq :
    (fuel : ℕ) (cs : List ℕ)
    → (elim cs [
      | [] ↦ some []
      | c ∷ rest ↦ elim (strtok_loop fuel (after_delimiter (c ∷ rest))) [
        | none ↦ none
        | some tokens ↦ some (until_delimiter (c ∷ rest) ∷ tokens)
      ]
    ])
      ≡ strtok_round fuel cs
round_eq fuel [] = refl
round_eq fuel (c ∷ rest) = refl

strtok_unfold :
    (fuel : ℕ) (cs : List ℕ) → strtok_loop (suc fuel) cs ≡ strtok_round fuel (skip_delimiters cs)
unfolding strtok_loop
strtok_unfold fuel cs = round_eq fuel (skip_delimiters cs)

strtok_round-words :
    (fuel : ℕ) (cs : List ℕ)
    → Starts cs
    → ((r : List ℕ) → length r < fuel → strtok_loop fuel r ≡ some (words r))
    → length cs ≤ fuel
    → strtok_round fuel cs ≡ some (words cs)
strtok_round-words fuel [] h ih l = refl
strtok_round-words fuel (c ∷ rest) h ih l =
    let letter : isspace c ≡ false = sym (delimiter_lem c) ∙ h in
    let tail : after_delimiter (c ∷ rest) ≡ after_delimiter rest = after_cons c rest h in
    let later : strtok_loop fuel (after_delimiter (c ∷ rest))
        ≡ some (words (after_delimiter rest)) =
      ap (strtok_loop fuel) tail
      ∙ ih (after_delimiter rest) (omega (arith, length-after rest, l)) in
    ap (λ o. elim o [ none ↦ none | some tokens ↦ some (until_delimiter (c ∷ rest) ∷ tokens) ])
      later
    ∙ ap (λ w. some (w ∷ words (after_delimiter rest))) (until_lem (c ∷ rest))
    ∙ ap (λ ws. some (word (c ∷ rest) ∷ ws)) (sym (after_lem rest))
    ∙ ap some (sym (words_cons c rest letter))

strtok_loop-words :
    (fuel : ℕ) (cs : List ℕ) → length cs < fuel → strtok_loop fuel cs ≡ some (words cs)
unfolding strtok_loop
strtok_loop-words zero cs l = absurd (omega (arith, l))
strtok_loop-words (suc fuel) cs l =
    strtok_unfold fuel cs
    ∙ strtok_round-words fuel (skip_delimiters cs) (skip_delimiters-Starts cs)
        (strtok_loop-words fuel) (omega (arith, length-skip cs, l))
    ∙ ap some (skip_lem cs)

-- The parser of OS-PA1 splits by strtok(), that of OS-PA2 and OS-PA3 marks places in the line: the
-- loop ends with the same words. It overruns the array exactly when there are MAX_NR_TOKENS of them
-- or more, since a NULL follows.
pub parse_command-strtok :
    (command : List ℕ)
    → parse_command command
      ≡ (if ltb (length (words command)) max_nr_tokens then some (words command) else none)
unfolding parse_command
parse_command-strtok command =
    ap
      (λ o. elim o [
        | none ↦ none
        | some tokens ↦ if ltb (length tokens) max_nr_tokens then some tokens else none
      ])
      (strtok_loop-words (length command + 1) command (omega arith))
