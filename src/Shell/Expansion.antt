-- ===== src/Shell/Expansion.antt =====
-- What the expansion of one alias yields, and the fuel it takes.
use os_pa.Common.{
  ℕ, zero, suc, ◌+◌, ◌-◌, ◌<◌, ◌≡◌, refl, sym, ap, ◌∙◌, true, false, some, List, [], ◌∷◌, ◌++◌,
  append-nil, append_assoc, All, length, length-append, if◌then◌else◌, if_true, if_false,
  Bool-cases, inl, inr, strmatch, arith,
}
use os_pa.Shell.Tokens.{parse_command}
use os_pa.Shell.Alias.{AliasEntry, Expanded, expand}

-- Each token that is the name stands for the words.
abbrev pub replaced : List ℕ → List (List ℕ) → List (List ℕ) → List (List ℕ)
replaced name words [] = []
replaced name words (token ∷ tokens) =
    (if strmatch token name then words else token ∷ []) ++ replaced name words tokens

abbrev pub IsOther : List ℕ → List ℕ → Type 0
IsOther name token = strmatch token name ≡ false

module _ (e : AliasEntry) where
  expand_other :
      (fuel : ℕ) (before tokens : List (List ℕ)) (token : List ℕ)
      → IsOther e.name token
      → expand (suc fuel) e before (token ∷ tokens) ≡ expand fuel e (before ++ token ∷ []) tokens
  unfolding expand
  expand_other fuel before tokens token h = rw (h, expand) refl

  -- Tokens that are not the name are passed.
  expand_others :
      (k fuel : ℕ) (before others tokens : List (List ℕ))
      → k ≡ length others + fuel
      → All (IsOther e.name) others
      → expand k e before (others ++ tokens) ≡ expand fuel e (before ++ others) tokens
  expand_others k fuel before [] tokens enough h =
      ap (λ n. expand n e before tokens) (omega (arith, enough))
      ∙ ap (λ b. expand fuel e b tokens) (sym (append-nil before))
  expand_others zero fuel before (other ∷ others) tokens enough h = absurd (omega (arith, enough))
  expand_others (suc k) fuel before (other ∷ others) tokens enough h =
      expand_other k before (others ++ tokens) other h.0
      ∙ expand_others k fuel (before ++ other ∷ []) others tokens (omega (arith, enough)) h.1
      ∙ ap (λ b. expand fuel e b tokens) (append_assoc before (other ∷ []) others)

  module _ (first : List ℕ) (others : List (List ℕ))
      (parsed : parse_command e.command ≡ some (first ∷ others))
      (h : All (IsOther e.name) others) where
    expand_name :
        (fuel : ℕ) (before tokens : List (List ℕ)) (token : List ℕ)
        → strmatch token e.name ≡ true
        → expand (suc fuel) e before (token ∷ tokens)
          ≡ expand fuel e (before ++ first ∷ []) (others ++ tokens)
    unfolding expand
    expand_name fuel before tokens token own = rw (own, parsed, expand) refl

    expand_enough :
        (fuel : ℕ) (before tokens : List (List ℕ))
        → length (replaced e.name (first ∷ others) tokens) < fuel
        → expand fuel e before tokens
          ≡ Expanded.expanded (before ++ replaced e.name (first ∷ others) tokens)
    unfolding expand
    expand_enough zero before tokens l = absurd (omega (arith, l))
    expand_enough (suc fuel) before [] l = ap Expanded.expanded (sym (append-nil before))
    expand_enough (suc fuel) before (token ∷ tokens) l =
        let later = replaced e.name (first ∷ others) tokens in
        elim (Bool-cases (strmatch token e.name)) [
          | inl own ↦
              let here : replaced e.name (first ∷ others) (token ∷ tokens)
                  ≡ first ∷ others ++ later =
                ap (λ ws. ws ++ later) (if_true _ _ own) in
              let count : length (others ++ later) < fuel = omega (arith, l, ap length here) in
              expand_name fuel before tokens token own
              ∙ expand_others fuel (fuel - length others) (before ++ first ∷ []) others tokens
                  (omega (arith, count, length-append others later)) h
              ∙ expand_enough (fuel - length others) ((before ++ first ∷ []) ++ others) tokens
                  (omega (arith, count, length-append others later))
              ∙ ap Expanded.expanded (
                  ap (λ b. b ++ later) (append_assoc before (first ∷ []) others)
                  ∙ append_assoc before (first ∷ others) later
                  ∙ ap (λ ws. before ++ ws) (sym here))
          | inr other ↦
              let here : replaced e.name (first ∷ others) (token ∷ tokens) ≡ token ∷ later =
                ap (λ ws. ws ++ later) (if_false _ _ other) in
              expand_other fuel before tokens token other
              ∙ expand_enough fuel (before ++ token ∷ []) tokens (omega (arith, l, ap length here))
              ∙ ap Expanded.expanded
                  (append_assoc before (token ∷ []) later ∙ ap (λ ws. before ++ ws) (sym here))
        ]

-- When the command of an alias has tokens, of which at most the first is the name of the alias, the
-- expansion ends, with fuel above the number of tokens that it yields. Each token that is the name
-- is replaced by the tokens of the command, and the others stay.
pub expand-replaced :
    (e : AliasEntry) (first : List ℕ) (others tokens : List (List ℕ)) (fuel : ℕ)
    → parse_command e.command ≡ some (first ∷ others)
    → All (IsOther e.name) others
    → length (replaced e.name (first ∷ others) tokens) < fuel
    → expand fuel e [] tokens ≡ Expanded.expanded (replaced e.name (first ∷ others) tokens)
expand-replaced e first others tokens fuel parsed h l =
    expand_enough e first others parsed h fuel [] tokens l
