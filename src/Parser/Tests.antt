-- ===== src/Parser/Tests.antt =====
-- Runs of parse_command, and the theorem on them.
use os_pa.Common.{ℕ, suc, ◌≢◌, ◌≡◌, refl, some, List, [], ◌∷◌, codes, arith}
use os_pa.Parser.{parse_command}
use os_pa.Parser.Words.{parse_command-words}

abbrev line : List ℕ
line = codes "at 2 #"

line_tokens : parse_command line ≡ some (codes "at" ∷ codes "2" ∷ [])
unfolding parse_command
line_tokens = refl

nul : {n : ℕ} → suc n ≢ 0
nul e = omega (arith, e)

parse_command-words_example : parse_command line ≡ some (codes "at" ∷ codes "2" ∷ [])
parse_command-words_example = parse_command-words line (nul, (nul, (nul, (nul, (nul, (nul, tt))))))
