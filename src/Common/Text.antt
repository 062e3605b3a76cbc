-- ===== src/Common/Text.antt =====
-- C strings as lists of characters: strcmp-like equality and atoi().
use Prim.Native.Nat.{ℕ, ◌+◌, ◌-◌, ◌*◌, ◌%◌}
use Prim.Native.Char.{code}
use Prim.Native.String.{String}
use mathlib.Core.Bool.{Bool, true, false, ◌&&◌}
use mathlib.Core.List.{List, [], ◌∷◌}
use os_pa.Common.Tests.{leb, ◌==◌, if◌then◌else◌}
use os_pa.Common.Words.{u32_mod}

abbrev pub codes : String → List ℕ
codes String.[] = []
codes (String.◌∷◌ c s) = code c ∷ codes s

-- The strings are the same.
unfoldable pub strmatch : List ℕ → List ℕ → Bool
strmatch [] [] = true
strmatch [] (d ∷ ds) = false
strmatch (c ∷ cs) [] = false
strmatch (c ∷ cs) (d ∷ ds) = c == d && strmatch cs ds

abbrev pub isdigit : ℕ → Bool
isdigit c = leb b'0' c && leb c b'9'

unfoldable pub digits : ℕ → List ℕ → ℕ
digits n [] = n
digits n (c ∷ cs) = let rest = digits (n * 10 + (c - b'0')) cs in if isdigit c then rest else n

-- atoi() of the C library, converted to an unsigned int. A token has no leading blank.
unfoldable pub atoi : List ℕ → ℕ
unfolding digits
atoi [] = 0
atoi (c ∷ cs) =
    if c == b'-'
    then (u32_mod - digits 0 cs % u32_mod) % u32_mod
    else if c == b'+'
    then digits 0 cs % u32_mod
    else digits 0 (c ∷ cs) % u32_mod
