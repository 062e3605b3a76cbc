-- ===== src/Common/Words.antt =====
-- C's `unsigned int`: numbers below 2^32, with the wrap-around written out.
use Prim.Native.Nat.{ℕ, ◌+◌, ◌-◌, ◌%◌, ◌≤◌, ◌<◌}
use mathlib.Core.Path.{◌≡◌}
use native.Mathlib.Omega.{arith}

abbrev pub u32_mod : ℕ
u32_mod = 4294967296

-- x + 1
abbrev pub inc32 : ℕ → ℕ
inc32 x = (x + 1) % u32_mod

-- x - 1
abbrev pub dec32 : ℕ → ℕ
dec32 x = (x + (u32_mod - 1)) % u32_mod

-- a - b, for two values in range
abbrev pub sub32 : ℕ → ℕ → ℕ
sub32 a b = (a + (u32_mod - b)) % u32_mod

pub inc32_lem : (x : ℕ) → x + 1 < u32_mod → inc32 x ≡ x + 1
inc32_lem x h = omega arith

pub dec32_lem : (x : ℕ) → 0 < x → x < u32_mod → dec32 x ≡ x - 1
dec32_lem x p h = omega arith

pub sub32_lem : (a b : ℕ) → b ≤ a → a < u32_mod → sub32 a b ≡ a - b
sub32_lem a b p h = omega arith
