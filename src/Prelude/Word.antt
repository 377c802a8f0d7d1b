-- ===== src/Prelude/Word.antt =====
-- Machine words as native numbers. An `int` is kept as the 32-bit pattern of its value.
use Prim.Native.Nat.{ℕ, ◌+◌, ◌-◌, ◌%◌, ◌^◌, ◌<◌}
use mathlib.Core.Bool.{Bool, ◌&&◌}
use mathlib.Core.Path.{◌≡◌}
use native.Mathlib.Omega.{arith}
use cmt_tcp.Prelude.Tests.{ltb, leb}

abbrev pub add32 : ℕ → ℕ → ℕ
add32 a b = (a + b) % 2 ^ 32

abbrev pub sub32 : ℕ → ℕ → ℕ
sub32 a b = (a + 2 ^ 32 - b % 2 ^ 32) % 2 ^ 32

-- The signed reading of a pattern: `(int)w < 0` and `(int)w > 0`.
abbrev pub neg32 : ℕ → Bool
neg32 w = leb (2 ^ 31) w

abbrev pub pos32 : ℕ → Bool
pos32 w = ltb 0 w && ltb w (2 ^ 31)

pub sub32-lt : (a b : ℕ) → sub32 a b < 2 ^ 32
sub32-lt a b = omega arith

pub sub32-add32 : (a b : ℕ) → a < 2 ^ 32 → sub32 (add32 a b) b ≡ a
sub32-add32 a b h = omega arith
