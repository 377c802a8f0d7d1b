-- ===== src/Seq.antt =====
-- The sequence comparisons of include/tcp.h: the sign of a 32-bit difference.
pub mod Order
use cmt_tcp.Prelude.{ℕ, ◌^◌, Bool, ◌&&◌, ◌||◌, not, leb, ltb, ◌==◌, sub32}

unfoldable pub seq_lt : ℕ → ℕ → Bool
seq_lt a b = leb (2 ^ 31) (sub32 a b)

unfoldable pub seq_leq : ℕ → ℕ → Bool
seq_leq a b = leb (2 ^ 31) (sub32 a b) || (sub32 a b == 0)

unfoldable pub seq_gt : ℕ → ℕ → Bool
seq_gt a b = ltb (sub32 a b) (2 ^ 31) && not (sub32 a b == 0)

unfoldable pub seq_geq : ℕ → ℕ → Bool
seq_geq a b = ltb (sub32 a b) (2 ^ 31)

unfoldable pub seq_between : ℕ → ℕ → ℕ → Bool
unfolding seq_geq seq_leq
seq_between a b c = seq_geq a b && seq_leq a c
