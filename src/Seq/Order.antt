-- ===== src/Seq/Order.antt =====
-- Laws of the sequence comparisons of include/tcp.h.
use cmt_tcp.Prelude.{ℕ, ◌^◌, ◌≤◌, ◌<◌, ◌≡◌, ◌↔◌, true, false, arith, add32}
use cmt_tcp.Seq.{seq_lt, seq_leq, seq_gt, seq_geq, seq_between}

-- For any two points less than half the sequence space apart, also across the wrap, the four
-- comparisons order them as their distance says: with `b` lying `d` ahead of `a`.
pub seq_ahead :
    (a d : ℕ)
    → a < 2 ^ 32
    → 0 < d
    → d < 2 ^ 31
    → (seq_lt a (add32 a d) ≡ true)
      × (seq_leq a (add32 a d) ≡ true)
      × (seq_gt (add32 a d) a ≡ true)
      × (seq_geq (add32 a d) a ≡ true)
      × (seq_lt (add32 a d) a ≡ false)
      × (seq_gt a (add32 a d) ≡ false)
unfolding seq_lt seq_leq seq_gt seq_geq
seq_ahead a d h p q = ground arith

-- `TCP_SEQ_BETWEEN` accepts exactly the points of the window of `w` places that starts at `b`.
pub seq_between_window :
    (b w d : ℕ)
    → b < 2 ^ 32
    → w < 2 ^ 31
    → d < 2 ^ 31
    → (seq_between (add32 b d) b (add32 b w) ≡ true) ↔ (d ≤ w)
unfolding seq_between
seq_between_window b w d h p q = (λ e. ground arith, λ e. ground arith)
