-- ===== src/Rtt/Estimate.antt =====
-- What the round-trip estimate yields.
use cmt_tcp.Prelude.{ℕ, ◌*◌, ◌^◌, ◌<◌, ◌≡◌, ◌≢◌, arith, add32, max}
use cmt_tcp.Stream.{Recv}
use cmt_tcp.Rtt.{estimate_rtt, rto_of}

-- The first measurement of a stream sets the timeout to three times the measured ticks, or to 3
-- where less than one tick was measured.
pub estimate_rtt_first :
    (r : Recv) (mrtt una nxt : ℕ)
    → r.srtt ≡ 0
    → mrtt < 2 ^ 28
    → rto_of (estimate_rtt mrtt una nxt r) ≡ 3 * max mrtt 1
unfolding estimate_rtt
estimate_rtt_first r mrtt una nxt fresh small = ground arith

-- Every later measurement raises the smoothed time by 3, whatever was measured.
pub estimate_rtt-srtt :
    (r : Recv) (mrtt una nxt : ℕ) → r.srtt ≢ 0 → (estimate_rtt mrtt una nxt r).srtt ≡ add32 r.srtt 3
unfolding estimate_rtt
estimate_rtt-srtt r mrtt una nxt started = ground arith
