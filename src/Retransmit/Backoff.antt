-- ===== src/Retransmit/Backoff.antt =====
-- The timeout and the windows after a retransmission.
use cmt_tcp.Prelude.{
  ℕ, ◌*◌, ◌%◌, ◌^◌, ◌≤◌, ◌<◌, ◌≡◌, min, arith, true, if◌then◌else◌, ltb, leb, ◌==◌,
}
use native.Mathlib.Nat.{pow-le-pow_right, mul-le-mul_left}
use cmt_tcp.Run.{◌>>=◌}
use cmt_tcp.Run.Keeps.{Returns}
use cmt_tcp.Stream.{Stream, Ctx, rank, established, syn_sent, closed, conn_fail, conn_lost}
use cmt_tcp.Rtt.{rto_of}
use cmt_tcp.Retransmit.{
  backed_off, shrink_window, count_retry, give_up, fail_syn, retry, handle_rto,
}

scale_le : (n : ℕ) → 2 ^ min n 7 ≤ 2 ^ 7
scale_le n = pow-le-pow_right {n = 2} (omega arith) {i = min n 7} {j = 7} (omega arith)

not_zero : (x y : ℕ) → 0 < x → x < 2 ^ 32 → (if x % 2 ^ 32 == 0 then y else x % 2 ^ 32) ≡ x
not_zero x y some_x small = ground arith

-- From ESTABLISHED on, a retransmission's timeout is the estimate doubled once for each retry, seven
-- times at most, where the estimate is positive and below 2 ^ 25.
pub backed_off_scales :
    (s : Stream)
    → rank established ≤ rank s.state
    → 0 < rto_of s.rcv
    → rto_of s.rcv < 2 ^ 25
    → backed_off s ≡ rto_of s.rcv * 2 ^ min s.snd.nrtx 7
unfolding backed_off
backed_off_scales s opened some_rto small =
    let k = 2 ^ min s.snd.nrtx 7 in
    let r = rto_of s.rcv in
    let top : k ≤ 128 = scale_le s.snd.nrtx in
    let low : r * 1 ≤ r * k =
      mul-le-mul_left r
        (pow-le-pow_right {n = 2} (omega arith) {i = 0} {j = min s.snd.nrtx 7} (omega arith)) in
    let high : r * k ≤ r * 128 = mul-le-mul_left r top in
    let open_b : leb 4 (rank s.state) ≡ true = ground arith in
    rw open_b (not_zero (r * k) s.snd.rto (omega (arith, low)) (omega (arith, high)))

-- A stream whose retries are used up is closed: as failed before it was established, else as lost.
pub handle_rto_gives_up :
    (c : Ctx)
    → 16 ≤ c.cur.snd.nrtx
    → Returns
        (λ d.
          (d.cur.state ≡ closed)
          × (d.cur.close_reason
              ≡ (if ltb (rank c.cur.state) (rank established) then conn_fail else conn_lost)))
        (handle_rto c)
unfolding handle_rto give_up ◌>>=◌
handle_rto_gives_up c used = ground arith

-- From the eighth retry on, a stream that waits for the answer to its SYN is closed as failed.
pub handle_rto_fails_syn :
    (c : Ctx)
    → c.cur.state ≡ syn_sent
    → 7 ≤ c.cur.snd.nrtx
    → c.cur.snd.nrtx < 16
    → Returns (λ d. (d.cur.state ≡ closed) × (d.cur.close_reason ≡ conn_fail)) (handle_rto c)
unfolding handle_rto retry fail_syn count_retry shrink_window backed_off ◌>>=◌
handle_rto_fails_syn c sent many few = ground (arith, sent)
