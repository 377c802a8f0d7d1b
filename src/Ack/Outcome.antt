-- ===== src/Ack/Outcome.antt =====
-- What an acknowledgement does to the windows and to the send buffer.
use cmt_tcp.Prelude.{
  ℕ, ◌+◌, ◌-◌, ◌*◌, ◌/◌, ◌%◌, ◌^◌, min, max, ◌≤◌, ◌<◌, ◌≡◌, refl, ap, ◌∙◌, Bool, ◌||◌, true, false,
  some, arith, leb, ◌==◌, add32, sub32,
}
use cmt_tcp.Run.{ok, fault, division, ◌>>=◌}
use cmt_tcp.Run.Keeps.{Returns, Total, Total-weaken}
use cmt_tcp.Seq.{seq_lt, seq_gt, seq_geq}
use cmt_tcp.Stream.{SendBuffer, Recv, Ctx, rank, established}
use cmt_tcp.SendBuffer.{sb_remove}
use cmt_tcp.SendLists.{addto_sendlist}
use cmt_tcp.Timer.{add_to_rto_list, remove_from_rto_list, update_retransmission_timer}
use cmt_tcp.Ack.{
  data_ack, the_sndbuf, count_dup, halve_window, enter_recovery, recover, slow_start, grow_window,
  drop_acked, release, process_ack,
}

-- An acknowledgement of bytes beyond the send buffer's last changes nothing.
pub process_ack_ignores :
    (c : Ctx) (b : SendBuffer) (ts : ℕ) (syn : Bool) (seq ack window len : ℕ)
    → c.cur.snd.sndbuf ≡ some b
    → seq_gt (data_ack c.cur ack) (add32 b.head_seq b.len) ≡ true
    → process_ack ts syn seq ack window len c ≡ ok (tt, c)
unfolding process_ack the_sndbuf ◌>>=◌ seq_gt data_ack
process_ack_ignores c b ts syn seq ack window len held beyond = rw held (rw beyond refl)

-- Acknowledged bytes of a stream whose peer announced no segment size stop the process by a division
-- by zero, `eff_mss` being 0.
pub release_divides :
    (c : Ctx) (b : SendBuffer) (ts ack : ℕ)
    → c.cur.snd.sndbuf ≡ some b
    → seq_geq b.head_seq ack ≡ false
    → c.cur.snd.eff_mss ≡ 0
    → release ts ack c ≡ fault division
unfolding release the_sndbuf seq_geq ◌>>=◌
release_divides c b ts ack held fresh zero_mss = rw held (ground arith)

-- The counter of duplicates goes from 255 to 0: the test before it always holds.
count_dup_wraps :
    (r : Recv) (ack : ℕ)
    → r.dup_acks < 256
    → (count_dup true ack r).dup_acks ≡ (r.dup_acks + 1) % 256
unfolding count_dup
count_dup_wraps r ack byte = ground arith

-- From ESTABLISHED on, an acknowledgement leaves a congestion window at or above `ssthresh` alone.
pub grow_window_stalls :
    (c : Ctx) (packets : ℕ)
    → rank established ≤ rank c.cur.state
    → c.cur.snd.ssthresh ≤ c.cur.snd.cwnd
    → grow_window packets c ≡ ok (tt, c)
unfolding grow_window slow_start ◌>>=◌
grow_window_stalls c packets opened above = ground arith

-- The third duplicate acknowledgement goes back to the acknowledged byte, puts the stream on the send
-- list, sets `ssthresh` to half the smaller window but no less than two segments, sets the window to
-- three segments more, and keeps the retransmissions at 16 or fewer.
pub recover_third :
    (c : Ctx) (b : SendBuffer) (ack : ℕ)
    → c.cur.snd.sndbuf ≡ some b
    → c.cur.rcv.dup_acks ≡ 3
    → seq_lt ack c.cur.snd_nxt ≡ true
    → c.cur.snd.mss < 2 ^ 16
    → c.cur.snd.cwnd < 2 ^ 32
    → c.cur.snd.nrtx ≤ 16
    → Returns
        (λ d.
          (d.cur.snd_nxt ≡ ack)
          × (d.cur.snd.on_send_list ≡ true)
          × (d.cur.snd.nrtx ≤ 16)
          × (d.cur.snd.ssthresh
              ≡ max (min c.cur.snd.cwnd c.cur.snd.peer_wnd / 2) (2 * c.cur.snd.mss))
          × (d.cur.snd.cwnd ≡ d.cur.snd.ssthresh + 3 * c.cur.snd.mss))
        (recover true ack c)
unfolding recover enter_recovery halve_window addto_sendlist ◌>>=◌
recover_third c b ack held third behind small wide few = ground (arith, held, third, behind)

-- What the timer keeps of an acknowledged send buffer.
abbrev Acked : ℕ → SendBuffer → Ctx → Type 0
Acked ack b c = (c.cur.snd.snd_una ≡ ack) × (c.cur.snd.sndbuf ≡ some b)

update_retransmission_timer-Acked :
    (ack ts : ℕ) (b : SendBuffer)
    → Total
        (λ c. Acked ack b c × (0 < c.cur.snd.rto))
        (update_retransmission_timer ts)
        (Acked ack b)
unfolding update_retransmission_timer remove_from_rto_list add_to_rto_list ◌>>=◌
update_retransmission_timer-Acked ack ts b = record { at = λ c h. ground arith }

sb_remove_all :
    (b : SendBuffer) (ack : ℕ)
    → 0 < sub32 ack b.head_seq
    → sub32 ack b.head_seq ≤ b.len
    → ack < 2 ^ 32
    → ((sb_remove b (sub32 ack b.head_seq)).0 ≡ sub32 ack b.head_seq)
      × ((sb_remove b (sub32 ack b.head_seq)).1.head_seq ≡ ack)
      × ((sb_remove b (sub32 ack b.head_seq)).1.len ≡ b.len - sub32 ack b.head_seq)
unfolding sb_remove
sb_remove_all b ack fresh sent word = (ground arith, ground arith, ground arith)

module _ (c : Ctx) (b : SendBuffer) (ts ack : ℕ) (held : c.cur.snd.sndbuf ≡ some b)
    (fresh : 0 < sub32 ack b.head_seq) (sent : sub32 ack b.head_seq ≤ b.len)
    (bounded : b.len < 2 ^ 31) (word : ack < 2 ^ 32) (some_rto : 0 < c.cur.snd.rto) where
  -- What is acknowledged leaves the send buffer: where the timeout is positive,
  -- `snd_una` and the buffer's first sequence number become `ack`, and the buffer is shorter by the
  -- difference.
  pub drop_acked_advances :
      Returns
        (λ d.
          (d.cur.snd.snd_una ≡ ack)
          × (b' : SendBuffer) × (d.cur.snd.sndbuf ≡ some b')
          × (b'.head_seq ≡ ack)
          × (b'.len ≡ b.len - sub32 ack b.head_seq))
        (drop_acked ts ack (sub32 ack b.head_seq) c)
  unfolding drop_acked the_sndbuf ◌>>=◌
  drop_acked_advances =
      let n = sub32 ack b.head_seq in
      let (taken, first, left) = sb_remove_all b ack fresh sent word in
      let took : (((sb_remove b n).0 == 0) || leb (2 ^ 31) ((sb_remove b n).0 % 2 ^ 32)) ≡ false =
        ap (λ k. (k == 0) || leb (2 ^ 31) (k % 2 ^ 32)) taken ∙ ground arith in
      rw held (
        rw took (
          (Total-weaken (λ d h. (h.0, (sb_remove b n).1, h.1, first, left))
              (update_retransmission_timer-Acked ack ts (sb_remove b n).1)).at
            _ ((refl, refl), some_rto)))
