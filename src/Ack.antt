-- ===== src/Ack.antt =====
-- The handling of an acknowledgement in src/tcp.c (`cmt_tcp_enqueue_acklist`,
-- `cmt_tcp_process_ack`), in the order of its statements. A shift by 32 or more, which C leaves
-- open, gives 0. `payloadlen` is the bit pattern of an `int`.
pub mod Filing
pub mod Outcome
use cmt_tcp.Prelude.{
  ℕ, ◌+◌, ◌-◌, ◌*◌, ◌/◌, ◌%◌, ◌^◌, min, Bool, true, false, not, ◌&&◌, ◌||◌, Option, none, some, ltb,
  leb, ◌==◌, if◌then◌else◌, add32, sub32,
}
use cmt_tcp.Run.{
  Run, pure, stop, assertion, null_pointer, division, deref, branch, gets, modify, ◌>>=◌, ◌>>◌,
}
use cmt_tcp.Seq.{seq_lt, seq_gt, seq_geq}
use cmt_tcp.Stream.{
  State, close_wait, fin_wait_1, closing, last_ack, fin_wait_2, established, rank, same_state,
  SendBuffer, Send, Recv, Stream, Ctx, Act, cur, set_cur, set_snd, set_rcv,
}
use cmt_tcp.SendBuffer.{sb_remove}
use cmt_tcp.SendLists.{addto_acklist, addto_sendlist, remove_sendlist}
use cmt_tcp.Rtt.{estimate_rtt, rto_of}
use cmt_tcp.Timer.{update_retransmission_timer}

-- `ACK_OPT_NOW`, `ACK_OPT_AGGREGATE` and `ACK_OPT_WACK`.
pub data AckOpt : Type 0 where
  now aggregate wack : AckOpt

-- `ack_cnt` is an 8-bit field.
unfoldable pub count_ack : AckOpt → Send → Send
count_ack now d = record d { ack_cnt = (d.ack_cnt + 1) % 256 }
count_ack aggregate d = record d { ack_cnt = if d.ack_cnt == 0 then 1 else d.ack_cnt }
count_ack wack d = record d { is_wack = true }

unfoldable pub enqueue_acklist : AckOpt → Act (Unit {0})
enqueue_acklist opt = do set_snd (count_ack opt); addto_acklist

-- The send buffer that `snd->sndbuf` points to.
unfoldable pub the_sndbuf : Act SendBuffer
the_sndbuf = do s ← cur; deref null_pointer s.snd.sndbuf

-- `cwindow` of lines 1126 to 1130.
unfoldable pub offered_window : Bool → ℕ → ℕ → ℕ
offered_window syn window wscale = if syn then window else (window * 2 ^ wscale) % 2 ^ 32

-- `ack_seq` after lines 1133 to 1141: the peer's acknowledgement of our FIN counts no data.
unfoldable pub data_ack : Stream → ℕ → ℕ
data_ack s ack =
    if (same_state s.state fin_wait_1
        || same_state s.state fin_wait_2
        || same_state s.state closing
        || same_state s.state close_wait
        || same_state s.state last_ack)
      && (s.snd.is_fin_sent && (ack == add32 s.snd.fss 1))
    then sub32 ack 1
    else ack

-- Lines 1154 to 1175.
unfoldable pub update_window : ℕ → ℕ → ℕ → Act (Unit {0})
update_window cwindow seq ack = do
  s ← cur
  branch
      (seq_lt s.rcv.snd_wl1 seq
        || ((s.rcv.snd_wl1 == seq) && seq_lt s.rcv.snd_wl2 ack)
        || ((s.rcv.snd_wl2 == ack) && ltb s.snd.peer_wnd cwindow))
      (do
        set_snd (λ d. record d { peer_wnd = cwindow })
        set_rcv (λ r. record r { snd_wl1 = seq; snd_wl2 = ack }))
      (pure tt)

-- The condition of lines 1178 to 1180, and with it `dup`.
unfoldable pub is_dup : Stream → ℕ → ℕ → ℕ → Bool
is_dup s ack payloadlen right_wnd_edge =
    seq_lt ack s.snd_nxt
    && ((ack == s.rcv.last_ack_seq) && (payloadlen == 0))
    && (add32 s.rcv.snd_wl2 s.snd.peer_wnd == right_wnd_edge)

-- Lines 1181 to 1192. The sum in `dup_acks + 1 > dup_acks` is an `int`, the field has 8 bits.
unfoldable pub count_dup : Bool → ℕ → Recv → Recv
count_dup dup ack r =
    if dup
    then (if ltb r.dup_acks (r.dup_acks + 1)
        then record r { dup_acks = (r.dup_acks + 1) % 256 }
        else r)
    else record r { dup_acks = 0; last_ack_seq = ack }

-- Lines 1211 to 1219, of `cmt_tcp_process_ack` and likewise of `handle_rto`.
unfoldable pub halve_window : Send → ℕ
halve_window d =
    if ltb (min d.cwnd d.peer_wnd / 2) (2 * d.mss) then 2 * d.mss else min d.cwnd d.peer_wnd / 2

abbrev pub tcp_max_rtx : ℕ
tcp_max_rtx = 16

unfoldable pub enter_recovery : Send → Send
unfolding halve_window
enter_recovery d = record d {
  ssthresh = halve_window d;
  cwnd = add32 (halve_window d) (3 * d.mss);
  nrtx = if ltb d.nrtx tcp_max_rtx then d.nrtx + 1 else d.nrtx;
}

-- Lines 1231 to 1236.
unfoldable pub inflate : Send → Send
inflate d = record d {
  cwnd = if ltb d.cwnd (add32 d.cwnd d.mss) then add32 d.cwnd d.mss else d.cwnd;
}

-- Lines 1194 to 1237.
unfoldable pub recover : Bool → ℕ → Act (Unit {0})
recover dup ack = do
  s ← cur
  branch (dup && (s.rcv.dup_acks == 3))
      (do
        set_cur (λ s. record s { snd_nxt = if seq_lt ack s.snd_nxt then ack else s.snd_nxt })
        set_snd enter_recovery
        addto_sendlist)
      (branch (ltb 3 s.rcv.dup_acks) (set_snd inflate) (pure tt))

-- Lines 1239 to 1247.
unfoldable pub advance_snd_nxt : ℕ → Act (Unit {0})
advance_snd_nxt ack = do
  s ← cur
  branch (seq_gt ack s.snd_nxt)
      (do
        set_cur (λ s. record s { snd_nxt = ack })
        b ← the_sndbuf
        branch (b.len == 0) remove_sendlist (pure tt))
      (pure tt)

-- `packets` of lines 1255 to 1258.
unfoldable pub packets_of : ℕ → ℕ → ℕ
packets_of rmlen eff_mss =
    if ltb rmlen ((rmlen / eff_mss) * eff_mss)
    then ((rmlen / eff_mss) % 2 ^ 16 + 1) % 2 ^ 16
    else (rmlen / eff_mss) % 2 ^ 16

-- Lines 1259 to 1267.
unfoldable pub measure : ℕ → Act (Unit {0})
measure cur_ts = do
  s ← cur
  branch s.saw_timestamp
      (do
        set_rcv (estimate_rtt (sub32 cur_ts s.rcv.ts_lastack_rcvd) s.snd.snd_una s.snd_nxt)
        t ← cur
        set_snd (λ d. record d { rto = rto_of t.rcv })
        branch (rto_of t.rcv == 0) (stop assertion) (pure tt))
      (pure tt)

-- Lines 1270 to 1278.
unfoldable pub slow_start : ℕ → Send → Send
slow_start packets d = record d {
  cwnd =
      if ltb d.cwnd d.ssthresh && ltb d.cwnd (add32 d.cwnd d.mss)
      then add32 d.cwnd (d.mss * packets)
      else d.cwnd;
}

-- Lines 1280 to 1283.
unfoldable pub avoid_congestion : ℕ → Send → Send
avoid_congestion packets d =
    let new_cwnd = add32 d.cwnd (((packets * d.mss * d.mss) % 2 ^ 32) / d.cwnd) in
    record d { cwnd = if ltb d.cwnd new_cwnd then new_cwnd else d.cwnd }

-- Lines 1269 to 1284.
unfoldable pub grow_window : ℕ → Act (Unit {0})
grow_window packets = do
  s ← cur
  branch (leb (rank established) (rank s.state)) (set_snd (slow_start packets))
      (branch (s.snd.cwnd == 0) (stop division) (set_snd (avoid_congestion packets)))

-- Lines 1286 to 1299; a `size_t` of `sb_remove` is returned as an `int`.
unfoldable pub drop_acked : ℕ → ℕ → ℕ → Act (Unit {0})
drop_acked cur_ts ack rmlen = do
  b ← the_sndbuf
  set_snd (λ d. record d { sndbuf = some (sb_remove b rmlen).1 })
  branch (((sb_remove b rmlen).0 == 0) || leb (2 ^ 31) ((sb_remove b rmlen).0 % 2 ^ 32)) (pure tt)
      do
        set_snd (λ d. record d {
          snd_una = ack;
          snd_wnd = sub32 (sb_remove b rmlen).1.size (sb_remove b rmlen).1.len;
        })
        update_retransmission_timer cur_ts

-- Lines 1249 to 1300.
unfoldable pub release : ℕ → ℕ → Act (Unit {0})
release cur_ts ack = do
  b ← the_sndbuf
  branch (seq_geq b.head_seq ack || (sub32 ack b.head_seq == 0)) (pure tt) do
    s ← cur
    branch (s.snd.eff_mss == 0) (stop division) do
      measure cur_ts
      grow_window (packets_of (sub32 ack b.head_seq) s.snd.eff_mss)
      drop_acked cur_ts ack (sub32 ack b.head_seq)

-- What follows the check of `ack_seq`, from line 1153.
unfoldable pub accept_ack : ℕ → ℕ → ℕ → ℕ → ℕ → ℕ → Act (Unit {0})
accept_ack cur_ts cwindow right_wnd_edge seq ack payloadlen = do
  update_window cwindow seq ack
  s ← cur
  set_rcv (count_dup (is_dup s ack payloadlen right_wnd_edge) ack)
  recover (is_dup s ack payloadlen right_wnd_edge) ack
  advance_snd_nxt ack
  release cur_ts ack

unfoldable pub process_ack : ℕ → Bool → ℕ → ℕ → ℕ → ℕ → Act (Unit {0})
process_ack cur_ts syn seq ack_seq window payloadlen = do
  s ← cur
  b ← the_sndbuf
  branch (seq_gt (data_ack s ack_seq) (add32 b.head_seq b.len)) (pure tt) (
      accept_ack cur_ts (offered_window syn window s.snd.wscale_peer)
        (add32 s.snd.peer_wnd s.rcv.snd_wl1) seq (data_ack s ack_seq) payloadlen)
