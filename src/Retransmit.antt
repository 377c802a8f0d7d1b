-- ===== src/Retransmit.antt =====
-- The expiry of a stream's retransmission timer in src/timer.c (`handle_rto`), in the order of its
-- statements. An `int` that is negative is its 32-bit pattern; `destroy_tcp_stream` is noted.
pub mod Filing
pub mod Backoff
use cmt_tcp.Prelude.{
  ℕ, ◌+◌, ◌-◌, ◌*◌, ◌%◌, ◌^◌, min, Bool, true, not, ◌&&◌, ◌||◌, ltb, leb, ◌==◌, if◌then◌else◌,
}
use cmt_tcp.Run.{Run, pure, stop, assertion, branch, gets, modify, ◌>>=◌, ◌>>◌}
use cmt_tcp.Seq.{seq_lt}
use cmt_tcp.Stream.{
  State, closed, syn_sent, syn_rcvd, established, close_wait, fin_wait_1, closing, last_ack,
  conn_fail, conn_lost, rank, same_state, Send, Stream, Ctx, Act, stream_destroy, cur, set_cur,
  set_snd, note_call,
}
use cmt_tcp.SendLists.{addto_controllist, addto_sendlist, remove_controllist}
use cmt_tcp.Rtt.{rto_of}
use cmt_tcp.Ack.{tcp_max_rtx, halve_window}

abbrev pub tcp_max_backoff : ℕ
tcp_max_backoff = 7

abbrev pub tcp_max_syn_retry : ℕ
tcp_max_syn_retry = 7

abbrev pub minus_one : ℕ
minus_one = 2 ^ 32 - 1

-- Lines 167 to 183.
unfoldable pub give_up : Act ℕ
give_up = do
  s ← cur
  set_cur (λ s. record s {
    state = closed;
    close_reason = if ltb (rank s.state) (rank established) then conn_fail else conn_lost;
  })
  branch (ltb (rank s.state) (rank established) || not s.socket) (note_call (stream_destroy s.id))
      (pure tt)
  pure minus_one

-- Lines 164 and 186 to 188.
unfoldable pub count_retry : Send → Send
count_retry d = record d {
  nrtx = d.nrtx + 1;
  max_nrtx = if ltb d.max_nrtx (d.nrtx + 1) then d.nrtx + 1 else d.max_nrtx;
}

-- `rto` after lines 190 to 204.
unfoldable pub backed_off : Stream → ℕ
backed_off s =
    let scaled = (rto_of s.rcv * 2 ^ min s.snd.nrtx tcp_max_backoff) % 2 ^ 32 in
    if leb (rank established) (rank s.state)
    then (if scaled == 0 then s.snd.rto else scaled)
    else if leb (rank syn_sent) (rank s.state) && ltb s.snd.nrtx tcp_max_backoff
    then (s.snd.rto * 2) % 2 ^ 32
    else s.snd.rto

-- Lines 206 to 210.
unfoldable pub shrink_window : Send → Send
unfolding halve_window
shrink_window d = record d { ssthresh = halve_window d; cwnd = d.mss }

-- The states that lines 215 to 275 let pass.
unfoldable pub retransmits : State → Bool
retransmits st =
    same_state st syn_sent
    || same_state st syn_rcvd
    || same_state st established
    || same_state st close_wait
    || same_state st last_ack
    || same_state st fin_wait_1
    || same_state st closing

-- Lines 218 to 229.
unfoldable pub fail_syn : Act ℕ
fail_syn = do
  s ← cur
  set_cur (λ s. record s { state = closed; close_reason = conn_fail })
  branch (not s.socket) (note_call (stream_destroy s.id)) (pure tt)
  pure minus_one

-- Lines 292 to 304.
unfoldable pub resend_closing : Act (Unit {0})
resend_closing = do
  s ← cur
  branch (seq_lt s.snd_nxt s.snd.fss)
      (do
        branch s.snd.on_control_list remove_controllist (pure tt)
        set_cur (λ s. record s { control_list_waiting = true })
        addto_sendlist)
      addto_controllist

-- Lines 277 to 309.
unfoldable pub resend : Act (Unit {0})
resend = do
  set_cur (λ s. record s { snd_nxt = s.snd.snd_una })
  s ← cur
  branch (same_state s.state established || same_state s.state close_wait) addto_sendlist (
      branch
        (same_state s.state fin_wait_1 || same_state s.state closing || same_state s.state last_ack)
        resend_closing addto_controllist)

-- From line 186 on.
unfoldable pub retry : Act ℕ
retry = do
  set_snd count_retry
  s ← cur
  set_snd (λ d. record d { rto = backed_off s })
  set_snd shrink_window
  branch (same_state s.state syn_sent && ltb tcp_max_syn_retry s.snd.nrtx) fail_syn
      (branch (not (retransmits s.state)) (stop assertion) do resend; pure 0)

unfoldable pub handle_rto : Act ℕ
handle_rto = do s ← cur; branch (ltb s.snd.nrtx tcp_max_rtx) retry give_up
