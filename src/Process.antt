-- ===== src/Process.antt =====
-- `cmt_tcp_process` of src/tcp.c: from a packet's checksum to the handler of its stream's state.
-- Whether the flow table knows the stream is a parameter; the stream it finds is `cur`.
pub mod Filing
pub mod Opened
use cmt_tcp.Prelude.{
  ℕ, ◌+◌, ◌-◌, ◌*◌, ◌%◌, ◌^◌, Bool, true, false, not, ◌&&◌, ltb, ◌==◌, if◌then◌else◌, pos32,
}
use cmt_tcp.Run.{Run, pure, stop, assertion, branch, gets, modify, ◌>>=◌, ◌>>◌}
use cmt_tcp.Stream.{
  State, closed, listen, syn_sent, syn_rcvd, established, close_wait, fin_wait_1, closing, last_ack,
  fin_wait_2, time_wait, rank, same_state, Send, Stream, Ctx, Act, cur, set_cur, set_snd,
}
use cmt_tcp.Checksum.{calculate_checksum}
use cmt_tcp.SendLists.{addto_controllist}
use cmt_tcp.Timer.{add_to_timewait_list, remove_from_timewait_list, update_timeout_list}
use cmt_tcp.Ack.{offered_window}
use cmt_tcp.Retransmit.{minus_one}
use cmt_tcp.Segment.{Segment, Env, tcp_len, payloadlen}
use cmt_tcp.Connect.{create_stream}
use cmt_tcp.Receive.{validseq, process_rst}
use cmt_tcp.Handlers.{
  handle_listen, handle_syn_sent, handle_syn_rcvd, handle_established, handle_last_ack,
  handle_fin_wait_1, handle_fin_wait_2, handle_closing,
}

module _ (e : Env) (g : Segment) where
  -- Lines 1404 to 1416.
  unfoldable pub in_syn_rcvd : Act (Unit {0})
  in_syn_rcvd = do
    s ← cur
    branch (g.syn && (g.seq == s.rcv.irs)) (handle_listen e g) (do
      handle_syn_rcvd e g
      t ← cur
      branch (pos32 (payloadlen g) && same_state t.state established) (handle_established e g)
          (pure tt))

  -- Lines 1447 to 1454.
  unfoldable pub in_time_wait : Act (Unit {0})
  in_time_wait = do
    s ← cur
    branch s.on_timewait_list (do remove_from_timewait_list; add_to_timewait_list e.now) (pure tt)
    addto_controllist

  -- The `switch` of lines 1394 to 1458.
  unfoldable pub dispatch : State → Act (Unit {0})
  dispatch listen = handle_listen e g
  dispatch syn_sent = handle_syn_sent e g
  dispatch syn_rcvd = in_syn_rcvd
  dispatch established = handle_established e g
  dispatch close_wait = e.handle_close_wait g
  dispatch last_ack = handle_last_ack e g
  dispatch fin_wait_1 = handle_fin_wait_1 e g
  dispatch fin_wait_2 = handle_fin_wait_2 e g
  dispatch closing = handle_closing e g
  dispatch time_wait = in_time_wait
  dispatch closed = pure tt

  -- Lines 1385 to 1392: whether the reset ends the handling.
  unfoldable pub take_rst : Act Bool
  take_rst =
      branch g.rst
        (do
          set_cur (λ s. record s { have_reset = true })
          s ← cur
          branch (ltb (rank syn_sent) (rank s.state))
              (do ret ← process_rst e g; pure (not (ret == 0))) (pure false))
        (pure false)

  unfoldable pub run_handler : Act ℕ
  run_handler = do s ← cur; dispatch s.state; pure 1

  -- Lines 1375 to 1460.
  unfoldable pub handle : Act ℕ
  handle = do
    set_snd (λ d. record d { peer_wnd = offered_window g.syn g.window d.wscale_peer })
    set_cur (λ s. record s { last_active_ts = e.now })
    update_timeout_list
    done ← take_rst
    branch done (pure 1) run_handler

  -- From line 1361 on.
  unfoldable pub accept : Act ℕ
  accept = do
    s ← cur
    valid ← branch (ltb (rank syn_rcvd) (rank s.state)) (validseq e g) (pure true)
    branch (not valid) (pure 1) handle

  -- Line 1320: the checksum over the segment.
  unfoldable pub segment_check : ℕ
  segment_check = calculate_checksum e.proto_tcp g.words g.odd (tcp_len g) g.saddr g.daddr

  -- Lines 1352 to 1360: whether there is a stream.
  unfoldable pub find_stream : Bool → Act Bool
  find_stream found = branch found (pure true) (create_stream e g)

  unfoldable pub process : Bool → Act ℕ
  process found = branch (not (g.ihl * 4 == 20)) (stop assertion) (
      branch (not (segment_check == 0)) (pure minus_one)
        do known ← find_stream found; branch (not known) (pure (2 ^ 32 - 2)) accept)
