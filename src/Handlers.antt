-- ===== src/Handlers.antt =====
-- The handlers of src/tcp.c, one for each state of a stream, from `cmt_tcp_handle_listen` to
-- `cmt_tcp_handle_closing`.
pub mod Filing
pub mod Stops
pub mod Established
use cmt_tcp.Prelude.{
  ℕ, ◌+◌, ◌-◌, ◌*◌, ◌%◌, ◌^◌, Bool, true, false, not, ◌&&◌, ◌||◌, Option, none, some, ◌==◌,
  if◌then◌else◌, add32, sub32, pos32,
}
use cmt_tcp.Run.{
  Run, pure, stop, assertion, exited, null_pointer, deref, branch, gets, modify, ◌>>=◌, ◌>>◌,
}
use cmt_tcp.Seq.{seq_lt, seq_leq, seq_gt}
use cmt_tcp.Stream.{
  State, closed, listen, syn_sent, syn_rcvd, established, close_wait, fin_wait_1, closing, last_ack,
  fin_wait_2, time_wait, active_close, passive_close, reset, not_accepted, same_state, Socket,
  SendBuffer, Send, Stream, AcceptQueue, Listener, Packet, Manager, Ctx, Act, tcppkt_alone,
  stream_destroy, cur, set_cur, set_snd, set_tcp, note_call,
}
use cmt_tcp.SendLists.{addto_controllist}
use cmt_tcp.Timer.{
  remove_from_rto_list, add_to_timewait_list, add_to_timeout_list, update_retransmission_timer,
}
use cmt_tcp.Accept.{stream_enqueue}
use cmt_tcp.Ack.{AckOpt, now, aggregate, enqueue_acklist, process_ack}
use cmt_tcp.Segment.{Segment, Env, payloadlen}
use cmt_tcp.Connect.{active_open, answer}
use cmt_tcp.Receive.{wake_reader, process_payload}

module _ (e : Env) (g : Segment) where
  unfoldable pub handle_listen : Act (Unit {0})
  handle_listen =
      branch g.syn
        (do
          set_cur (λ s. record s {
            rcv_nxt = if same_state s.state listen then add32 s.rcv_nxt 1 else s.rcv_nxt;
            state = syn_rcvd;
          })
          addto_controllist)
        (stop assertion)

  -- Lines 612 to 622; the addresses of this answer are not exchanged.
  unfoldable pub refuse : Option Socket → Act (Unit {0})
  refuse (some k) = pure tt
  refuse none = do
    note_call (
        tcppkt_alone (record {
          saddr = g.saddr;
          sport = g.dest;
          daddr = g.daddr;
          dport = g.source;
          seq = 0;
          ack_seq = add32 (add32 g.seq (payloadlen g)) 1;
          flags = 20;
        }))
    set_cur (λ s. record s { close_reason = active_close })
    s ← cur
    note_call (stream_destroy s.id)

  -- Lines 598 to 626.
  unfoldable pub establish_sent : Act (Unit {0})
  establish_sent = do
    done ← active_open e g
    branch (not done) (pure tt) do
      set_snd (λ d. record d { nrtx = 0 })
      set_cur (λ s. record s { rcv_nxt = add32 s.rcv.irs 1 })
      remove_from_rto_list
      set_cur (λ s. record s { state = established })
      s ← cur
      refuse s.s
      addto_controllist
      add_to_timeout_list

  -- Lines 586 to 595, where the stream has no socket.
  unfoldable pub lose_sent : Option Socket → Act (Unit {0})
  lose_sent (some k) = pure tt
  lose_sent none = do s ← cur; note_call (stream_destroy s.id)

  -- Lines 583 to 633.
  unfoldable pub settle_sent : Act (Unit {0})
  settle_sent =
      branch (g.rst && g.ack)
        (do
          set_cur (λ s. record s { state = close_wait; close_reason = reset })
          s ← cur
          lose_sent s.s)
        (branch (g.syn && g.ack) establish_sent
          (do set_cur (λ s. record s { state = syn_rcvd; snd_nxt = s.snd.iss }); addto_controllist))

  unfoldable pub handle_syn_sent : Act (Unit {0})
  handle_syn_sent = do
    s ← cur
    branch (g.ack && (seq_leq g.ack_seq s.snd.iss || seq_gt g.ack_seq s.snd_nxt))
        (branch g.rst (pure tt) (answer g g.ack_seq 0 4))
        (do
          branch g.ack (set_snd (λ d. record d { snd_una = add32 d.snd_una 1 })) (pure tt)
          settle_sent)

  -- Lines 666 to 672.
  unfoldable pub offer_accept : Act (Unit {0})
  offer_accept = do
    t ← gets (λ c. c.tcp)
    l ← deref null_pointer (t.listeners g.dest)
    s ← cur
    let put = stream_enqueue e.next_index l.acceptq s.id
    set_tcp (λ t. record t {
      listeners = λ p. if p == g.dest then some (record l { acceptq = put.1 }) else t.listeners p;
    })
    branch put.0 (pure tt) do
      set_cur (λ s. record s { close_reason = not_accepted; state = closed })
      addto_controllist

  unfoldable pub handle_syn_rcvd : Act (Unit {0})
  handle_syn_rcvd = do
    s ← cur
    branch g.ack
        (branch (not (g.ack_seq == add32 s.snd.iss 1)) (stop exited) do
          set_snd (λ d. record d {
            snd_una = add32 d.snd_una 1;
            cwnd = if d.cwnd == 1 then d.mss * 2 else d.mss;
            nrtx = 0;
          })
          set_cur (λ s. record s { snd_nxt = g.ack_seq; rcv_nxt = add32 s.rcv.irs 1 })
          remove_from_rto_list
          set_cur (λ s. record s { state = established })
          offer_accept
          add_to_timeout_list)
        (do set_cur (λ s. record s { snd_nxt = s.snd.iss }); addto_controllist)

  -- The payload and the acknowledgement as the handlers treat them.
  unfoldable pub take_payload : Act (Unit {0})
  take_payload =
      branch (pos32 (payloadlen g))
        (do
          ret ← process_payload e g
          branch (ret == 0) (enqueue_acklist now) (enqueue_acklist aggregate))
        (pure tt)

  unfoldable pub take_ack : Option SendBuffer → Act (Unit {0})
  take_ack none = pure tt
  take_ack (some b) = process_ack e.now g.syn g.seq g.ack_seq g.window (payloadlen g)

  -- Lines 731 to 751.
  unfoldable pub take_fin : Act (Unit {0})
  take_fin = do
    s ← cur
    branch g.fin
        (branch (add32 g.seq (payloadlen g) == s.rcv_nxt)
          (do
            set_cur (λ s. record s { state = close_wait; rcv_nxt = add32 s.rcv_nxt 1 })
            addto_controllist
            wake_reader e g s.s)
          (enqueue_acklist now))
        (pure tt)

  unfoldable pub handle_established : Act (Unit {0})
  handle_established =
      branch g.syn (do set_cur (λ s. record s { snd_nxt = g.ack_seq }); addto_controllist)
        (do take_payload; s ← cur; branch g.ack (take_ack s.snd.sndbuf) (pure tt); take_fin)

  -- Lines 773 to 796.
  unfoldable pub finish_last_ack : Act (Unit {0})
  finish_last_ack = do
    s ← cur
    branch (not s.snd.is_fin_sent) (pure tt) (
        branch (g.ack_seq == add32 s.snd.fss 1)
          (do
            set_snd (λ d. record d { snd_una = add32 d.snd_una 1 })
            update_retransmission_timer e.now
            set_cur (λ s. record s { state = closed; close_reason = passive_close })
            note_call (stream_destroy s.id))
          addto_controllist)

  unfoldable pub handle_last_ack : Act (Unit {0})
  handle_last_ack = do
    s ← cur
    branch (seq_lt g.seq s.rcv_nxt) (pure tt)
        (branch g.ack (do take_ack s.snd.sndbuf; finish_last_ack) addto_controllist)

  -- Lines 823 to 839.
  unfoldable pub note_fin_acked : Act (Unit {0})
  note_fin_acked = do
    s ← cur
    branch (s.snd.is_fin_sent && (g.ack_seq == add32 s.snd.fss 1))
        (do
          set_snd (λ d. record d { snd_una = g.ack_seq; nrtx = 0 })
          set_cur (λ s. record s {
            snd_nxt = if seq_gt g.ack_seq s.snd_nxt then g.ack_seq else s.snd_nxt;
          })
          remove_from_rto_list
          set_cur (λ s. record s { state = fin_wait_2 }))
        (pure tt)

  -- Lines 857 to 879.
  unfoldable pub take_fin_1 : Act (Unit {0})
  take_fin_1 = do
    s ← cur
    branch (g.fin && (add32 g.seq (payloadlen g) == s.rcv_nxt))
        (do
          set_cur (λ s. record s { rcv_nxt = add32 s.rcv_nxt 1 })
          branch (same_state s.state fin_wait_1) (set_cur (λ s. record s { state = closing })) (
              branch (same_state s.state fin_wait_2)
                (do set_cur (λ s. record s { state = time_wait }); add_to_timewait_list e.now)
                (stop assertion))
          addto_controllist)
        (pure tt)

  unfoldable pub handle_fin_wait_1 : Act (Unit {0})
  handle_fin_wait_1 = do
    s ← cur
    branch (seq_lt g.seq s.rcv_nxt) addto_controllist (
        branch g.ack (do take_ack s.snd.sndbuf; note_fin_acked; take_payload; take_fin_1) (pure tt))

  -- Lines 907 to 917.
  unfoldable pub take_fin_2 : Act (Unit {0})
  take_fin_2 = do
    s ← cur
    branch (g.fin && (add32 g.seq (payloadlen g) == s.rcv_nxt))
        (do
          set_cur (λ s. record s { state = time_wait; rcv_nxt = add32 s.rcv_nxt 1 })
          add_to_timewait_list e.now
          addto_controllist)
        (pure tt)

  unfoldable pub handle_fin_wait_2 : Act (Unit {0})
  handle_fin_wait_2 = do
    s ← cur
    branch g.ack (do take_ack s.snd.sndbuf; take_payload; take_fin_2) (pure tt)

  -- Lines 929 to 946.
  unfoldable pub finish_closing : Act (Unit {0})
  finish_closing = do
    s ← cur
    branch (not s.snd.is_fin_sent || not (g.ack_seq == add32 s.snd.fss 1)) (pure tt) do
      set_snd (λ d. record d { snd_una = g.ack_seq })
      set_cur (λ s. record s { snd_nxt = g.ack_seq })
      update_retransmission_timer e.now
      set_cur (λ s. record s { state = time_wait })
      add_to_timewait_list e.now

  unfoldable pub handle_closing : Act (Unit {0})
  handle_closing = do s ← cur; branch g.ack (do take_ack s.snd.sndbuf; finish_closing) (pure tt)
