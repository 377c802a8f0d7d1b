-- ===== src/Receive.antt =====
-- What src/tcp.c does with an arriving segment before its state's handler: `cmt_tcp_validseq`,
-- `cmt_tcp_process_payload` and `cmt_tcp_process_rst`. An `int` result is a number, -1 its pattern.
pub mod Filing
use cmt_tcp.Prelude.{
  ℕ, ◌+◌, ◌-◌, ◌*◌, ◌%◌, ◌^◌, Bool, true, false, not, ◌&&◌, ◌||◌, Option, none, some, leb, ◌==◌,
  if◌then◌else◌, add32, sub32,
}
use cmt_tcp.Run.{Run, pure, stop, null_pointer, diverges, deref, branch, gets, modify, ◌>>=◌, ◌>>◌}
use cmt_tcp.Seq.{seq_lt, seq_leq, seq_gt, seq_between}
use cmt_tcp.Stream.{
  State, closed, syn_sent, syn_rcvd, established, close_wait, fin_wait_1, closing, last_ack,
  fin_wait_2, time_wait, active_close, reset, no_mem, rank, same_state, Socket, RecvBuffer, Stream,
  Ctx, Act, stream_destroy, flush_read_event, cur, set_cur, set_rcv, note_call,
}
use cmt_tcp.Options.{parse_timestamp}
use cmt_tcp.SendLists.{addto_controllist}
use cmt_tcp.Timer.{add_to_timewait_list}
use cmt_tcp.Ack.{AckOpt, now, aggregate, enqueue_acklist}
use cmt_tcp.Retransmit.{minus_one}
use cmt_tcp.Segment.{Segment, Env, payloadlen, option_len}

module _ (e : Env) (g : Segment) where
  -- Lines 446 to 459; `false` where no timestamp was found.
  unfoldable pub refresh_timestamp : Option (ℕ × ℕ) → Act Bool
  refresh_timestamp none = pure false
  refresh_timestamp (some (ts_val, ts_ref)) = do
    s ← cur
    branch (seq_lt ts_val s.rcv.ts_recent) (enqueue_acklist now) (
        set_rcv (λ r. record r {
          ts_last_ts_upd = if seq_gt ts_val r.ts_recent then e.now else r.ts_last_ts_upd;
          ts_recent = ts_val;
          ts_lastack_rcvd = ts_ref;
        }))
    pure true

  -- Lines 438 to 460. Each round goes on by a byte, so that the fuel is enough.
  unfoldable pub check_timestamp : Act Bool
  check_timestamp = do
    s ← cur
    branch (not g.rst && s.saw_timestamp)
        (do
          ts ← deref diverges (parse_timestamp g.option_byte (option_len g) (option_len g + 1) 0)
          refresh_timestamp ts)
        (pure true)

  -- Lines 464 to 490, for a segment that ends outside the window.
  unfoldable pub answer_outside : Act (Unit {0})
  answer_outside = do
    s ← cur
    branch g.rst (pure tt) (
        branch (same_state s.state established)
          (branch (add32 g.seq 1 == s.rcv_nxt) (enqueue_acklist aggregate)
            (branch (seq_leq g.seq s.rcv_nxt) (enqueue_acklist aggregate) (enqueue_acklist now)))
          (do
            branch (same_state s.state time_wait) (add_to_timewait_list e.now) (pure tt)
            addto_controllist))

  unfoldable pub validseq : Act Bool
  validseq = do
    stamped ← check_timestamp
    branch (not stamped) (pure false) do
      s ← cur
      branch (seq_between (add32 g.seq (payloadlen g)) s.rcv_nxt (add32 s.rcv_nxt s.rcv.rcv_wnd))
          (pure true) (do answer_outside; pure false)

  -- `cmt_tcp_flush_read_event` where the stream's socket blocks.
  unfoldable pub wake_reader : Option Socket → Act (Unit {0})
  wake_reader none = pure tt
  wake_reader (some k) = do s ← cur; branch k.nonblock (pure tt) (note_call (flush_read_event s.id))

  -- Lines 1042 to 1070, with the receive buffer.
  unfoldable pub merge_payload : RecvBuffer → Act ℕ
  merge_payload b = do
    s ← cur
    let put = e.recv_put b g.payload (payloadlen g) g.seq
    let kept =
        if same_state s.state fin_wait_1 || same_state s.state fin_wait_2
        then e.recv_remove put put.merged_len
        else put
    set_cur (λ s. record s { rcv_nxt = add32 kept.head_seq kept.merged_len })
    set_rcv (λ r. record r { rcvbuf = some kept; rcv_wnd = sub32 kept.size kept.cum_len })
    branch (same_state s.state established) (wake_reader s.s) (pure tt)
    pure 1

  -- Lines 1026 to 1040: the buffer there is, or the one that `recv_get` makes.
  unfoldable pub with_buffer : Option RecvBuffer → Option RecvBuffer → Act ℕ
  with_buffer (some b) made = merge_payload b
  with_buffer none (some b) = merge_payload b
  with_buffer none none = do
    set_cur (λ s. record s { state = closed; close_reason = no_mem })
    pure minus_one

  unfoldable pub process_payload : Act ℕ
  process_payload = do
    s ← cur
    branch
        (seq_lt (add32 g.seq (payloadlen g)) s.rcv_nxt
          || seq_gt (add32 g.seq (payloadlen g)) (add32 s.rcv_nxt s.rcv.rcv_wnd))
        (pure 0) (with_buffer s.rcv.rcvbuf (e.recv_get (add32 s.rcv.irs 1)))

  -- Lines 1081 to 1088.
  unfoldable pub reset_half_open : Act (Unit {0})
  reset_half_open = do
    s ← cur
    branch (g.ack_seq == s.snd_nxt)
        (do
          set_cur (λ s. record s { state = closed; close_reason = reset })
          note_call (stream_destroy s.id))
        (pure tt)

  -- Lines 1090 to 1115.
  unfoldable pub reset_open : Act (Unit {0})
  reset_open = do
    s ← cur
    branch
        (same_state s.state fin_wait_1
          || same_state s.state fin_wait_2
          || same_state s.state last_ack
          || same_state s.state closing
          || same_state s.state time_wait)
        (do
          set_cur (λ s. record s { state = closed; close_reason = active_close })
          note_call (stream_destroy s.id))
        (branch (s.snd.on_closeq || s.snd.on_closeq_int || s.snd.on_resetq || s.snd.on_resetq_int)
          (pure tt) (set_cur (λ s. record s { state = close_wait; close_reason = reset })))

  unfoldable pub process_rst : Act ℕ
  process_rst = do
    s ← cur
    branch (leb (rank s.state) (rank syn_sent)) (pure 0)
        do branch (same_state s.state syn_rcvd) reset_half_open reset_open; pure 1
