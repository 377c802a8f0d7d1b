-- ===== src/States/Exclusive.antt =====
-- Whole segments of src/tcp.c keep the TIME_WAIT list and the retransmission store apart.
use cmt_tcp.Prelude.{ℕ, ◌≡◌, refl, ap, ◌∙◌, true, false, Option, none, some, arith}
use cmt_tcp.Run.{branch, pure, ◌>>=◌}
use cmt_tcp.Run.Keeps.{
  Triple, Keeps, Triple-weaken, Triple-strengthen, Triple-pure, Triple-read, Triple-branch,
  Triple-bind, keeps_rules,
}
use cmt_tcp.Stream.{
  State, closed, listen, syn_sent, syn_rcvd, established, close_wait, fin_wait_1, closing, last_ack,
  fin_wait_2, time_wait, same_state, Stream, Ctx, Act,
}
use cmt_tcp.States.Link.{
  Settled, Off, settle, waits_in, Link-off, Waiting, add_to_timewait_list-Waiting,
  addto_controllist-Settled, enqueue_acklist-Settled, update_timeout_list-Settled,
}
use cmt_tcp.States.Moves.{
  handle_listen-InState, handle_syn_sent-InState, handle_established-InState,
  handle_last_ack-InState,
}
use cmt_tcp.States.Segments.{in_syn_rcvd-InState}
use cmt_tcp.States.Settled.{
  handle_closing-Settled, handle_fin_wait_2-Settled, handle_fin_wait_1-Settled,
  in_time_wait-Settled,
}
use cmt_tcp.Segment.{Segment, Env}
use cmt_tcp.Receive.{
  refresh_timestamp, check_timestamp, answer_outside, validseq, reset_half_open, reset_open,
  process_rst,
}
use cmt_tcp.Process.{dispatch, run_handler, take_rst, handle, accept, find_stream, process}

module _ (e : Env) (g : Segment) where
  refresh_timestamp-Settled : (ts : Option (ℕ × ℕ)) → Keeps Settled (refresh_timestamp e g ts)
  unfolding refresh_timestamp
  refresh_timestamp-Settled none = search keeps_rules
  refresh_timestamp-Settled (some (v, r)) = search (keeps_rules, enqueue_acklist-Settled) depth 12

  check_timestamp-Settled : Keeps Settled (check_timestamp e g)
  unfolding check_timestamp
  check_timestamp-Settled = search (keeps_rules, refresh_timestamp-Settled) depth 12

  same-Waiting :
      (s : Stream)
      → same_state s.state time_wait ≡ true
      → (c : Ctx) → Settled c × (c.cur ≡ s)
      → Waiting c
  same-Waiting s w c h = (h.0, ground (arith, h.1))

  answer_outside-Settled : Keeps Settled (answer_outside e g)
  unfolding answer_outside
  answer_outside-Settled = Triple-read _ _ λ s.
      Triple-branch _ _ _ (λ _. Triple-pure tt (λ c h. h.0))
        (λ _.
          Triple-branch _ _ _
            (λ _.
              Triple-strengthen {R = Settled} (λ c h. h.0)
                (search (keeps_rules, enqueue_acklist-Settled) depth 12))
            (λ _.
              Triple-bind {R = Settled} _ _
                (Triple-branch _ _ _
                  (λ w.
                    Triple-strengthen {R = Waiting} (same-Waiting s w)
                      (Triple-weaken (λ c h. h.0) (add_to_timewait_list-Waiting e.now)))
                  (λ _. Triple-pure tt (λ c h. h.0)))
                (λ _. addto_controllist-Settled)))

  validseq-Settled : Keeps Settled (validseq e g)
  unfolding validseq
  validseq-Settled = search (keeps_rules, check_timestamp-Settled, answer_outside-Settled) depth 12

  process_rst-Settled : Keeps Settled (process_rst e g)
  unfolding process_rst reset_half_open reset_open ◌>>=◌
  process_rst-Settled = record { at = λ c h. ground arith }

  take_rst-Settled : Keeps Settled (take_rst e g)
  unfolding take_rst
  take_rst-Settled = search (keeps_rules, process_rst-Settled) depth 12

  Off-Settled : {A : Type 0} (m : Act A) → Keeps Off m → Triple Off m Settled
  Off-Settled m k = Triple-weaken settle k

  module _ (half : Triple Off (e.handle_close_wait g) Settled) where
    dispatch-Off : (st : State) → waits_in st ≡ false → Triple Off (dispatch e g st) Settled
    unfolding dispatch
    dispatch-Off closed w = cc
    dispatch-Off listen w = Off-Settled _ (handle_listen-InState _ e g (λ s b h. h))
    dispatch-Off syn_sent w =
        Off-Settled _ (handle_syn_sent-InState _ e g (λ s b h. h) (λ s b h. h) (λ s b h. h))
    dispatch-Off syn_rcvd w =
        Off-Settled _
          (in_syn_rcvd-InState _ e g (λ s b h. h) (λ s b h. h) (λ s b h. h) (λ s b h. h))
    dispatch-Off established w =
        Off-Settled _ (handle_established-InState _ e g (λ s b h. h) (λ s b h. h))
    dispatch-Off close_wait w = half
    dispatch-Off fin_wait_1 w = handle_fin_wait_1-Settled e g
    dispatch-Off closing w = handle_closing-Settled e g
    dispatch-Off last_ack w = Off-Settled _ (handle_last_ack-InState _ e g (λ s b h. h))
    dispatch-Off fin_wait_2 w = handle_fin_wait_2-Settled e g
    dispatch-Off time_wait w = cc

    Settled-Off :
        (st : State) → waits_in st ≡ false → (c : Ctx) → Settled c × (c.cur.state ≡ st) → Off c
    Settled-Off st w c h =
        Link-off c.cur.on_timewait_list c.cur.state c.cur.on_rto_idx h.0 (ap waits_in h.1 ∙ w)

    dispatch-Settled :
        (st : State) → Triple (λ c. Settled c × (c.cur.state ≡ st)) (dispatch e g st) Settled
    unfolding dispatch
    dispatch-Settled closed = Triple-pure tt (λ c h. h.0)
    dispatch-Settled time_wait = in_time_wait-Settled e g
    dispatch-Settled st = Triple-strengthen {R = Off} (Settled-Off st refl) (dispatch-Off st refl)

    run_handler-Settled : Keeps Settled (run_handler e g)
    unfolding run_handler
    run_handler-Settled = Triple-read _ _ λ s.
        Triple-bind {R = Settled} _ _
          (Triple-strengthen {R = λ c. Settled c × (c.cur.state ≡ s.state)}
            (λ c h. (h.0, ap (λ (x : Stream). x.state) h.1)) (dispatch-Settled s.state))
          (λ _. search keeps_rules)

    handle-Settled : Keeps Settled (handle e g)
    unfolding handle
    handle-Settled =
        search (keeps_rules, update_timeout_list-Settled, take_rst-Settled, run_handler-Settled)
          depth 12

    accept-Settled : Keeps Settled (accept e g)
    unfolding accept
    accept-Settled = search (keeps_rules, validseq-Settled, handle-Settled) depth 12

    found-Settled : Keeps Settled (find_stream e g true)
    unfolding find_stream pure branch
    found-Settled = record { at = λ c h. h }

    -- A segment of a stream that the flow table knows never leaves it on the TIME_WAIT list and in
    -- a retransmission slot at once, nor on that list in a state other than TIME_WAIT and CLOSED,
    -- where neither was so before; provided that the handler of CLOSE_WAIT does not lead there from
    -- a stream off the list, and unless it stops the process.
    pub process-Settled : Keeps Settled (process e g true)
    unfolding process
    process-Settled = search (keeps_rules, found-Settled, accept-Settled) depth 12
