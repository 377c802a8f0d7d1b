-- ===== src/States/Segments.antt =====
-- Where a segment takes a stream.
use cmt_tcp.Prelude.{ℕ, ◌≡◌, refl, sym, ap, ◌∙◌, Bool, true, false, ◌||◌, arith}
use cmt_tcp.Run.{pure, branch, ◌>>=◌}
use cmt_tcp.Run.Keeps.{
  Returns, Triple, Keeps, Ends-always, Triple-pure, Triple-read, Triple-bind, keeps_rules,
}
use cmt_tcp.Stream.{
  State, closed, listen, syn_sent, syn_rcvd, established, close_wait, fin_wait_1, closing, last_ack,
  fin_wait_2, time_wait, same_state, Stream, Ctx,
}
use cmt_tcp.States.{may_follow, InState, Allows, Flags}
use cmt_tcp.States.Lists.{
  addto_controllist-InState, add_to_timewait_list-InState, remove_from_timewait_list-InState,
  update_timeout_list-InState,
}
use cmt_tcp.States.Ack.{validseq-InState}
use cmt_tcp.States.Moves.{
  handle_listen-InState, handle_syn_sent-InState, handle_syn_rcvd-InState,
  handle_established-InState, handle_last_ack-InState, handle_fin_wait_1-InState,
  handle_fin_wait_2-InState, handle_closing-InState,
}
use cmt_tcp.Segment.{Segment, Env}
use cmt_tcp.Receive.{process_rst, reset_half_open, reset_open}
use cmt_tcp.Process.{
  in_syn_rcvd, in_time_wait, dispatch, run_handler, take_rst, handle, accept, find_stream, process,
}

module _ (P : State → Bool → Type 0) (e : Env) (g : Segment) where
  pub in_syn_rcvd-InState :
      Allows P syn_rcvd
      → Allows P established
      → Allows P close_wait
      → Allows P closed
      → Keeps (InState P) (in_syn_rcvd e g)
  unfolding in_syn_rcvd
  in_syn_rcvd-InState rcvd estab wait end =
      search
        (keeps_rules, handle_listen-InState, handle_syn_rcvd-InState, handle_established-InState)
        depth 12

  in_time_wait-InState : Flags P true → Flags P false → Keeps (InState P) (in_time_wait e g)
  unfolding in_time_wait
  in_time_wait-InState waits leaves =
      search
        (
          keeps_rules, addto_controllist-InState, add_to_timewait_list-InState,
          remove_from_timewait_list-InState,
        )
        depth 12

may_follow_refl : (st : State) → may_follow st st ≡ true
may_follow_refl closed = refl
may_follow_refl listen = refl
may_follow_refl syn_sent = refl
may_follow_refl syn_rcvd = refl
may_follow_refl established = refl
may_follow_refl close_wait = refl
may_follow_refl fin_wait_1 = refl
may_follow_refl closing = refl
may_follow_refl last_ack = refl
may_follow_refl fin_wait_2 = refl
may_follow_refl time_wait = refl

stays : (st t : State) → t ≡ st → may_follow st t ≡ true
stays st t h = ap (may_follow st) h ∙ may_follow_refl st

-- The state stays or is one that the table gives.
abbrev pub Follows : State → State → Bool → Type 0
Follows st t b = may_follow st t ≡ true

module _ (e : Env) (g : Segment) where
  dispatch-Follows : (st : State) → Keeps (InState (Follows st)) (dispatch e g st)
  unfolding dispatch
  dispatch-Follows closed = search keeps_rules
  dispatch-Follows listen = handle_listen-InState (Follows listen) e g (λ s b h. refl)
  dispatch-Follows syn_sent =
      handle_syn_sent-InState (Follows syn_sent) e g (λ s b h. refl) (λ s b h. refl) (λ s b h. refl)
  dispatch-Follows syn_rcvd =
      in_syn_rcvd-InState (Follows syn_rcvd) e g (λ s b h. refl) (λ s b h. refl) (λ s b h. refl)
        (λ s b h. refl)
  dispatch-Follows established =
      handle_established-InState (Follows established) e g (λ s b h. refl) (λ s b h. refl)
  dispatch-Follows close_wait = record { at = λ c h. Ends-always _ (λ s. refl) }
  dispatch-Follows fin_wait_1 =
      handle_fin_wait_1-InState (Follows fin_wait_1) e g (λ s b h. h) (λ s b h. refl)
        (λ s b h. refl) (λ s b h. refl) (λ s b h. refl)
  dispatch-Follows closing =
      handle_closing-InState (Follows closing) e g (λ s b h. h) (λ s b h. refl)
  dispatch-Follows last_ack = handle_last_ack-InState (Follows last_ack) e g (λ s b h. refl)
  dispatch-Follows fin_wait_2 =
      handle_fin_wait_2-InState (Follows fin_wait_2) e g (λ s b h. h) (λ s b h. refl)
        (λ s b h. refl)
  dispatch-Follows time_wait =
      in_time_wait-InState (Follows time_wait) e g (λ s b h. h) (λ s b h. h)

  module _ (st : State) where
    run_handler-Follows : Triple (InState (λ t b. t ≡ st)) (run_handler e g) (InState (Follows st))
    unfolding run_handler
    run_handler-Follows = Triple-read _ _ λ s.
        Triple-bind {R = InState (Follows st)} _ _
          (record {
            at = λ c h.
                let same : s.state ≡ st = ap (λ (x : Stream). x.state) (sym h.1) ∙ h.0 in
                rw same ((dispatch-Follows st).at c (stays st c.cur.state h.0));
          })
          (λ _. search keeps_rules)

    module _ (no_rst : g.rst ≡ false) where
      unmoved : Keeps (InState (λ t b. t ≡ st)) (take_rst e g)
      unfolding take_rst branch pure
      unmoved = rw no_rst (search keeps_rules)

      unflagged : Flags (λ t b. t ≡ st) true
      unflagged s b h = h

      returned : (n : ℕ) → Triple (InState (λ t b. t ≡ st)) (pure n) (InState (Follows st))
      returned n = Triple-pure n (λ c h. stays st c.cur.state h)

      handle-Follows : Triple (InState (λ t b. t ≡ st)) (handle e g) (InState (Follows st))
      unfolding handle
      handle-Follows =
          search (keeps_rules, update_timeout_list-InState, unmoved, returned, run_handler-Follows)
            depth 12

      accept-Follows : Triple (InState (λ t b. t ≡ st)) (accept e g) (InState (Follows st))
      unfolding accept
      accept-Follows =
          search (keeps_rules, validseq-InState, unflagged, returned, handle-Follows) depth 12

      found-same : Keeps (InState (λ t b. t ≡ st)) (find_stream e g true)
      unfolding find_stream pure branch
      found-same = record { at = λ c h. h }

      -- A segment without RST takes a stream that the flow table knows from its state to one that
      -- the table of the state machine gives for it, or leaves it there, unless it stops the process.
      pub process-Follows :
          Triple (InState (λ t b. t ≡ st)) (process e g true) (InState (Follows st))
      unfolding process
      process-Follows = search (keeps_rules, found-same, returned, accept-Follows) depth 12

-- What a reset may do to a stream: one being closed is closed, an open one half-closed, and one
-- that the peer has closed stays.
abbrev pub may_reset : State → State → Bool
may_reset closed t = same_state t closed
may_reset listen t = same_state t listen
may_reset syn_sent t = same_state t syn_sent
may_reset syn_rcvd t = same_state t syn_rcvd || same_state t closed
may_reset established t = same_state t established || same_state t close_wait
may_reset close_wait t = same_state t close_wait
may_reset st t = same_state t closed

module _ (e : Env) (g : Segment) where
  -- The handling of RST keeps CLOSED, LISTEN and SYN_SENT; closes a stream in SYN_RCVD or keeps it;
  -- half-closes an established one or keeps it; keeps CLOSE_WAIT; and closes a stream in every
  -- other state.
  pub process_rst-may_reset :
      (c : Ctx) → Returns (λ d. may_reset c.cur.state d.cur.state ≡ true) (process_rst e g c)
  unfolding process_rst reset_half_open reset_open ◌>>=◌
  process_rst-may_reset c = ground arith
