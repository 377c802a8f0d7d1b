-- ===== src/Process/Filing.antt =====
-- A whole segment keeps the lists and the flags of its stream together.
use cmt_tcp.Prelude.{◌-◌, ◌^◌, Bool, true, false, not}
use cmt_tcp.Run.{branch, pure, assertion}
use cmt_tcp.Run.Keeps.{
  Triple, Keeps, Triple-pure, Triple-stop, Triple-branch, Triple-bind, keeps_rules,
}
use cmt_tcp.Filed.{IsFiled}
use cmt_tcp.SendLists.Listed.{addto_controllist-IsFiled}
use cmt_tcp.Timer.Lists.{
  add_to_timewait_list-IsFiled, remove_from_timewait_list-IsFiled, update_timeout_list-IsFiled,
}
use cmt_tcp.Receive.Filing.{validseq-IsFiled, process_rst-IsFiled}
use cmt_tcp.Handlers.Filing.{
  handle_listen-IsFiled, handle_syn_sent-IsFiled, handle_syn_rcvd-IsFiled,
  handle_established-IsFiled, handle_last_ack-IsFiled, handle_fin_wait_1-IsFiled,
  handle_fin_wait_2-IsFiled, handle_closing-IsFiled,
}
use cmt_tcp.Stream.{
  State, closed, listen, syn_sent, syn_rcvd, established, close_wait, fin_wait_1, closing, last_ack,
  fin_wait_2, time_wait, Ctx,
}
use cmt_tcp.Connect.Created.{Finds, create_stream-IsFiled}
use cmt_tcp.Segment.{Segment, Env}
use cmt_tcp.Process.{
  in_syn_rcvd, in_time_wait, find_stream, dispatch, run_handler, take_rst, handle, accept, process,
}

module _ (e : Env) (g : Segment) where
  in_syn_rcvd-IsFiled : Keeps IsFiled (in_syn_rcvd e g)
  unfolding in_syn_rcvd
  in_syn_rcvd-IsFiled =
      search
        (keeps_rules, handle_listen-IsFiled, handle_syn_rcvd-IsFiled, handle_established-IsFiled)
        depth 12

  in_time_wait-IsFiled : Keeps IsFiled (in_time_wait e g)
  unfolding in_time_wait
  in_time_wait-IsFiled =
      search
        (
          keeps_rules, addto_controllist-IsFiled, add_to_timewait_list-IsFiled,
          remove_from_timewait_list-IsFiled,
        )
        depth 12

  take_rst-IsFiled : Keeps IsFiled (take_rst e g)
  unfolding take_rst
  take_rst-IsFiled = search (keeps_rules, process_rst-IsFiled) depth 12

  find_stream-IsFiled : (found : Bool) → Triple (Finds e found) (find_stream e g found) IsFiled
  unfolding find_stream branch
  find_stream-IsFiled true = Triple-pure true (λ c h. h)
  find_stream-IsFiled false = create_stream-IsFiled e g

  Finds-IsFiled : (found : Bool) (c : Ctx) → Finds e found c → IsFiled c
  Finds-IsFiled true c h = h
  Finds-IsFiled false c h = h.0

  module _ (close_wait_kept : Keeps IsFiled (e.handle_close_wait g)) where
    dispatch-IsFiled : (st : State) → Keeps IsFiled (dispatch e g st)
    unfolding dispatch
    dispatch-IsFiled closed = search keeps_rules
    dispatch-IsFiled listen = handle_listen-IsFiled e g
    dispatch-IsFiled syn_sent = handle_syn_sent-IsFiled e g
    dispatch-IsFiled syn_rcvd = in_syn_rcvd-IsFiled
    dispatch-IsFiled established = handle_established-IsFiled e g
    dispatch-IsFiled close_wait = close_wait_kept
    dispatch-IsFiled fin_wait_1 = handle_fin_wait_1-IsFiled e g
    dispatch-IsFiled closing = handle_closing-IsFiled e g
    dispatch-IsFiled last_ack = handle_last_ack-IsFiled e g
    dispatch-IsFiled fin_wait_2 = handle_fin_wait_2-IsFiled e g
    dispatch-IsFiled time_wait = in_time_wait-IsFiled

    run_handler-IsFiled : Keeps IsFiled (run_handler e g)
    unfolding run_handler
    run_handler-IsFiled = search (keeps_rules, dispatch-IsFiled) depth 12

    handle-IsFiled : Keeps IsFiled (handle e g)
    unfolding handle
    handle-IsFiled =
        search (keeps_rules, update_timeout_list-IsFiled, take_rst-IsFiled, run_handler-IsFiled)
          depth 12

    pub accept-IsFiled : Keeps IsFiled (accept e g)
    unfolding accept
    accept-IsFiled = search (keeps_rules, validseq-IsFiled, handle-IsFiled) depth 12

    known_or_not-IsFiled :
        (known : Bool) → Keeps IsFiled (branch (not known) (pure (2 ^ 32 - 2)) (accept e g))
    known_or_not-IsFiled known = search (keeps_rules, accept-IsFiled) depth 12

    -- A segment keeps its stream filed, in whatever state it is, provided that the handler of
    -- CLOSE_WAIT does so, and unless it stops the process: each flag agrees with its list. Where
    -- the flow table does not know the stream, one that is created is filed too, provided that the
    -- chunks it is made of have no flag set without their standing in that list.
    pub process-IsFiled : (found : Bool) → Triple (Finds e found) (process e g found) IsFiled
    unfolding process
    process-IsFiled found =
        Triple-branch _ _ _ (λ bad. Triple-stop assertion)
          (λ good.
            Triple-branch _ _ _ (λ wrong. Triple-pure _ (Finds-IsFiled found))
              (λ right. Triple-bind _ _ (find_stream-IsFiled found) known_or_not-IsFiled))
