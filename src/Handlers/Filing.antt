-- ===== src/Handlers/Filing.antt =====
-- Every handler keeps the lists and the flags of the stream together.
use cmt_tcp.Prelude.{Option, none, some}
use cmt_tcp.Run.Keeps.{Keeps, keeps_rules}
use cmt_tcp.Filed.{IsFiled}
use cmt_tcp.SendLists.Listed.{addto_controllist-IsFiled}
use cmt_tcp.Timer.Lists.{
  remove_from_rto_list-Keeps, add_to_timewait_list-IsFiled, add_to_timeout_list-IsFiled,
  update_retransmission_timer-IsFiled,
}
use cmt_tcp.Ack.Filing.{enqueue_acklist-IsFiled, process_ack-IsFiled}
use cmt_tcp.Connect.Filing.{active_open-IsFiled}
use cmt_tcp.Receive.Filing.{wake_reader-IsFiled, process_payload-IsFiled}
use cmt_tcp.Stream.{Socket, SendBuffer}
use cmt_tcp.Segment.{Segment, Env}
use cmt_tcp.Handlers.{
  handle_listen, refuse, establish_sent, lose_sent, settle_sent, handle_syn_sent, offer_accept,
  handle_syn_rcvd, take_payload, take_ack, take_fin, handle_established, finish_last_ack,
  handle_last_ack, note_fin_acked, take_fin_1, handle_fin_wait_1, take_fin_2, handle_fin_wait_2,
  finish_closing, handle_closing,
}

pub ruleset handler_leaves = (
  keeps_rules, addto_controllist-IsFiled, remove_from_rto_list-Keeps, add_to_timewait_list-IsFiled,
  add_to_timeout_list-IsFiled, update_retransmission_timer-IsFiled, enqueue_acklist-IsFiled,
)

module _ (e : Env) (g : Segment) where
  pub handle_listen-IsFiled : Keeps IsFiled (handle_listen e g)
  unfolding handle_listen
  handle_listen-IsFiled = search handler_leaves depth 12

  refuse-IsFiled : (k : Option Socket) → Keeps IsFiled (refuse e g k)
  unfolding refuse
  refuse-IsFiled none = search keeps_rules depth 12
  refuse-IsFiled (some k) = search keeps_rules

  establish_sent-IsFiled : Keeps IsFiled (establish_sent e g)
  unfolding establish_sent
  establish_sent-IsFiled = search (handler_leaves, active_open-IsFiled, refuse-IsFiled) depth 16

  lose_sent-IsFiled : (k : Option Socket) → Keeps IsFiled (lose_sent e g k)
  unfolding lose_sent
  lose_sent-IsFiled none = search keeps_rules depth 12
  lose_sent-IsFiled (some k) = search keeps_rules

  settle_sent-IsFiled : Keeps IsFiled (settle_sent e g)
  unfolding settle_sent
  settle_sent-IsFiled = search (handler_leaves, establish_sent-IsFiled, lose_sent-IsFiled) depth 12

  pub handle_syn_sent-IsFiled : Keeps IsFiled (handle_syn_sent e g)
  unfolding handle_syn_sent
  handle_syn_sent-IsFiled = search (handler_leaves, settle_sent-IsFiled) depth 12

  offer_accept-IsFiled : Keeps IsFiled (offer_accept e g)
  unfolding offer_accept
  offer_accept-IsFiled = search handler_leaves depth 16

  pub handle_syn_rcvd-IsFiled : Keeps IsFiled (handle_syn_rcvd e g)
  unfolding handle_syn_rcvd
  handle_syn_rcvd-IsFiled = search (handler_leaves, offer_accept-IsFiled) depth 16

  take_payload-IsFiled : Keeps IsFiled (take_payload e g)
  unfolding take_payload
  take_payload-IsFiled = search (handler_leaves, process_payload-IsFiled) depth 12

  take_ack-IsFiled : (b : Option SendBuffer) → Keeps IsFiled (take_ack e g b)
  unfolding take_ack
  take_ack-IsFiled none = search keeps_rules
  take_ack-IsFiled (some b) = process_ack-IsFiled _ _ _ _ _ _

  take_fin-IsFiled : Keeps IsFiled (take_fin e g)
  unfolding take_fin
  take_fin-IsFiled = search (handler_leaves, wake_reader-IsFiled) depth 12

  pub handle_established-IsFiled : Keeps IsFiled (handle_established e g)
  unfolding handle_established
  handle_established-IsFiled =
      search (handler_leaves, take_payload-IsFiled, take_ack-IsFiled, take_fin-IsFiled) depth 12

  finish_last_ack-IsFiled : Keeps IsFiled (finish_last_ack e g)
  unfolding finish_last_ack
  finish_last_ack-IsFiled = search handler_leaves depth 12

  pub handle_last_ack-IsFiled : Keeps IsFiled (handle_last_ack e g)
  unfolding handle_last_ack
  handle_last_ack-IsFiled =
      search (handler_leaves, take_ack-IsFiled, finish_last_ack-IsFiled) depth 12

  note_fin_acked-IsFiled : Keeps IsFiled (note_fin_acked e g)
  unfolding note_fin_acked
  note_fin_acked-IsFiled = search handler_leaves depth 12

  take_fin_1-IsFiled : Keeps IsFiled (take_fin_1 e g)
  unfolding take_fin_1
  take_fin_1-IsFiled = search handler_leaves depth 12

  pub handle_fin_wait_1-IsFiled : Keeps IsFiled (handle_fin_wait_1 e g)
  unfolding handle_fin_wait_1
  handle_fin_wait_1-IsFiled =
      search
        (
          handler_leaves, take_ack-IsFiled, note_fin_acked-IsFiled, take_payload-IsFiled,
          take_fin_1-IsFiled,
        )
        depth 12

  take_fin_2-IsFiled : Keeps IsFiled (take_fin_2 e g)
  unfolding take_fin_2
  take_fin_2-IsFiled = search handler_leaves depth 12

  pub handle_fin_wait_2-IsFiled : Keeps IsFiled (handle_fin_wait_2 e g)
  unfolding handle_fin_wait_2
  handle_fin_wait_2-IsFiled =
      search (handler_leaves, take_ack-IsFiled, take_payload-IsFiled, take_fin_2-IsFiled) depth 12

  finish_closing-IsFiled : Keeps IsFiled (finish_closing e g)
  unfolding finish_closing
  finish_closing-IsFiled = search handler_leaves depth 12

  pub handle_closing-IsFiled : Keeps IsFiled (handle_closing e g)
  unfolding handle_closing
  handle_closing-IsFiled =
      search (handler_leaves, take_ack-IsFiled, finish_closing-IsFiled) depth 12
