-- ===== src/States/Moves.antt =====
-- Where the handlers of src/tcp.c take a stream: for any set `P` of states that has the states which
-- a handler assigns, the handler stays in it.
use cmt_tcp.Prelude.{Bool, true, Option, none, some}
use cmt_tcp.Run.Keeps.{Keeps, keeps_rules}
use cmt_tcp.Stream.{
  State, closed, syn_rcvd, established, close_wait, closing, fin_wait_2, time_wait, Socket,
  SendBuffer,
}
use cmt_tcp.States.{InState, Allows, Flags}
use cmt_tcp.States.Lists.{
  addto_controllist-InState, enqueue_acklist-InState, remove_from_rto_list-InState,
  add_to_timewait_list-InState, add_to_timeout_list-InState, update_retransmission_timer-InState,
}
use cmt_tcp.States.Ack.{process_ack-InState, wake_reader-InState, process_payload-InState}
use cmt_tcp.Segment.{Segment, Env}
use cmt_tcp.Connect.{read_options, active_open}
use cmt_tcp.Handlers.{
  handle_listen, refuse, establish_sent, lose_sent, settle_sent, handle_syn_sent, offer_accept,
  handle_syn_rcvd, take_payload, take_ack, take_fin, handle_established, finish_last_ack,
  handle_last_ack, note_fin_acked, take_fin_1, handle_fin_wait_1, take_fin_2, handle_fin_wait_2,
  finish_closing, handle_closing,
}

module _ (P : State → Bool → Type 0) (e : Env) (g : Segment) where
  pub handle_listen-InState : Allows P syn_rcvd → Keeps (InState P) (handle_listen e g)
  unfolding handle_listen
  handle_listen-InState rcvd = search (keeps_rules, addto_controllist-InState) depth 12

  read_options-InState : (ts : _) → Keeps (InState P) (read_options ts g)
  unfolding read_options
  read_options-InState ts = search keeps_rules depth 12

  active_open-InState : Keeps (InState P) (active_open e g)
  unfolding active_open
  active_open-InState =
      search (keeps_rules, read_options-InState, update_retransmission_timer-InState) depth 12

  refuse-InState : (k : Option Socket) → Keeps (InState P) (refuse e g k)
  unfolding refuse
  refuse-InState none = search keeps_rules depth 12
  refuse-InState (some k) = search keeps_rules

  establish_sent-InState : Allows P established → Keeps (InState P) (establish_sent e g)
  unfolding establish_sent
  establish_sent-InState estab =
      search
        (
          keeps_rules, active_open-InState, refuse-InState, remove_from_rto_list-InState,
          addto_controllist-InState, add_to_timeout_list-InState,
        )
        depth 16

  lose_sent-InState : (k : Option Socket) → Keeps (InState P) (lose_sent e g k)
  unfolding lose_sent
  lose_sent-InState none = search keeps_rules depth 12
  lose_sent-InState (some k) = search keeps_rules

  settle_sent-InState :
      Allows P established
      → Allows P close_wait
      → Allows P syn_rcvd
      → Keeps (InState P) (settle_sent e g)
  unfolding settle_sent
  settle_sent-InState estab wait rcvd =
      search (keeps_rules, establish_sent-InState, lose_sent-InState, addto_controllist-InState)
        depth 12

  pub handle_syn_sent-InState :
      Allows P established
      → Allows P close_wait
      → Allows P syn_rcvd
      → Keeps (InState P) (handle_syn_sent e g)
  unfolding handle_syn_sent
  handle_syn_sent-InState estab wait rcvd = search (keeps_rules, settle_sent-InState) depth 12

  offer_accept-InState : Allows P closed → Keeps (InState P) (offer_accept e g)
  unfolding offer_accept
  offer_accept-InState end = search (keeps_rules, addto_controllist-InState) depth 16

  pub handle_syn_rcvd-InState :
      Allows P established → Allows P closed → Keeps (InState P) (handle_syn_rcvd e g)
  unfolding handle_syn_rcvd
  handle_syn_rcvd-InState estab end =
      search
        (
          keeps_rules, offer_accept-InState, remove_from_rto_list-InState,
          addto_controllist-InState, add_to_timeout_list-InState,
        )
        depth 16

  pub take_payload-InState : Allows P closed → Keeps (InState P) (take_payload e g)
  unfolding take_payload
  take_payload-InState end =
      search (keeps_rules, process_payload-InState, enqueue_acklist-InState) depth 12

  pub take_ack-InState : (b : Option SendBuffer) → Keeps (InState P) (take_ack e g b)
  unfolding take_ack
  take_ack-InState none = search keeps_rules
  take_ack-InState (some b) = process_ack-InState P _ _ _ _ _ _

  take_fin-InState : Allows P close_wait → Keeps (InState P) (take_fin e g)
  unfolding take_fin
  take_fin-InState wait =
      search (keeps_rules, wake_reader-InState, addto_controllist-InState, enqueue_acklist-InState)
        depth 12

  pub handle_established-InState :
      Allows P close_wait → Allows P closed → Keeps (InState P) (handle_established e g)
  unfolding handle_established
  handle_established-InState wait end =
      search
        (
          keeps_rules, take_payload-InState, take_ack-InState, take_fin-InState,
          addto_controllist-InState,
        )
        depth 12

  finish_last_ack-InState : Allows P closed → Keeps (InState P) (finish_last_ack e g)
  unfolding finish_last_ack
  finish_last_ack-InState end =
      search (keeps_rules, addto_controllist-InState, update_retransmission_timer-InState) depth 12

  pub handle_last_ack-InState : Allows P closed → Keeps (InState P) (handle_last_ack e g)
  unfolding handle_last_ack
  handle_last_ack-InState end =
      search (keeps_rules, take_ack-InState, finish_last_ack-InState, addto_controllist-InState)
        depth 12

  pub note_fin_acked-InState : Allows P fin_wait_2 → Keeps (InState P) (note_fin_acked e g)
  unfolding note_fin_acked
  note_fin_acked-InState two = search (keeps_rules, remove_from_rto_list-InState) depth 12

  take_fin_1-InState :
      Flags P true → Allows P closing → Allows P time_wait → Keeps (InState P) (take_fin_1 e g)
  unfolding take_fin_1
  take_fin_1-InState waits both wait =
      search (keeps_rules, addto_controllist-InState, add_to_timewait_list-InState) depth 12

  pub handle_fin_wait_1-InState :
      Flags P true
      → Allows P fin_wait_2
      → Allows P closing
      → Allows P time_wait
      → Allows P closed
      → Keeps (InState P) (handle_fin_wait_1 e g)
  unfolding handle_fin_wait_1
  handle_fin_wait_1-InState waits two both wait end =
      search
        (
          keeps_rules, take_ack-InState, note_fin_acked-InState, take_payload-InState,
          take_fin_1-InState, addto_controllist-InState,
        )
        depth 12

  take_fin_2-InState : Flags P true → Allows P time_wait → Keeps (InState P) (take_fin_2 e g)
  unfolding take_fin_2
  take_fin_2-InState waits wait =
      search (keeps_rules, addto_controllist-InState, add_to_timewait_list-InState) depth 12

  pub handle_fin_wait_2-InState :
      Flags P true
      → Allows P time_wait
      → Allows P closed
      → Keeps (InState P) (handle_fin_wait_2 e g)
  unfolding handle_fin_wait_2
  handle_fin_wait_2-InState waits wait end =
      search (keeps_rules, take_ack-InState, take_payload-InState, take_fin_2-InState) depth 12

  finish_closing-InState :
      Flags P true → Allows P time_wait → Keeps (InState P) (finish_closing e g)
  unfolding finish_closing
  finish_closing-InState waits wait =
      search (keeps_rules, update_retransmission_timer-InState, add_to_timewait_list-InState) depth
        12

  pub handle_closing-InState :
      Flags P true → Allows P time_wait → Keeps (InState P) (handle_closing e g)
  unfolding handle_closing
  handle_closing-InState waits wait =
      search (keeps_rules, take_ack-InState, finish_closing-InState) depth 12
