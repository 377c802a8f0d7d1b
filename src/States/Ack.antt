-- ===== src/States/Ack.antt =====
-- Acknowledgements and payloads leave the state of the stream, but for a lack of memory.
use cmt_tcp.Prelude.{true, ℕ, Bool, Option, none, some}
use cmt_tcp.Run.Keeps.{Keeps, keeps_rules}
use cmt_tcp.Stream.{State, closed, Socket, RecvBuffer}
use cmt_tcp.States.{InState, Allows, Flags}
use cmt_tcp.States.Lists.{
  addto_controllist-InState, addto_sendlist-InState, remove_sendlist-InState,
  enqueue_acklist-InState, add_to_timewait_list-InState, update_retransmission_timer-InState,
}
use cmt_tcp.Ack.{
  the_sndbuf, update_window, recover, advance_snd_nxt, measure, grow_window, drop_acked, release,
  accept_ack, process_ack,
}
use cmt_tcp.Segment.{Segment, Env}
use cmt_tcp.Receive.{
  refresh_timestamp, check_timestamp, answer_outside, validseq, wake_reader, merge_payload,
  with_buffer, process_payload,
}

module _ (P : State → Bool → Type 0) where
  the_sndbuf-InState : Keeps (InState P) the_sndbuf
  unfolding the_sndbuf
  the_sndbuf-InState = search keeps_rules depth 12

  update_window-InState : (w seq ack : ℕ) → Keeps (InState P) (update_window w seq ack)
  unfolding update_window
  update_window-InState w seq ack = search keeps_rules depth 12

  recover-InState : (dup : Bool) (ack : ℕ) → Keeps (InState P) (recover dup ack)
  unfolding recover
  recover-InState dup ack = search (keeps_rules, addto_sendlist-InState) depth 12

  advance_snd_nxt-InState : (ack : ℕ) → Keeps (InState P) (advance_snd_nxt ack)
  unfolding advance_snd_nxt
  advance_snd_nxt-InState ack =
      search (keeps_rules, the_sndbuf-InState, remove_sendlist-InState) depth 12

  measure-InState : (ts : ℕ) → Keeps (InState P) (measure ts)
  unfolding measure
  measure-InState ts = search keeps_rules depth 12

  grow_window-InState : (packets : ℕ) → Keeps (InState P) (grow_window packets)
  unfolding grow_window
  grow_window-InState packets = search keeps_rules depth 12

  drop_acked-InState : (ts ack rmlen : ℕ) → Keeps (InState P) (drop_acked ts ack rmlen)
  unfolding drop_acked
  drop_acked-InState ts ack rmlen =
      search (keeps_rules, the_sndbuf-InState, update_retransmission_timer-InState) depth 12

  release-InState : (ts ack : ℕ) → Keeps (InState P) (release ts ack)
  unfolding release
  release-InState ts ack =
      search
        (keeps_rules, the_sndbuf-InState, measure-InState, grow_window-InState, drop_acked-InState)
        depth 12

  accept_ack-InState :
      (ts w edge seq ack len : ℕ) → Keeps (InState P) (accept_ack ts w edge seq ack len)
  unfolding accept_ack
  accept_ack-InState ts w edge seq ack len =
      search
        (
          keeps_rules, update_window-InState, recover-InState, advance_snd_nxt-InState,
          release-InState,
        )
        depth 12

  pub process_ack-InState :
      (ts : ℕ) (syn : Bool) (seq ack window len : ℕ)
      → Keeps (InState P) (process_ack ts syn seq ack window len)
  unfolding process_ack
  process_ack-InState ts syn seq ack window len =
      search (keeps_rules, the_sndbuf-InState, accept_ack-InState) depth 12

  module _ (e : Env) (g : Segment) where
    refresh_timestamp-InState : (ts : Option (ℕ × ℕ)) → Keeps (InState P) (refresh_timestamp e g ts)
    unfolding refresh_timestamp
    refresh_timestamp-InState none = search keeps_rules
    refresh_timestamp-InState (some (v, r)) = search (keeps_rules, enqueue_acklist-InState) depth 12

    check_timestamp-InState : Keeps (InState P) (check_timestamp e g)
    unfolding check_timestamp
    check_timestamp-InState = search (keeps_rules, refresh_timestamp-InState) depth 12

    answer_outside-InState : Flags P true → Keeps (InState P) (answer_outside e g)
    unfolding answer_outside
    answer_outside-InState waits =
        search
          (
            keeps_rules, enqueue_acklist-InState, addto_controllist-InState,
            add_to_timewait_list-InState,
          )
          depth 12

    pub validseq-InState : Flags P true → Keeps (InState P) (validseq e g)
    unfolding validseq
    validseq-InState waits =
        search (keeps_rules, check_timestamp-InState, answer_outside-InState) depth 12

    pub wake_reader-InState : (k : Option Socket) → Keeps (InState P) (wake_reader e g k)
    unfolding wake_reader
    wake_reader-InState none = search keeps_rules
    wake_reader-InState (some k) = search keeps_rules depth 12

    merge_payload-InState : (b : RecvBuffer) → Keeps (InState P) (merge_payload e g b)
    unfolding merge_payload
    merge_payload-InState b = search (keeps_rules, wake_reader-InState) depth 12

    with_buffer-InState :
        Allows P closed → (b made : Option RecvBuffer) → Keeps (InState P) (with_buffer e g b made)
    unfolding with_buffer
    with_buffer-InState end (some b) made = merge_payload-InState b
    with_buffer-InState end none (some b) = merge_payload-InState b
    with_buffer-InState end none none = search keeps_rules depth 12

    pub process_payload-InState : Allows P closed → Keeps (InState P) (process_payload e g)
    unfolding process_payload
    process_payload-InState end = search (keeps_rules, with_buffer-InState) depth 12
