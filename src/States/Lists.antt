-- ===== src/States/Lists.antt =====
-- Filing a stream does not change its state.
use cmt_tcp.Prelude.{Bool, true, false, ℕ, arith}
use cmt_tcp.Run.Keeps.{Keeps, keeps_rules}
use cmt_tcp.Stream.{State}
use cmt_tcp.States.{InState, Flags}
use cmt_tcp.SendLists.{addto_acklist, addto_controllist, addto_sendlist, remove_sendlist}
use cmt_tcp.Timer.{
  requeue_timewait, enter_timewait, add_to_rto_list, remove_from_rto_list, add_to_timewait_list,
  remove_from_timewait_list, add_to_timeout_list, update_timeout_list, update_retransmission_timer,
}
use cmt_tcp.Ack.{AckOpt, enqueue_acklist}

module _ (P : State → Bool → Type 0) where
  pub addto_acklist-InState : Keeps (InState P) addto_acklist
  unfolding addto_acklist
  addto_acklist-InState = record { at = λ c h. ground arith }

  pub addto_controllist-InState : Keeps (InState P) addto_controllist
  unfolding addto_controllist
  addto_controllist-InState = record { at = λ c h. ground arith }

  pub addto_sendlist-InState : Keeps (InState P) addto_sendlist
  unfolding addto_sendlist
  addto_sendlist-InState = record { at = λ c h. ground arith }

  pub remove_sendlist-InState : Keeps (InState P) remove_sendlist
  unfolding remove_sendlist
  remove_sendlist-InState = record { at = λ c h. ground arith }

  pub enqueue_acklist-InState : (opt : AckOpt) → Keeps (InState P) (enqueue_acklist opt)
  unfolding enqueue_acklist
  enqueue_acklist-InState opt = search (keeps_rules, addto_acklist-InState) depth 12

  pub remove_from_rto_list-InState : Keeps (InState P) remove_from_rto_list
  unfolding remove_from_rto_list
  remove_from_rto_list-InState = record { at = λ c h. ground arith }

  pub add_to_rto_list-InState : Keeps (InState P) add_to_rto_list
  unfolding add_to_rto_list
  add_to_rto_list-InState = record { at = λ c h. ground arith }

  requeue_timewait-InState : (id : ℕ) → Keeps (InState P) (requeue_timewait id)
  unfolding requeue_timewait
  requeue_timewait-InState id = record { at = λ c h. h }

  enter_timewait-InState : Flags P true → Keeps (InState P) enter_timewait
  unfolding enter_timewait
  enter_timewait-InState waits = record { at = λ c h. waits c.cur.state c.cur.on_timewait_list h }

  pub add_to_timewait_list-InState :
      Flags P true → (ts : ℕ) → Keeps (InState P) (add_to_timewait_list ts)
  unfolding add_to_timewait_list
  add_to_timewait_list-InState waits ts =
      search
        (
          keeps_rules, requeue_timewait-InState, remove_from_rto_list-InState,
          enter_timewait-InState,
        )
        depth 12

  pub remove_from_timewait_list-InState :
      Flags P false → Keeps (InState P) remove_from_timewait_list
  unfolding remove_from_timewait_list
  remove_from_timewait_list-InState leaves = record {
    at = λ c h. ground (arith, leaves c.cur.state c.cur.on_timewait_list);
  }

  pub add_to_timeout_list-InState : Keeps (InState P) add_to_timeout_list
  unfolding add_to_timeout_list
  add_to_timeout_list-InState = record { at = λ c h. ground arith }

  pub update_timeout_list-InState : Keeps (InState P) update_timeout_list
  unfolding update_timeout_list
  update_timeout_list-InState = record { at = λ c h. ground arith }

  pub update_retransmission_timer-InState :
      (ts : ℕ) → Keeps (InState P) (update_retransmission_timer ts)
  unfolding update_retransmission_timer
  update_retransmission_timer-InState ts =
      search (keeps_rules, remove_from_rto_list-InState, add_to_rto_list-InState) depth 12
