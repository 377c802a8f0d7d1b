-- ===== src/States/Link.antt =====
-- The TIME_WAIT list and the retransmission store share the link `timer_link` of a stream, which
-- hangs in one of them at most. Flags and states of src/tcp.c and src/timer.c.
use cmt_tcp.Prelude.{ℕ, ◌≡◌, Bool, true, false, ◌||◌, Option, none, arith}
use cmt_tcp.Run.{◌>>=◌}
use cmt_tcp.Run.Keeps.{Keeps, keeps_rules}
use cmt_tcp.Stream.{State, closed, time_wait, same_state, Ctx}
use cmt_tcp.States.{InState}
use cmt_tcp.SendLists.{addto_acklist, addto_controllist}
use cmt_tcp.Timer.{
  requeue_timewait, enter_timewait, remove_from_rto_list, add_to_timewait_list,
  remove_from_timewait_list, update_timeout_list,
}
use cmt_tcp.Ack.{AckOpt, enqueue_acklist}

-- What may be true of a stream: its flag for the TIME_WAIT list, its state, its slot.
abbrev pub Link : Bool → State → Option ℕ → Type 0
Link false st slot = Unit
Link true time_wait slot = slot ≡ none
Link true closed slot = slot ≡ none
Link true st slot = ⊥

-- A stream on the TIME_WAIT list is in TIME_WAIT or CLOSED, and in no retransmission slot.
abbrev pub Settled : Ctx → Type 0
Settled c = Link c.cur.on_timewait_list c.cur.state c.cur.on_rto_idx

abbrev pub Off : Ctx → Type 0
Off = InState (λ st b. b ≡ false)

pub settle : (c : Ctx) → Off c → Settled c
settle c h = rw h tt

abbrev pub waits_in : State → Bool
waits_in st = same_state st time_wait || same_state st closed

pub Link-off :
    (b : Bool) (st : State) (slot : Option ℕ) → Link b st slot → waits_in st ≡ false → b ≡ false
Link-off b st slot h other = ground (arith, h)

abbrev pub Waiting : Ctx → Type 0
Waiting c = Settled c × (c.cur.state ≡ time_wait)

pub add_to_timewait_list-Waiting : (ts : ℕ) → Keeps Waiting (add_to_timewait_list ts)
unfolding add_to_timewait_list requeue_timewait enter_timewait remove_from_rto_list ◌>>=◌
add_to_timewait_list-Waiting ts = record { at = λ c h. ground arith }

pub remove_from_timewait_list-Waiting : Keeps Waiting remove_from_timewait_list
unfolding remove_from_timewait_list
remove_from_timewait_list-Waiting = record { at = λ c h. ground arith }

pub addto_controllist-Settled : Keeps Settled addto_controllist
unfolding addto_controllist
addto_controllist-Settled = record { at = λ c h. ground arith }

pub addto_acklist-Settled : Keeps Settled addto_acklist
unfolding addto_acklist
addto_acklist-Settled = record { at = λ c h. ground arith }

pub update_timeout_list-Settled : Keeps Settled update_timeout_list
unfolding update_timeout_list
update_timeout_list-Settled = record { at = λ c h. ground arith }

pub enqueue_acklist-Settled : (opt : AckOpt) → Keeps Settled (enqueue_acklist opt)
unfolding enqueue_acklist
enqueue_acklist-Settled opt = search (keeps_rules, addto_acklist-Settled) depth 12
