-- ===== src/States.antt =====
-- The state machine of src/tcp.c as a table, with which the handlers are compared.
pub mod Lists
pub mod Ack
pub mod Moves
pub mod Segments
pub mod Link
pub mod Settled
pub mod Exclusive
use cmt_tcp.Prelude.{Bool, true, false, ◌||◌}
use cmt_tcp.Stream.{
  State, closed, listen, syn_sent, syn_rcvd, established, close_wait, fin_wait_1, closing, last_ack,
  fin_wait_2, time_wait, Ctx, same_state,
}

-- The states in which the handler of the first state may leave a stream; CLOSE_WAIT is left open,
-- since its handler is not in the repository.
abbrev pub may_follow : State → State → Bool
may_follow closed t = same_state t closed
may_follow listen t = same_state t listen || same_state t syn_rcvd
may_follow syn_sent t =
    same_state t syn_sent
    || same_state t syn_rcvd
    || same_state t established
    || same_state t close_wait
may_follow syn_rcvd t =
    same_state t syn_rcvd
    || same_state t established
    || same_state t close_wait
    || same_state t closed
may_follow established t =
    same_state t established || same_state t close_wait || same_state t closed
may_follow close_wait t = true
may_follow fin_wait_1 t =
    same_state t fin_wait_1
    || same_state t fin_wait_2
    || same_state t closing
    || same_state t time_wait
    || same_state t closed
may_follow closing t = same_state t closing || same_state t time_wait
may_follow last_ack t = same_state t last_ack || same_state t closed
may_follow fin_wait_2 t = same_state t fin_wait_2 || same_state t time_wait || same_state t closed
may_follow time_wait t = same_state t time_wait

-- The state of the stream, and whether it is on the TIME_WAIT list, have the property `P`.
abbrev pub InState : (State → Bool → Type 0) → Ctx → Type 0
InState P c = P c.cur.state c.cur.on_timewait_list

-- `P` stays true when the stream goes to state `t`.
abbrev pub Allows : (State → Bool → Type 0) → State → Type 0
Allows P t = (st : State) (b : Bool) → P st b → P t b

-- `P` stays true when the stream goes on the TIME_WAIT list, or off it.
abbrev pub Flags : (State → Bool → Type 0) → Bool → Type 0
Flags P b = (st : State) (b' : Bool) → P st b' → P st b
