-- ===== src/Tests/Timers.antt =====
-- The walks over lists of streams at concrete values.
use cmt_tcp.Prelude.{
  ℕ, ◌*◌, ◌≤◌, ◌≡◌, true, [], ◌∷◌, ◌&&◌, ltb, if◌then◌else◌, arith, count, count-cons, count-nil,
}
use cmt_tcp.Run.{ok}
use cmt_tcp.Stream.{Stream, time_wait}
use cmt_tcp.Expiry.{World, check_timewait_expire}
use cmt_tcp.Expiry.Sweep.{kept, InOrder}
use cmt_tcp.Expiry.Closed.{still_waits, wait_over, close_waiting, check_timewait_expire-closes}
use cmt_tcp.Tests.Data.{stream, manager, recv}

-- Stream `id` expires at the time `100 * id`.
abbrev waiting : ℕ → Stream
waiting id = record (stream time_wait) {
  id = id;
  on_timewait_list = true;
  rcv = record recv { ts_tw_expire = 100 * id };
}

abbrev world : World
world = record {
  tcp = record manager { timewait_list = 1 ∷ 2 ∷ []; timewait_list_cnt = 2 };
  streams = waiting;
}

once : (id : ℕ) → count id (1 ∷ 2 ∷ []) ≤ 1
once id = ground (arith, count-cons id 1 (2 ∷ []), count-cons id 2 [], count-nil id)

ordered : InOrder (still_waits 150) (wait_over 150) waiting (1 ∷ 2 ∷ [])
ordered = ground arith

check_timewait_expire-closes_example :
    (w' : World) × (check_timewait_expire 150 10 world ≡ ok (tt, w'))
    × (w'.tcp.timewait_list ≡ kept (wait_over 150) waiting (1 ∷ 2 ∷ []))
    × ((id : ℕ)
        → w'.streams id ≡ (
            if wait_over 150 (waiting id) && ltb 0 (count id (1 ∷ 2 ∷ []))
            then close_waiting (waiting id)
            else waiting id))
check_timewait_expire-closes_example =
    check_timewait_expire-closes world 150 10 (omega arith) once ordered
