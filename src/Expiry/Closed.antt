-- ===== src/Expiry/Closed.antt =====
-- Which streams the checks of src/timer.c close.
use cmt_tcp.Prelude.{
  ℕ, ◌≤◌, ◌≡◌, refl, Bool, false, not, ◌&&◌, [], ltb, if◌then◌else◌, Bool-cases, inl, inr, arith,
  length, count, erase,
}
use cmt_tcp.Run.{ok, branch, pure, ◌>>=◌}
use cmt_tcp.Stream.{closed, active_close, timeout, Stream, Manager}
use cmt_tcp.Expiry.{
  World, drop_timewait, drop_timeout, destroyed, is_expired, expire_one, check_timewait_expire,
  is_idle, time_out_one, check_connection_timeout,
}
use cmt_tcp.Expiry.Sweep.{kept, InOrder, Handles, sweep}

-- A stream in TIME_WAIT that has not expired ends the walk; one that has is due unless it is on the
-- control list.
abbrev pub still_waits : ℕ → Stream → Bool
still_waits cur_ts s = s.on_timewait_list && not (is_expired cur_ts s)

abbrev pub wait_over : ℕ → Stream → Bool
wait_over cur_ts s = s.on_timewait_list && is_expired cur_ts s && not s.snd.on_control_list

abbrev pub close_waiting : Stream → Stream
close_waiting s = record s { on_timewait_list = false; state = closed; close_reason = active_close }

abbrev leave_waiting : ℕ → Stream → Manager → Manager
leave_waiting x s t = destroyed x (drop_timewait x t)

expire_one-Handles :
    (cur_ts : ℕ)
    → Handles
        (λ t. t.timewait_list)
        (still_waits cur_ts)
        (wait_over cur_ts)
        close_waiting
        leave_waiting
        (expire_one cur_ts)
unfolding expire_one branch pure
expire_one-Handles cur_ts = record {
  taken_off = λ x s t. refl;
  does = λ x w. elim (Bool-cases (w.streams x).on_timewait_list) [
    | inr off ↦ rw off refl
    | inl here ↦ elim (Bool-cases (is_expired cur_ts (w.streams x))) [
      | inr early ↦ rw (here, early) refl
      | inl late ↦ elim (Bool-cases (w.streams x).snd.on_control_list) [
        | inl busy ↦ rw (here, late, busy) refl
        | inr free ↦ rw (here, late, free) refl
      ]
    ]
  ];
}

-- The threshold covers a list of streams, once each, in which behind a stream that has not expired
-- no other one has: then exactly the streams that have expired and are not on the control list leave
-- the TIME_WAIT list, in which the others stay in their order, and are closed; no other stream
-- changes.
pub check_timewait_expire-closes :
    (w : World) (cur_ts thresh : ℕ)
    → length w.tcp.timewait_list ≤ thresh
    → ((id : ℕ) → count id w.tcp.timewait_list ≤ 1)
    → InOrder (still_waits cur_ts) (wait_over cur_ts) w.streams w.tcp.timewait_list
    → (w' : World) × (check_timewait_expire cur_ts thresh w ≡ ok (tt, w'))
      × (w'.tcp.timewait_list ≡ kept (wait_over cur_ts) w.streams w.tcp.timewait_list)
      × ((id : ℕ)
          → w'.streams id ≡ (
              if wait_over cur_ts (w.streams id) && ltb 0 (count id w.tcp.timewait_list)
              then close_waiting (w.streams id)
              else w.streams id))
unfolding check_timewait_expire ◌>>=◌
check_timewait_expire-closes w cur_ts thresh room once ordered =
    let (w', done, v) =
      sweep _ _ _ _ _ w.streams _ (expire_one-Handles cur_ts) w.tcp.timewait_list [] 0 thresh w
        (record { listed = refl; once = once; agree = λ id m. refl; ordered = ordered })
        (omega (arith, room)) in
    (w', done, v.listed, v.closes)

abbrev pub in_use : ℕ → ℕ → Stream → Bool
in_use limit cur_ts s = not (is_idle limit cur_ts s)

abbrev pub close_idle : Stream → Stream
close_idle s = record s { on_timeout_list = false; state = closed; close_reason = timeout }

abbrev leave_idle : ℕ → Stream → Manager → Manager
leave_idle x s t = if s.socket then drop_timeout x t else destroyed x (drop_timeout x t)

taken_off_idle :
    (x : ℕ) (s : Stream) (t : Manager) → (leave_idle x s t).timeout_list ≡ erase x t.timeout_list
taken_off_idle x s t = elim (Bool-cases s.socket) [ inl e ↦ rw e refl | inr e ↦ rw e refl ]

time_out_one-Handles :
    (limit cur_ts : ℕ)
    → Handles
        (λ t. t.timeout_list)
        (in_use limit cur_ts)
        (is_idle limit cur_ts)
        close_idle
        leave_idle
        (time_out_one limit cur_ts)
unfolding time_out_one branch pure
time_out_one-Handles limit cur_ts = record {
  taken_off = taken_off_idle;
  does = λ x w. elim (Bool-cases (is_idle limit cur_ts (w.streams x))) [
    | inr busy ↦ rw busy refl
    | inl idle ↦ elim (Bool-cases (w.streams x).socket) [
      | inl e ↦ rw (idle, e) refl
      | inr e ↦ rw (idle, e) refl
    ]
  ];
}

-- The threshold covers a list of streams, once each, in which behind a stream that was active in the
-- last `limit` seconds no other one was idle for so long: then exactly the idle ones leave the list,
-- in which the others stay in their order, and are closed as timed out; no other stream changes.
pub check_connection_timeout-closes :
    (w : World) (limit cur_ts thresh : ℕ)
    → length w.tcp.timeout_list ≤ thresh
    → ((id : ℕ) → count id w.tcp.timeout_list ≤ 1)
    → InOrder (in_use limit cur_ts) (is_idle limit cur_ts) w.streams w.tcp.timeout_list
    → (w' : World) × (check_connection_timeout limit cur_ts thresh w ≡ ok (tt, w'))
      × (w'.tcp.timeout_list ≡ kept (is_idle limit cur_ts) w.streams w.tcp.timeout_list)
      × ((id : ℕ)
          → w'.streams id ≡ (
              if is_idle limit cur_ts (w.streams id) && ltb 0 (count id w.tcp.timeout_list)
              then close_idle (w.streams id)
              else w.streams id))
unfolding check_connection_timeout ◌>>=◌
check_connection_timeout-closes w limit cur_ts thresh room once ordered =
    let (w', done, v) =
      sweep _ _ _ _ _ w.streams _ (time_out_one-Handles limit cur_ts) w.tcp.timeout_list [] 0 thresh
        w (record { listed = refl; once = once; agree = λ id m. refl; ordered = ordered })
        (omega (arith, room)) in
    (w', done, v.listed, v.closes)
