-- ===== src/Timer.antt =====
-- The timer lists of src/timer.c: the retransmission store, the TIME_WAIT list and the list of
-- idle connections.
pub mod Lists
use cmt_tcp.Prelude.{
  ℕ, ◌+◌, ◌%◌, ◌*◌, Bool, true, false, not, ◌||◌, Option, none, some, List, [], ◌∷◌, ◌++◌, ltb,
  ◌==◌, if◌then◌else◌, add32, sub32, neg32, erase,
}
use cmt_tcp.Run.{Run, pure, stop, assertion, branch, gets, modify, ◌>>=◌, ◌>>◌}
use cmt_tcp.Seq.{seq_gt}
use cmt_tcp.Stream.{Act, Ctx, Manager, Stream, RtoStore, cur, set_cur, set_snd, set_rcv, set_tcp}

abbrev pub rto_hash : ℕ
rto_hash = 3000

-- `CMT_TCP_TIMEWAIT`
abbrev pub timewait_ticks : ℕ
timewait_ticks = 0

unfoldable pub init_rto_hashstore : ℕ → ℕ → RtoStore
init_rto_hashstore idx ts = record { rto_now_idx = idx; rto_now_ts = ts; rto_list = λ i. [] }

abbrev pub set_slot : (ℕ → List ℕ) → ℕ → List ℕ → ℕ → List ℕ
set_slot f k xs j = if k == j then xs else f j

abbrev pub put_slot : ℕ → ℕ → Manager → Manager
put_slot k id t = record t {
  rto_store = record t.rto_store {
    rto_list = set_slot t.rto_store.rto_list k (t.rto_store.rto_list k ++ id ∷ []);
  };
  rto_list_cnt = add32 t.rto_list_cnt 1;
}

abbrev pub drop_slot : ℕ → ℕ → Manager → Manager
drop_slot k id t = record t {
  rto_store = record t.rto_store {
    rto_list = set_slot t.rto_store.rto_list k (erase id (t.rto_store.rto_list k));
  };
  rto_list_cnt = sub32 t.rto_list_cnt 1;
}

-- The slot of a stream: `diff` is read as an `int`.
abbrev pub slot_for : ℕ → ℕ → ℕ
slot_for diff ts_rto = if neg32 diff || ltb diff rto_hash then ts_rto % rto_hash else rto_hash

abbrev start_store : ℕ → Manager → Manager
start_store ts t =
    if t.rto_list_cnt == 0
    then record t { rto_store = record t.rto_store { rto_now_idx = 0; rto_now_ts = ts } }
    else t

abbrev enter_slot : Option ℕ → ℕ → Act (Unit {0})
enter_slot (some k) slot = pure tt
enter_slot none slot = do
  s ← cur
  set_cur (λ s. record s { on_rto_idx = some slot })
  set_tcp (put_slot slot s.id)

unfoldable pub add_to_rto_list : Act (Unit {0})
unfolding ◌>>=◌
add_to_rto_list = do
  s ← cur
  set_tcp (start_store s.snd.ts_rto)
  now ← gets (λ c. c.tcp.rto_store.rto_now_ts)
  enter_slot s.on_rto_idx (slot_for (sub32 s.snd.ts_rto now) s.snd.ts_rto)

abbrev leave_slot : Option ℕ → Act (Unit {0})
leave_slot none = pure tt
leave_slot (some k) = do
  s ← cur
  set_cur (λ s. record s { on_rto_idx = none })
  set_tcp (drop_slot k s.id)

unfoldable pub remove_from_rto_list : Act (Unit {0})
unfolding ◌>>=◌
remove_from_rto_list = do s ← cur; leave_slot s.on_rto_idx

-- Lines 78 and 79 of `add_to_timewait_list`.
unfoldable pub requeue_timewait : ℕ → Act (Unit {0})
unfolding modify
requeue_timewait id =
    set_tcp (λ t. record t { timewait_list = erase id t.timewait_list ++ id ∷ [] })

-- Lines 89 to 91 of `add_to_timewait_list`.
unfoldable pub enter_timewait : Act (Unit {0})
unfolding ◌>>=◌
enter_timewait = do
  set_cur (λ s. record s { on_timewait_list = true })
  s ← cur
  set_tcp (λ t. record t {
    timewait_list = t.timewait_list ++ s.id ∷ [];
    timewait_list_cnt = add32 t.timewait_list_cnt 1;
  })

-- Where the stream waits already it is moved to the end; else it leaves the retransmission store,
-- with which the list shares the link.
unfoldable pub add_to_timewait_list : ℕ → Act (Unit {0})
add_to_timewait_list cur_ts = do
  set_rcv (λ r. record r { ts_tw_expire = add32 cur_ts timewait_ticks })
  s ← cur
  branch s.on_timewait_list (requeue_timewait s.id) do remove_from_rto_list; enter_timewait

unfoldable pub remove_from_timewait_list : Act (Unit {0})
unfolding ◌>>=◌
remove_from_timewait_list = do
  s ← cur
  branch (not s.on_timewait_list) (stop assertion) do
    set_tcp (λ t. record t {
      timewait_list = erase s.id t.timewait_list;
      timewait_list_cnt = sub32 t.timewait_list_cnt 1;
    })
    set_cur (λ s. record s { on_timewait_list = false })

unfoldable pub add_to_timeout_list : Act (Unit {0})
unfolding ◌>>=◌
add_to_timeout_list = do
  s ← cur
  branch s.on_timeout_list (stop assertion) do
    set_cur (λ s. record s { on_timeout_list = true })
    set_tcp (λ t. record t {
      timeout_list = t.timeout_list ++ s.id ∷ [];
      timeout_list_cnt = add32 t.timeout_list_cnt 1;
    })

unfoldable pub remove_from_timeout_list : Act (Unit {0})
unfolding ◌>>=◌
remove_from_timeout_list = do
  s ← cur
  branch (not s.on_timeout_list) (pure tt) do
    set_cur (λ s. record s { on_timeout_list = false })
    set_tcp (λ t. record t {
      timeout_list = erase s.id t.timeout_list;
      timeout_list_cnt = sub32 t.timeout_list_cnt 1;
    })

unfoldable pub update_timeout_list : Act (Unit {0})
unfolding ◌>>=◌
update_timeout_list = do
  s ← cur
  branch (not s.on_timeout_list) (pure tt)
      (set_tcp (λ t. record t { timeout_list = erase s.id t.timeout_list ++ s.id ∷ [] }))

unfoldable pub update_retransmission_timer : ℕ → Act (Unit {0})
update_retransmission_timer cur_ts = do
  s ← cur
  branch (s.snd.rto == 0) (stop assertion) do
    set_snd (λ d. record d { nrtx = 0 })
    remove_from_rto_list
    branch (not (seq_gt s.snd_nxt s.snd.snd_una)) (pure tt)
        do set_snd (λ d. record d { ts_rto = add32 cur_ts d.rto }); add_to_rto_list
