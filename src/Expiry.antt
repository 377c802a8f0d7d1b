-- ===== src/Expiry.antt =====
-- The functions of src/timer.c that walk over the streams of a list: `rearrange_rto_store`,
-- `check_rtm_timeout`, `check_timewait_expire` and `check_connection_timeout`.
pub mod Sweep
pub mod Closed
pub mod Stalls
use cmt_tcp.Prelude.{
  ℕ, zero, suc, ◌+◌, ◌*◌, ◌%◌, ◌^◌, Bool, true, false, not, ◌&&◌, ◌||◌, Option, none, some, List,
  [], ◌∷◌, ◌++◌, ltb, leb, ◌==◌, if◌then◌else◌, add32, sub32, neg32, erase,
}
use cmt_tcp.Run.{Outcome, ok, fault, Run, pure, stop, diverges, branch, gets, modify, ◌>>=◌, ◌>>◌}
use cmt_tcp.Stream.{State, closed, active_close, timeout, Stream, Manager, Ctx, Act, stream_destroy}
use cmt_tcp.Timer.{rto_hash, put_slot, drop_slot}
use cmt_tcp.Retransmit.{handle_rto}

-- The manager and the streams that its lists name.
pub record World : Type 0 where
  pub tcp : Manager
  pub streams : ℕ → Stream

abbrev pub update : (ℕ → Stream) → ℕ → Stream → ℕ → Stream
update f id s j = if id == j then s else f j

abbrev pub enter : {A : Type 0} → World → ℕ → Outcome (A × Ctx) → Outcome (A × World)
enter w id (ok (a, c)) = ok (a, record { tcp = c.tcp; streams = update w.streams id c.cur })
enter w id (fault f) = fault f

-- A function that works on one stream, called for the stream `id`.
unfoldable pub on : {A : Type 0} → ℕ → Act A → Run World A
on id m w = enter w id (m (record { tcp = w.tcp; cur = w.streams id }))

abbrev pub stream : ℕ → Run World Stream
stream id = gets (λ w. w.streams id)

abbrev pub set_stream : ℕ → (Stream → Stream) → Run World (Unit {0})
set_stream id f = modify (λ w. record w { streams = update w.streams id (f (w.streams id)) })

abbrev pub set_manager : (Manager → Manager) → Run World (Unit {0})
set_manager f = modify (λ w. record w { tcp = f w.tcp })

-- `for (walk = first; walk != NULL; walk = next) { if (++cnt > thresh) break; next = …; body }`,
-- where the body takes no stream off the list but `walk`; `true` from it is its `break`.
unfoldable pub walk_list : (ℕ → Run World Bool) → ℕ → ℕ → List ℕ → Run World (Unit {0})
walk_list body thresh cnt [] = pure tt
walk_list body thresh cnt (walk ∷ next) =
    branch (ltb thresh (cnt + 1)) (pure tt)
      do break ← body walk; branch break (pure tt) (walk_list body thresh (cnt + 1) next)

abbrev pub destroyed : ℕ → Manager → Manager
destroyed id t = record t { calls = t.calls ++ stream_destroy id ∷ [] }

abbrev pub drop_timewait : ℕ → Manager → Manager
drop_timewait id t = record t {
  timewait_list = erase id t.timewait_list;
  timewait_list_cnt = sub32 t.timewait_list_cnt 1;
}

abbrev pub drop_timeout : ℕ → Manager → Manager
drop_timeout id t = record t {
  timeout_list = erase id t.timeout_list;
  timeout_list_cnt = sub32 t.timeout_list_cnt 1;
}

-- `(int32_t)(cur_ts - walk->rcv->ts_tw_expire) >= 0`
abbrev pub is_expired : ℕ → Stream → Bool
is_expired cur_ts s = not (neg32 (sub32 cur_ts s.rcv.ts_tw_expire))

unfoldable pub expire_one : ℕ → ℕ → Run World Bool
unfolding ◌>>=◌
expire_one cur_ts walk = do
  s ← stream walk
  branch (not s.on_timewait_list) (pure false) (
      branch (not (is_expired cur_ts s)) (pure true) (
        branch s.snd.on_control_list (pure false) do
          set_manager (drop_timewait walk)
          set_stream walk (λ s. record s {
            on_timewait_list = false;
            state = closed;
            close_reason = active_close;
          })
          set_manager (destroyed walk)
          pure false))

unfoldable pub check_timewait_expire : ℕ → ℕ → Run World (Unit {0})
check_timewait_expire cur_ts thresh = do
  list ← gets (λ w. w.tcp.timewait_list)
  walk_list (expire_one cur_ts) thresh 0 list

-- `NTY_TCP_TIMEOUT`, in seconds, is not defined in the repository.
abbrev pub is_idle : ℕ → ℕ → Stream → Bool
is_idle limit cur_ts s =
    not (neg32 (sub32 cur_ts s.last_active_ts))
    && leb (limit * 1000) (sub32 cur_ts s.last_active_ts)

unfoldable pub time_out_one : ℕ → ℕ → ℕ → Run World Bool
unfolding ◌>>=◌
time_out_one limit cur_ts walk = do
  s ← stream walk
  branch (not (is_idle limit cur_ts s)) (pure true) do
    set_manager (drop_timeout walk)
    set_stream walk
        (λ s. record s { on_timeout_list = false; state = closed; close_reason = timeout })
    branch s.socket (pure tt) (set_manager (destroyed walk))
    pure false

unfoldable pub check_connection_timeout : ℕ → ℕ → ℕ → Run World (Unit {0})
check_connection_timeout limit cur_ts thresh = do
  list ← gets (λ w. w.tcp.timeout_list)
  walk_list (time_out_one limit cur_ts) thresh 0 list

-- `diff` is an `int`, and unsigned once the index is added to it.
unfoldable pub rearrange_one : ℕ → Run World Bool
unfolding ◌>>=◌
rearrange_one walk = do
  w ← gets (λ w. w)
  let diff = sub32 w.tcp.rto_store.rto_now_ts (w.streams walk).snd.ts_rto
  let offset = add32 diff w.tcp.rto_store.rto_now_idx % rto_hash
  branch (neg32 diff || ltb diff rto_hash)
      (do
        set_manager (λ t. record (put_slot offset walk (drop_slot rto_hash walk t)) {
          rto_list_cnt = t.rto_list_cnt;
        })
        set_stream walk (λ s. record s { on_rto_idx = some offset }))
      (pure tt)
  pure false

unfoldable pub rearrange_all : List ℕ → Run World (Unit {0})
rearrange_all [] = pure tt
rearrange_all (walk ∷ next) = do rearrange_one walk; rearrange_all next

-- `tcp->rto_list` is the store here.
unfoldable pub rearrange_rto_store : Run World (Unit {0})
rearrange_rto_store = do list ← gets (λ w. w.tcp.rto_store.rto_list rto_hash); rearrange_all list

abbrev pub first : List ℕ → Option ℕ
first [] = none
first (x ∷ xs) = some x

-- The entry behind `id`.
pub next_of : ℕ → List ℕ → Option ℕ
next_of id [] = none
next_of id (x ∷ xs) = if x == id then first xs else next_of id xs

-- One stream of the slot: it leaves the store and its expiry is handled, which may file it again.
unfoldable pub fire_one : ℕ → ℕ → Option ℕ → Run World (Unit {0})
fire_one slot walk none = pure tt
fire_one slot walk (some k) = do
  set_manager (drop_slot slot walk)
  set_stream walk (λ s. record s { on_rto_idx = none })
  on walk handle_rto
  pure tt

-- The inner loop of `check_rtm_timeout`; its result is `cnt`. What is behind a stream is read
-- before the stream leaves the list. `fuel` falls as `cnt` grows.
unfoldable pub walk_slot : ℕ → ℕ → ℕ → ℕ → Option ℕ → Run World ℕ
walk_slot zero thresh slot cnt walk = stop diverges
walk_slot (suc fuel) thresh slot cnt none = pure cnt
walk_slot (suc fuel) thresh slot cnt (some walk) = branch (ltb thresh (cnt + 1)) (pure (cnt + 1)) do
  next ← gets (λ w. next_of walk (w.tcp.rto_store.rto_list slot))
  s ← stream walk
  fire_one slot walk s.on_rto_idx
  walk_slot fuel thresh slot (cnt + 1) next

unfoldable pub advance : Run World (Unit {0})
advance = do
  set_manager (λ t. record t {
    rto_store = record t.rto_store {
      rto_now_idx = add32 t.rto_store.rto_now_idx 1 % rto_hash;
      rto_now_ts = add32 t.rto_store.rto_now_ts 1;
    };
  })
  w ← gets (λ w. w)
  branch (w.tcp.rto_store.rto_now_idx % 1000 == 0) rearrange_rto_store (pure tt)

-- The outer loop, with `fuel` rounds left.
unfoldable pub rtm_rounds : ℕ → ℕ → ℕ → ℕ → Run World (Unit {0})
rtm_rounds zero cur_ts thresh cnt = stop diverges
rtm_rounds (suc fuel) cur_ts thresh cnt = do
  w ← gets (λ w. w)
  branch (neg32 (sub32 cur_ts w.tcp.rto_store.rto_now_ts)) (pure tt) do
    cnt' ←
        walk_slot (suc (suc thresh)) thresh w.tcp.rto_store.rto_now_idx cnt
          (first (w.tcp.rto_store.rto_list w.tcp.rto_store.rto_now_idx))
    branch (ltb cnt' thresh) (pure tt) do advance; rtm_rounds fuel cur_ts thresh cnt'

unfoldable pub check_rtm_timeout : ℕ → ℕ → ℕ → Run World (Unit {0})
check_rtm_timeout fuel cur_ts thresh = do
  w ← gets (λ w. w)
  branch (w.tcp.rto_list_cnt == 0) (pure tt) (rtm_rounds fuel cur_ts thresh 0)
