-- ===== src/Expiry/Stalls.antt =====
-- Where the retransmission clock of src/timer.c stands still.
use cmt_tcp.Prelude.{ℕ, suc, ◌<◌, ◌≡◌, true, [], ltb, arith}
use cmt_tcp.Run.{ok, branch, gets, pure, ◌>>=◌}
use cmt_tcp.Expiry.{World, walk_slot, rtm_rounds, check_rtm_timeout}

-- Where the current slot of the store is empty, checking the retransmission timers with any positive
-- threshold does nothing at all, however late it is: the clock stays at that slot, and no stream in
-- a later one is looked at.
pub check_rtm_timeout_stalls :
    (w : World) (fuel cur_ts thresh : ℕ)
    → w.tcp.rto_store.rto_list w.tcp.rto_store.rto_now_idx ≡ []
    → 0 < thresh
    → check_rtm_timeout (suc fuel) cur_ts thresh w ≡ ok (tt, w)
unfolding check_rtm_timeout rtm_rounds walk_slot ◌>>=◌ pure gets branch
check_rtm_timeout_stalls w fuel cur_ts thresh empty h =
    let short : ltb 0 thresh ≡ true = ground arith in rw empty (ground arith)
