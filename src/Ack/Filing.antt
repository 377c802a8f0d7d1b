-- ===== src/Ack/Filing.antt =====
-- Acknowledgements keep the lists and the flags of a stream together.
use cmt_tcp.Prelude.{ℕ, Bool}
use cmt_tcp.Run.Keeps.{Keeps, keeps_rules}
use cmt_tcp.Filed.{IsFiled}
use cmt_tcp.SendLists.Listed.{
  addto_acklist-IsFiled, addto_sendlist-IsFiled, remove_sendlist-IsFiled,
}
use cmt_tcp.Timer.Lists.{update_retransmission_timer-IsFiled}
use cmt_tcp.Ack.{
  AckOpt, now, aggregate, wack, count_ack, enqueue_acklist, the_sndbuf, update_window,
  enter_recovery, inflate, recover, advance_snd_nxt, measure, slow_start, avoid_congestion,
  grow_window, drop_acked, release, accept_ack, process_ack,
}

ruleset ack_leaves = (
  keeps_rules, addto_acklist-IsFiled, addto_sendlist-IsFiled, remove_sendlist-IsFiled,
  update_retransmission_timer-IsFiled,
)

pub the_sndbuf-IsFiled : Keeps IsFiled the_sndbuf
unfolding the_sndbuf
the_sndbuf-IsFiled = search keeps_rules depth 12

pub enqueue_acklist-IsFiled : (opt : AckOpt) → Keeps IsFiled (enqueue_acklist opt)
unfolding enqueue_acklist count_ack
enqueue_acklist-IsFiled now = search ack_leaves depth 12
enqueue_acklist-IsFiled aggregate = search ack_leaves depth 12
enqueue_acklist-IsFiled wack = search ack_leaves depth 12

update_window-IsFiled : (w seq ack : ℕ) → Keeps IsFiled (update_window w seq ack)
unfolding update_window
update_window-IsFiled w seq ack = search ack_leaves depth 12

recover-IsFiled : (dup : Bool) (ack : ℕ) → Keeps IsFiled (recover dup ack)
unfolding recover enter_recovery inflate
recover-IsFiled dup ack = search ack_leaves depth 12

advance_snd_nxt-IsFiled : (ack : ℕ) → Keeps IsFiled (advance_snd_nxt ack)
unfolding advance_snd_nxt
advance_snd_nxt-IsFiled ack = search (ack_leaves, the_sndbuf-IsFiled) depth 12

measure-IsFiled : (ts : ℕ) → Keeps IsFiled (measure ts)
unfolding measure
measure-IsFiled ts = search ack_leaves depth 12

grow_window-IsFiled : (packets : ℕ) → Keeps IsFiled (grow_window packets)
unfolding grow_window slow_start avoid_congestion
grow_window-IsFiled packets = search ack_leaves depth 12

drop_acked-IsFiled : (ts ack rmlen : ℕ) → Keeps IsFiled (drop_acked ts ack rmlen)
unfolding drop_acked
drop_acked-IsFiled ts ack rmlen = search (ack_leaves, the_sndbuf-IsFiled) depth 12

release-IsFiled : (ts ack : ℕ) → Keeps IsFiled (release ts ack)
unfolding release
release-IsFiled ts ack =
    search
      (ack_leaves, the_sndbuf-IsFiled, measure-IsFiled, grow_window-IsFiled, drop_acked-IsFiled)
      depth 12

accept_ack-IsFiled : (ts w edge seq ack len : ℕ) → Keeps IsFiled (accept_ack ts w edge seq ack len)
unfolding accept_ack
accept_ack-IsFiled ts w edge seq ack len =
    search
      (ack_leaves, update_window-IsFiled, recover-IsFiled, advance_snd_nxt-IsFiled, release-IsFiled)
      depth 12

pub process_ack-IsFiled :
    (ts : ℕ) (syn : Bool) (seq ack window len : ℕ)
    → Keeps IsFiled (process_ack ts syn seq ack window len)
unfolding process_ack
process_ack-IsFiled ts syn seq ack window len =
    search (keeps_rules, the_sndbuf-IsFiled, accept_ack-IsFiled) depth 12
