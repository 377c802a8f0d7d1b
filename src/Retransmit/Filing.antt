-- ===== src/Retransmit/Filing.antt =====
-- A retransmission keeps the lists and the flags of the stream together.
use cmt_tcp.Run.Keeps.{Keeps, keeps_rules}
use cmt_tcp.Filed.{IsFiled}
use cmt_tcp.SendLists.Listed.{
  addto_controllist-IsFiled, addto_sendlist-IsFiled, remove_controllist-IsFiled,
}
use cmt_tcp.Retransmit.{
  give_up, count_retry, shrink_window, fail_syn, resend_closing, resend, retry, handle_rto,
}

ruleset resend_leaves =
    (keeps_rules, addto_controllist-IsFiled, addto_sendlist-IsFiled, remove_controllist-IsFiled)

give_up-IsFiled : Keeps IsFiled give_up
unfolding give_up
give_up-IsFiled = search keeps_rules depth 12

fail_syn-IsFiled : Keeps IsFiled fail_syn
unfolding fail_syn
fail_syn-IsFiled = search keeps_rules depth 12

resend_closing-IsFiled : Keeps IsFiled resend_closing
unfolding resend_closing
resend_closing-IsFiled = search resend_leaves depth 12

resend-IsFiled : Keeps IsFiled resend
unfolding resend
resend-IsFiled = search (resend_leaves, resend_closing-IsFiled) depth 12

retry-IsFiled : Keeps IsFiled retry
unfolding retry count_retry shrink_window
retry-IsFiled = search (keeps_rules, fail_syn-IsFiled, resend-IsFiled) depth 12

-- The expiry of the retransmission timer keeps the lists and the flags of the stream together, unless
-- it stops the process.
pub handle_rto-IsFiled : Keeps IsFiled handle_rto
unfolding handle_rto
handle_rto-IsFiled = search (keeps_rules, retry-IsFiled, give_up-IsFiled) depth 12
