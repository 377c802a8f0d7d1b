-- ===== src/SendLists/Listed.antt =====
-- The sender's lists of src/tcp.c hold a stream exactly when its flags say so.
use cmt_tcp.Run.Keeps.{Keeps}
use cmt_tcp.Prelude.{arith}
use cmt_tcp.Member.{IsMember-join, IsMember-leave}
use cmt_tcp.Filed.{IsFiled}
use cmt_tcp.SendLists.{
  addto_acklist, addto_controllist, addto_sendlist, remove_acklist, remove_controllist,
  remove_sendlist,
}

pub addto_acklist-IsFiled : Keeps IsFiled addto_acklist
unfolding addto_acklist
addto_acklist-IsFiled = record {
  at =
      λ c h. ground (arith, IsMember-join c.cur.id c.tcp.sender.ack_list_cnt c.tcp.sender.ack_list);
}

pub addto_controllist-IsFiled : Keeps IsFiled addto_controllist
unfolding addto_controllist
addto_controllist-IsFiled = record {
  at = λ c h.
      ground
        (arith, IsMember-join c.cur.id c.tcp.sender.control_list_cnt c.tcp.sender.control_list);
}

pub addto_sendlist-IsFiled : Keeps IsFiled addto_sendlist
unfolding addto_sendlist
addto_sendlist-IsFiled = record {
  at = λ c h.
      ground (arith, IsMember-join c.cur.id c.tcp.sender.send_list_cnt c.tcp.sender.send_list);
}

pub remove_acklist-IsFiled : Keeps IsFiled remove_acklist
unfolding remove_acklist
remove_acklist-IsFiled = record {
  at = λ c h.
      ground (arith, IsMember-leave c.cur.id c.tcp.sender.ack_list_cnt c.tcp.sender.ack_list);
}

pub remove_controllist-IsFiled : Keeps IsFiled remove_controllist
unfolding remove_controllist
remove_controllist-IsFiled = record {
  at = λ c h.
      ground
        (arith, IsMember-leave c.cur.id c.tcp.sender.control_list_cnt c.tcp.sender.control_list);
}

pub remove_sendlist-IsFiled : Keeps IsFiled remove_sendlist
unfolding remove_sendlist
remove_sendlist-IsFiled = record {
  at = λ c h.
      ground (arith, IsMember-leave c.cur.id c.tcp.sender.send_list_cnt c.tcp.sender.send_list);
}
