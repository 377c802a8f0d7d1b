-- ===== src/Connect/Filing.antt =====
-- Opening keeps the lists and the flags of the stream together.
use cmt_tcp.Run.Keeps.{Keeps, keeps_rules}
use cmt_tcp.Filed.{IsFiled}
use cmt_tcp.Timer.Lists.{update_retransmission_timer-IsFiled}
use cmt_tcp.Segment.{Segment, Env}
use cmt_tcp.Connect.{read_options, active_open}

pub read_options-IsFiled : (ts : _) (g : Segment) → Keeps IsFiled (read_options ts g)
unfolding read_options
read_options-IsFiled ts g = search keeps_rules depth 12

pub active_open-IsFiled : (e : Env) (g : Segment) → Keeps IsFiled (active_open e g)
unfolding active_open
active_open-IsFiled e g =
    search (keeps_rules, read_options-IsFiled, update_retransmission_timer-IsFiled) depth 12
