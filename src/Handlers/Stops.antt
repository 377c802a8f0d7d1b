-- ===== src/Handlers/Stops.antt =====
-- Segments that end the process.
use cmt_tcp.Prelude.{◌≡◌, ◌≢◌, true, arith, add32}
use cmt_tcp.Run.{fault, exited, ◌>>=◌}
use cmt_tcp.Stream.{Ctx}
use cmt_tcp.Segment.{Segment, Env}
use cmt_tcp.Handlers.{handle_syn_rcvd}

module _ (e : Env) (g : Segment) (c : Ctx) where
  -- In SYN_RCVD an acknowledgement of anything but our SYN ends the process.
  pub handle_syn_rcvd_exits :
      g.ack ≡ true → g.ack_seq ≢ add32 c.cur.snd.iss 1 → handle_syn_rcvd e g c ≡ fault exited
  unfolding handle_syn_rcvd ◌>>=◌
  handle_syn_rcvd_exits acked other = ground arith
