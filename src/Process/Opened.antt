-- ===== src/Process/Opened.antt =====
-- A SYN for a listener through the whole of `cmt_tcp_process`: the stream that comes of it.
use cmt_tcp.Prelude.{ℕ, ◌-◌, ◌%◌, ◌^◌, ◌≡◌, true, false, some, [], ◌∷◌, ◌++◌, add32}
use cmt_tcp.Stream.{
  syn_rcvd, stream_ht_insert, RecvBuffer, Recv, Send, Stream, SockAddr, Listener, Ctx,
}
use cmt_tcp.Segment.{Segment, Env}
use cmt_tcp.Options.Parsed.{first}
use cmt_tcp.Connect.{init_stream, accepts}

-- The stream before the options are read.
abbrev opened : Env → Segment → Stream → Send → Recv → RecvBuffer → Stream
unfolding init_stream
opened e g k d r b =
    let s = init_stream (e.rand % (2 ^ 32 - 1)) g.daddr g.dest g.saddr g.source k d r in
    record s {
      snd = record s.snd { peer_wnd = g.window; cwnd = 1 };
      rcv_nxt = g.seq;
      rcv = record s.rcv { irs = g.seq; rcvbuf = some b };
    }

-- With what the options say.
abbrev with_options : Stream → Stream → Stream
with_options t s = record s {
  sack_permit = t.sack_permit;
  saw_timestamp = t.saw_timestamp;
  snd = record s.snd { mss = t.snd.mss; eff_mss = t.snd.eff_mss; wscale_peer = t.snd.wscale_peer };
  rcv = record s.rcv { ts_recent = t.rcv.ts_recent; ts_last_ts_upd = t.rcv.ts_last_ts_upd };
}

-- The stream of the segment's flow waits in SYN_RCVD for the acknowledgement of a SYN that is to be
-- sent, and the peer's SYN is counted; the flow table was given the stream, and nothing else was
-- called.
pub record IsOpened (g : Segment) (id : ℕ) (c c' : Ctx) : Type 0 where
  pub state : c'.cur.state ≡ syn_rcvd
  pub local : (c'.cur.saddr ≡ g.daddr) × (c'.cur.sport ≡ g.dest)
  pub remote : (c'.cur.daddr ≡ g.saddr) × (c'.cur.dport ≡ g.source)
  pub first : c'.cur.rcv.irs ≡ g.seq
  pub next : c'.cur.rcv_nxt ≡ add32 g.seq 1
  pub unsent : c'.cur.snd_nxt ≡ c'.cur.snd.snd_una
  pub window : c'.cur.snd.peer_wnd ≡ g.window
  pub queued : c'.tcp.sender.control_list ≡ c.tcp.sender.control_list ++ id ∷ []
  pub calls : c'.tcp.calls ≡ c.tcp.calls ++ stream_ht_insert id ∷ []

module _ (e : Env) (g : Segment) (c : Ctx) (k : Stream) (d : Send) (r : Recv) (b : RecvBuffer) where
  module _ (chunk : e.stream_chunk ≡ some k) (send : e.snd_chunk ≡ some d)
      (recv : e.recv_chunk ≡ some r) (buffer : e.recv_get (add32 g.seq 1) ≡ some b) (l : Listener)
      (addr : SockAddr) (bound : c.tcp.listeners g.dest ≡ some l) (named : l.s ≡ some addr)
      (wanted : accepts g.daddr g.dest addr ≡ true) (syn : g.syn ≡ true)
      (no_ack : g.ack ≡ false) where
    -- The context after the stream is made.
    abbrev made : Stream → Ctx
    made t = record c {
      tcp = record c.tcp { calls = c.tcp.calls ++ stream_ht_insert k.id ∷ [] };
      cur = with_options t (opened e g k d r b);
    }
