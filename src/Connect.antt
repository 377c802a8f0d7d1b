-- ===== src/Connect.antt =====
-- The opening of a connection in src/tcp_stream.c (`create_tcp_stream`) and src/tcp.c
-- (`cmt_tcp_filter_synpkt`, `cmt_tcp_passive_open`, `cmt_tcp_active_open`, `cmt_create_stream`).
-- A created stream becomes `cur`; a result of NULL is `false`.
pub mod Filing
pub mod Filter
pub mod Created
use cmt_tcp.Prelude.{
  ℕ, ◌+◌, ◌-◌, ◌*◌, ◌%◌, ◌^◌, Bool, true, false, not, ◌&&◌, Option, none, some, ◌==◌, if◌then◌else◌,
  add32, sub32,
}
use cmt_tcp.Run.{Run, pure, stop, null_pointer, diverges, deref, branch, gets, modify, ◌>>=◌, ◌>>◌}
use cmt_tcp.Stream.{
  closed, listen, no_mem, RecvBuffer, Recv, Send, Stream, SockAddr, Listener, Packet, Manager, Ctx,
  Act, tcppkt_alone, free_snd, free_stream, stream_ht_insert, cur, set_cur, set_snd, set_rcv,
  set_tcp, note_call,
}
use cmt_tcp.Options.{parse_options}
use cmt_tcp.Timer.{update_retransmission_timer}
use cmt_tcp.Segment.{Segment, Env, payloadlen, option_len}

abbrev pub default_mss : ℕ
default_mss = 1460

-- What lines 32 to 60 assign; the other fields keep what the chunk held.
unfoldable pub init_stream : ℕ → ℕ → ℕ → ℕ → ℕ → Stream → Send → Recv → Stream
init_stream iss saddr sport daddr dport chunk snd rcv = record chunk {
  saddr = saddr;
  sport = sport;
  daddr = daddr;
  dport = dport;
  state = listen;
  on_rto_idx = none;
  snd_nxt = iss;
  rcv_nxt = 0;
  snd = record snd {
    ip_id = 0;
    mss = default_mss;
    wscale_mine = 7;
    wscale_peer = 0;
    iss = iss;
    snd_una = iss;
    snd_wnd = 8192;
    rto = 500;
  };
  rcv = record rcv { irs = 0; rcv_wnd = 14600; snd_wl1 = 2 ^ 32 - 1 };
}

-- What is handed out is given back where a later pool is empty.
unfoldable pub create_tcp_stream :
    Env → ℕ → ℕ → ℕ → ℕ → Option Stream → Option Send → Option Recv → Act Bool
create_tcp_stream e saddr sport daddr dport none snd rcv = pure false
create_tcp_stream e saddr sport daddr dport (some chunk) none rcv = do
  note_call (free_stream chunk.id)
  pure false
create_tcp_stream e saddr sport daddr dport (some chunk) (some snd) none = do
  note_call (free_snd chunk.id)
  note_call (free_stream chunk.id)
  pure false
create_tcp_stream e saddr sport daddr dport (some chunk) (some snd) (some rcv) = do
  note_call (stream_ht_insert chunk.id)
  set_cur (λ s. init_stream (e.rand % (2 ^ 32 - 1)) saddr sport daddr dport chunk snd rcv)
  pure true

-- Lines 369 to 380, for the listener's address; `INADDR_ANY` is 0.
unfoldable pub accepts : ℕ → ℕ → SockAddr → Bool
accepts ip port addr =
    if addr.sin_port == port
    then (if not (addr.sin_addr == 0) then ip == addr.sin_addr else false)
    else false

unfoldable pub filter_listener : ℕ → ℕ → Option Listener → Act Bool
filter_listener ip port none = pure false
filter_listener ip port (some l) = do addr ← deref null_pointer l.s; pure (accepts ip port addr)

unfoldable pub filter_synpkt : ℕ → ℕ → Act Bool
filter_synpkt ip port = do t ← gets (λ c. c.tcp); filter_listener ip port (t.listeners port)

-- `cmt_tcp_parse_options` on the segment's options. Each round but a wrapped one goes on by a byte,
-- so that a round per byte is enough fuel for all but an endless loop. The options change the fields
-- that are copied here.
unfoldable pub read_options : ℕ → Segment → Act (Unit {0})
read_options cur_ts g = do
  s ← cur
  t ← deref diverges (parse_options g.option_byte (option_len g) (option_len g + 1) cur_ts 0 s)
  set_cur (λ s. record s {
    sack_permit = t.sack_permit;
    saw_timestamp = t.saw_timestamp;
    snd = record s.snd {
      mss = t.snd.mss;
      eff_mss = t.snd.eff_mss;
      wscale_peer = t.snd.wscale_peer;
    };
    rcv = record s.rcv { ts_recent = t.rcv.ts_recent; ts_last_ts_upd = t.rcv.ts_last_ts_upd };
  })

-- Lines 395 to 406.
unfoldable pub note_receive : Option RecvBuffer → Stream → Stream
note_receive none s = record s {
  state = closed;
  close_reason = no_mem;
  rcv = record s.rcv { rcvbuf = none };
}
note_receive (some b) s = record s { rcv = record s.rcv { rcvbuf = some b } }

unfoldable pub passive_open : Env → Segment → Act Bool
passive_open e g = do
  made ← create_tcp_stream e g.daddr g.dest g.saddr g.source e.stream_chunk e.snd_chunk e.recv_chunk
  branch (not made) (pure false) do
    set_rcv (λ r. record r { irs = g.seq })
    set_snd (λ d. record d { peer_wnd = g.window; cwnd = 1 })
    set_cur (λ s. record s { rcv_nxt = s.rcv.irs })
    set_cur (note_receive (e.recv_get (add32 g.seq 1)))
    read_options e.now g
    pure true

unfoldable pub active_open : Env → Segment → Act Bool
active_open e g = do
  set_rcv (λ r. record r { irs = g.seq; snd_wl1 = sub32 g.seq 1; last_ack_seq = g.ack_seq })
  set_snd (λ d. record d { peer_wnd = g.window })
  set_cur (λ s. record s { snd_nxt = g.ack_seq; rcv_nxt = add32 g.seq 1 })
  read_options e.now g
  set_snd (λ d. record d { cwnd = if d.cwnd == 1 then d.mss * 2 else d.mss; ssthresh = d.mss * 10 })
  update_retransmission_timer e.now
  pure true

-- An answer to the segment's sender, `CMT_TCPHDR_RST` being 4 and `CMT_TCPHDR_ACK` 16.
abbrev pub answer : Segment → ℕ → ℕ → ℕ → Act (Unit {0})
answer g seq ack_seq flags = note_call (
    tcppkt_alone (record {
      saddr = g.daddr;
      sport = g.dest;
      daddr = g.saddr;
      dport = g.source;
      seq = seq;
      ack_seq = ack_seq;
      flags = flags;
    }))

-- Lines 503 to 525.
unfoldable pub open_for_syn : Env → Segment → Act Bool
open_for_syn e g = do
  wanted ← filter_synpkt g.daddr g.dest
  branch (not wanted) (do answer g 0 (add32 (add32 g.seq (payloadlen g)) 1) 20; pure false)
      (do
        made ← passive_open e g
        branch made (pure true) do answer g 0 (add32 (add32 g.seq (payloadlen g)) 1) 20; pure false)

unfoldable pub create_stream : Env → Segment → Act Bool
create_stream e g = branch (g.syn && not g.ack) (open_for_syn e g) (
    branch g.rst (pure false) (
      branch g.ack (do answer g g.ack_seq 0 4; pure false)
        (do answer g 0 (add32 g.seq (payloadlen g)) 20; pure false)))
