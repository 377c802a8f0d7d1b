-- ===== src/Tests/Data.antt =====
-- Concrete streams, managers and segments.
use cmt_tcp.Prelude.{◌+◌, ◌==◌, if◌then◌else◌, true, false, none, some, [], ◌∷◌}
use cmt_tcp.Run.{pure}
use cmt_tcp.Stream.{State, not_closed, SendBuffer, Recv, Send, Stream, Manager, Ctx}
use cmt_tcp.Segment.{Segment, Env}

-- Four bytes in a buffer of eight.
abbrev pub buffer : SendBuffer
buffer = record {
  bytes = 1 ∷ 2 ∷ 3 ∷ 4 ∷ 0 ∷ 0 ∷ 0 ∷ 0 ∷ [];
  head = 0;
  head_off = 0;
  tail_off = 4;
  len = 4;
  cum_len = 4;
  size = 8;
  head_seq = 100;
  init_seq = 100;
}

abbrev pub recv : Recv
recv = record {
  rcv_wnd = 1000;
  irs = 499;
  snd_wl1 = 498;
  snd_wl2 = 100;
  dup_acks = 3;
  last_ack_seq = 100;
  ts_recent = 0;
  ts_lastack_rcvd = 0;
  ts_last_ts_upd = 0;
  ts_tw_expire = 0;
  srtt = 0;
  mdev = 0;
  mdev_max = 0;
  rttvar = 0;
  rtt_seq = 0;
  rcvbuf = some (record { head_seq = 500; merged_len = 0; cum_len = 0; size = 1000 });
}

abbrev pub send : Send
send = record {
  ip_id = 0;
  mss = 1460;
  eff_mss = 1448;
  wscale_mine = 7;
  wscale_peer = 0;
  snd_una = 100;
  snd_wnd = 4;
  peer_wnd = 20000;
  iss = 99;
  fss = 0;
  nrtx = 2;
  max_nrtx = 2;
  rto = 500;
  ts_rto = 0;
  cwnd = 10000;
  ssthresh = 14600;
  is_wack = false;
  ack_cnt = 0;
  on_control_list = false;
  on_send_list = false;
  on_ack_list = false;
  on_closeq = false;
  on_resetq = false;
  on_closeq_int = false;
  on_resetq_int = false;
  is_fin_sent = false;
  sndbuf = some buffer;
}

abbrev pub stream : State → Stream
stream st = record {
  id = 7;
  s = none;
  socket = false;
  saddr = 1;
  daddr = 2;
  sport = 80;
  dport = 4000;
  state = st;
  close_reason = not_closed;
  on_timewait_list = false;
  on_rto_idx = none;
  on_timeout_list = false;
  saw_timestamp = false;
  sack_permit = false;
  control_list_waiting = false;
  have_reset = false;
  last_active_ts = 0;
  snd_nxt = 104;
  rcv_nxt = 500;
  snd = send;
  rcv = recv;
}

abbrev pub manager : Manager
manager = record {
  sender = record {
    control_list = [];
    send_list = [];
    ack_list = [];
    control_list_cnt = 0;
    send_list_cnt = 0;
    ack_list_cnt = 0;
  };
  rto_store = record { rto_now_idx = 0; rto_now_ts = 0; rto_list = λ i. [] };
  rto_list_cnt = 0;
  timewait_list = [];
  timewait_list_cnt = 0;
  timeout_list = [];
  timeout_list_cnt = 0;
  listeners = λ p. none;
  calls = [];
}

abbrev pub ctx : State → Ctx
ctx st = record { tcp = manager; cur = stream st }

-- Nothing is handed out by the pools, and received payloads are not kept.
abbrev pub env : Env
env = record {
  now = 1000;
  proto_tcp = 6;
  rand = 5;
  stream_chunk = none;
  snd_chunk = none;
  recv_chunk = none;
  recv_get = λ n. none;
  recv_put = λ b xs len seq. b;
  recv_remove = λ b n. b;
  next_index = λ cap i. if i == cap then 0 else i + 1;
  handle_close_wait = λ g. pure tt;
}

-- A FIN that acknowledges two of the four bytes, with one word that makes its checksum right.
abbrev pub segment : Segment
segment = record {
  ihl = 5;
  tot_len = 40;
  saddr = 2;
  daddr = 1;
  source = 4000;
  dest = 80;
  seq = 500;
  ack_seq = 102;
  doff = 5;
  syn = false;
  ack = true;
  rst = false;
  fin = true;
  window = 20000;
  words = 58876 ∷ [];
  odd = none;
  option_byte = λ i. 0;
  payload = [];
}
