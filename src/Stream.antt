-- ===== src/Stream.antt =====
-- The data of include/tcp.h, include/timer.h and include/tcp_buffer.h on which src/tcp.c and
-- src/timer.c work: one stream, and the manager of its core. A pointer to a stream in a list is
-- the stream's `id`. C flags are `Bool`, unsigned fields numbers, and an `int` its bit pattern.
use cmt_tcp.Prelude.{ℕ, Bool, Option, List, [], ◌∷◌, ◌++◌, ◌==◌}
use cmt_tcp.Run.{Run, gets, modify}

-- `CMT_TCP_FIN_CLOSING` of the enumeration is the `CMT_TCP_CLOSING` of the code, and
-- `CMT_TCP_CLOSE` its `CMT_TCP_CLOSED`.
pub data State : Type 0 where
  closed listen syn_sent syn_rcvd established close_wait : State
  fin_wait_1 closing last_ack fin_wait_2 time_wait : State

-- The enumerator's value, by which the code compares states.
abbrev pub rank : State → ℕ
rank closed = 0
rank listen = 1
rank syn_sent = 2
rank syn_rcvd = 3
rank established = 4
rank close_wait = 5
rank fin_wait_1 = 6
rank closing = 7
rank last_ack = 8
rank fin_wait_2 = 9
rank time_wait = 10

abbrev pub same_state : State → State → Bool
same_state a b = rank a == rank b

pub data CloseReason : Type 0 where
  not_closed active_close passive_close conn_fail conn_lost : CloseReason
  reset no_mem not_accepted timeout : CloseReason

-- `cmt_send_buffer_t`: `size` bytes from `data`, the payload from `head` on. `head` is kept as
-- its distance from `data`.
pub record SendBuffer : Type 0 where
  pub bytes : List ℕ
  pub head : ℕ
  pub head_off : ℕ
  pub tail_off : ℕ
  pub len : ℕ
  pub cum_len : ℕ
  pub size : ℕ
  pub head_seq : ℕ
  pub init_seq : ℕ

-- `cmt_recv_buffer_t`, with the `merged_len` and `size` that src/tcp.c reads.
pub record RecvBuffer : Type 0 where
  pub head_seq : ℕ
  pub merged_len : ℕ
  pub cum_len : ℕ
  pub size : ℕ

-- `cmt_tcp_recv_t`
pub record Recv : Type 0 where
  pub rcv_wnd : ℕ
  pub irs : ℕ
  pub snd_wl1 : ℕ
  pub snd_wl2 : ℕ
  pub dup_acks : ℕ
  pub last_ack_seq : ℕ
  pub ts_recent : ℕ
  pub ts_lastack_rcvd : ℕ
  pub ts_last_ts_upd : ℕ
  pub ts_tw_expire : ℕ
  pub srtt : ℕ
  pub mdev : ℕ
  pub mdev_max : ℕ
  pub rttvar : ℕ
  pub rtt_seq : ℕ
  pub rcvbuf : Option RecvBuffer

-- `cmt_tcp_send_t`
pub record Send : Type 0 where
  pub ip_id : ℕ
  pub mss : ℕ
  pub eff_mss : ℕ
  pub wscale_mine : ℕ
  pub wscale_peer : ℕ
  pub snd_una : ℕ
  pub snd_wnd : ℕ
  pub peer_wnd : ℕ
  pub iss : ℕ
  pub fss : ℕ
  pub nrtx : ℕ
  pub max_nrtx : ℕ
  pub rto : ℕ
  pub ts_rto : ℕ
  pub cwnd : ℕ
  pub ssthresh : ℕ
  pub is_wack : Bool
  pub ack_cnt : ℕ
  pub on_control_list : Bool
  pub on_send_list : Bool
  pub on_ack_list : Bool
  pub on_closeq : Bool
  pub on_resetq : Bool
  pub on_closeq_int : Bool
  pub on_resetq_int : Bool
  pub is_fin_sent : Bool
  pub sndbuf : Option SendBuffer

-- `cmt_socket_t`, of which the code reads the option `NTY_TCP_NONBLOCK`.
pub record Socket : Type 0 where
  pub nonblock : Bool

-- `cmt_tcp_stream_t`; `sndvar` and `snd`, `rcvvar` and `rcv` are one pointer each. `on_rto_idx` is
-- `none` for a negative value. `last_active_ts` and `id` are fields that only the code names.
pub record Stream : Type 0 where
  pub id : ℕ
  pub s : Option Socket
  pub socket : Bool
  pub saddr : ℕ
  pub daddr : ℕ
  pub sport : ℕ
  pub dport : ℕ
  pub state : State
  pub close_reason : CloseReason
  pub on_timewait_list : Bool
  pub on_rto_idx : Option ℕ
  pub on_timeout_list : Bool
  pub saw_timestamp : Bool
  pub sack_permit : Bool
  pub control_list_waiting : Bool
  pub have_reset : Bool
  pub last_active_ts : ℕ
  pub snd_nxt : ℕ
  pub rcv_nxt : ℕ
  pub snd : Send
  pub rcv : Recv

-- `cmt_sender_t`
pub record Sender : Type 0 where
  pub control_list : List ℕ
  pub send_list : List ℕ
  pub ack_list : List ℕ
  pub control_list_cnt : ℕ
  pub send_list_cnt : ℕ
  pub ack_list_cnt : ℕ

-- `cmt_rto_hashstore_t`: the lists of `RTO_HASH` slots, and in slot `RTO_HASH` those further off.
pub record RtoStore : Type 0 where
  pub rto_now_idx : ℕ
  pub rto_now_ts : ℕ
  pub rto_list : ℕ → List ℕ

-- A segment that is passed to `cmt_tcppkt_alone`.
pub record Packet : Type 0 where
  pub saddr : ℕ
  pub sport : ℕ
  pub daddr : ℕ
  pub dport : ℕ
  pub seq : ℕ
  pub ack_seq : ℕ
  pub flags : ℕ

-- Calls of functions whose bodies are empty or outside the repository.
pub data Call : Type 0 where
  tcppkt_alone : Packet → Call
  stream_destroy : ℕ → Call
  flush_read_event : ℕ → Call
  free_snd : ℕ → Call
  free_stream : ℕ → Call
  stream_ht_insert : ℕ → Call

-- A listener's `acceptq`: a circular array of `capacity + 1` places.
pub record AcceptQueue : Type 0 where
  pub capacity : ℕ
  pub head : ℕ
  pub tail : ℕ
  pub slots : ℕ → ℕ

-- `s_addr` of a listening socket, in network byte order.
pub record SockAddr : Type 0 where
  pub sin_port : ℕ
  pub sin_addr : ℕ

-- `cmt_tcp_listener_t`, with the socket `s` that src/tcp.c reads from it.
pub record Listener : Type 0 where
  pub s : Option SockAddr
  pub acceptq : AcceptQueue

-- The part of `cmttcp_manager_per_cpu_t` that a segment's handling changes, with the calls made.
pub record Manager : Type 0 where
  pub sender : Sender
  pub rto_store : RtoStore
  pub rto_list_cnt : ℕ
  pub timewait_list : List ℕ
  pub timewait_list_cnt : ℕ
  pub timeout_list : List ℕ
  pub timeout_list_cnt : ℕ
  pub listeners : ℕ → Option Listener
  pub calls : List Call

-- What `cur_stream` and `tcp` point to.
pub record Ctx : Type 0 where
  pub tcp : Manager
  pub cur : Stream

abbrev pub Act : Type 0 → Type 0
Act A = Run Ctx A

-- Assignments to fields of `*cur_stream`, of its `sndvar` and `rcvvar`, and of `*tcp`.
abbrev pub set_cur : (Stream → Stream) → Act (Unit {0})
set_cur f = modify (λ c. record c { cur = f c.cur })

abbrev pub set_snd : (Send → Send) → Act (Unit {0})
set_snd f = modify (λ c. record c { cur = record c.cur { snd = f c.cur.snd } })

abbrev pub set_rcv : (Recv → Recv) → Act (Unit {0})
set_rcv f = modify (λ c. record c { cur = record c.cur { rcv = f c.cur.rcv } })

abbrev pub set_tcp : (Manager → Manager) → Act (Unit {0})
set_tcp f = modify (λ c. record c { tcp = f c.tcp })

abbrev pub cur : Act Stream
cur = gets (λ c. c.cur)

abbrev pub note_call : Call → Act (Unit {0})
note_call k = set_tcp (λ t. record t { calls = t.calls ++ k ∷ [] })
