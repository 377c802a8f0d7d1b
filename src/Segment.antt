-- ===== src/Segment.antt =====
-- A TCP segment as src/tcp.c reads it, and what the code takes from outside: results of pools,
-- clocks, random numbers, and functions whose bodies the repository does not have.
use cmt_tcp.Prelude.{ℕ, ◌-◌, ◌*◌, Bool, Option, List, sub32}
use cmt_tcp.Stream.{RecvBuffer, Recv, Send, Stream, Act}

-- The fields of the headers, in host order where the code converts them. `words` and `odd` are the
-- `tcp_len` bytes from the TCP header on as 16-bit words, and `option_byte` the bytes of its options.
pub record Segment : Type 0 where
  pub ihl : ℕ
  pub tot_len : ℕ
  pub saddr : ℕ
  pub daddr : ℕ
  pub source : ℕ
  pub dest : ℕ
  pub seq : ℕ
  pub ack_seq : ℕ
  pub doff : ℕ
  pub syn : Bool
  pub ack : Bool
  pub rst : Bool
  pub fin : Bool
  pub window : ℕ
  pub words : List ℕ
  pub odd : Option ℕ
  pub option_byte : ℕ → ℕ
  pub payload : List ℕ

-- `recv_get`, `recv_put` and `recv_remove` name variables that are not declared; `NextIndex` and
-- `cmt_tcp_handle_close_wait` are not defined; the chunks are what the object pools hand out.
pub record Env : Type 0 where
  pub now : ℕ
  pub proto_tcp : ℕ
  pub rand : ℕ
  pub stream_chunk : Option Stream
  pub snd_chunk : Option Send
  pub recv_chunk : Option Recv
  pub recv_get : ℕ → Option RecvBuffer
  pub recv_put : RecvBuffer → List ℕ → ℕ → ℕ → RecvBuffer
  pub recv_remove : RecvBuffer → ℕ → RecvBuffer
  pub next_index : ℕ → ℕ → ℕ
  pub handle_close_wait : Segment → Act (Unit {0})

-- `tcp_len` and `payloadlen`, bit patterns of an `int`.
abbrev pub tcp_len : Segment → ℕ
tcp_len g = sub32 g.tot_len (g.ihl * 4)

abbrev pub payloadlen : Segment → ℕ
payloadlen g = sub32 (tcp_len g) (g.doff * 4)

-- The length of the options; where it is negative the loops over the options end at once.
abbrev pub option_len : Segment → ℕ
option_len g = g.doff * 4 - 20
