-- ===== src/Tests/Segments.antt =====
-- Whole segments and timers at a concrete stream.
use cmt_tcp.Prelude.{
  ℕ, ◌==◌, ◌&&◌, ◌||◌, if◌then◌else◌, Bool, List, ◌∷◌, get_or, ◌+◌, ◌≡◌, refl, subst, count-nil,
  true, false, none, some, [], arith,
}
use mathlib.Core.Option.{some-injective}
use cmt_tcp.Run.Keeps.{Returns, Triple, Triple-pure, Keeps-pure}
use cmt_tcp.Stream.{
  Stream, RecvBuffer, SockAddr, Listener, Ctx, closed, syn_rcvd, established, fin_wait_1,
}
use cmt_tcp.Filed.{IsFiled}
use cmt_tcp.Member.{IsMember}
use cmt_tcp.Segment.{Segment, Env}
use cmt_tcp.Connect.Created.{IsReady}
use cmt_tcp.States.{InState}
use cmt_tcp.States.Link.{Settled, settle}
use cmt_tcp.States.Exclusive.{process-Settled}
use cmt_tcp.States.Segments.{Follows, may_reset, process-Follows, process_rst-may_reset}
use cmt_tcp.Accept.Queue.{IsQueue}
use cmt_tcp.Handlers.{handle_syn_rcvd}
use cmt_tcp.Handlers.Established.{IsEstablished, handle_syn_rcvd-IsEstablished}
use cmt_tcp.Options.Parsed.{known_kind, option_end}
use cmt_tcp.Process.{process}
use cmt_tcp.Process.Filing.{process-IsFiled}
use cmt_tcp.Receive.{process_rst}
use cmt_tcp.Tests.Data.{env, segment, send, recv, stream, manager, ctx}

abbrev timed : Stream
timed = record (stream established) { rcv = record recv { srtt = 80; rttvar = 30 } }

-- A SYN for a listening port, and pools that hand out a stream.
abbrev stocked : Env
stocked = record env {
  stream_chunk = some (stream closed);
  snd_chunk = some send;
  recv_chunk = some recv;
}

abbrev syn_segment : Segment
syn_segment = record segment { syn = true; ack = false; fin = false }

process-IsFiled_example : Triple (IsReady stocked) (process stocked syn_segment false) IsFiled
process-IsFiled_example = process-IsFiled stocked syn_segment (Keeps-pure tt) false

alone : IsMember 7 false [] 0
alone = record { once = ground (arith, count-nil 7); counted = refl }

filed : IsFiled (ctx closed)
filed = (alone, alone, alone, alone, alone, record { at = λ j. count-nil 7 })

stocked-IsReady : IsReady stocked (ctx closed)
stocked-IsReady = (
  filed,
  λ k d ek ed.
      subst (λ k. IsFiled (record (ctx closed) { cur = record k { on_rto_idx = none; snd = d } }))
        (some-injective _ _ ek)
        (subst
          (λ d.
            IsFiled
              (record (ctx closed) { cur = record (stream closed) { on_rto_idx = none; snd = d } }))
          (some-injective _ _ ed) filed),
)

process-Settled_example : Triple Settled (process env segment true) Settled
process-Settled_example = process-Settled env segment (Triple-pure tt settle)

process-Follows_example :
    Triple
      (InState (λ t b. t ≡ established))
      (process env segment true)
      (InState (Follows established))
process-Follows_example = process-Follows env segment established refl

process_rst-may_reset_example :
    Returns
      (λ d. may_reset fin_wait_1 d.cur.state ≡ true)
      (process_rst env segment (ctx fin_wait_1))
process_rst-may_reset_example = process_rst-may_reset env segment (ctx fin_wait_1)

abbrev received : RecvBuffer
received = record { head_seq = 501; merged_len = 0; cum_len = 0; size = 4096 }

abbrev web : SockAddr
web = record { sin_addr = 1; sin_port = 80 }

abbrev door : Listener
door = record {
  s = some web;
  acceptq = record { capacity = 4; head = 0; tail = 0; slots = λ i. 0 };
}

abbrev ready_env : Env
ready_env = record stocked { recv_get = λ n. some received }

abbrev listening : Ctx
listening = record { tcp = record manager { listeners = λ p. some door }; cur = stream closed }

-- The options of a usual SYN: the segment size, SACK, a timestamp that echoes 0, and the scale.
abbrev options : List ℕ
options = 2 ∷ 4 ∷ 5 ∷ 180 ∷ 4 ∷ 2 ∷ 8 ∷ 10 ∷ 0 ∷ 0 ∷ 3 ∷ 232 ∷ 0 ∷ 0 ∷ 0 ∷ 0 ∷ 1 ∷ 3 ∷ 3 ∷ 7 ∷ []

abbrev option_mem : ℕ → ℕ
option_mem i = get_or options i 0

abbrev usual_syn : Segment
usual_syn = record syn_segment {
  tot_len = 60;
  doff = 10;
  words = 53756 ∷ [];
  option_byte = option_mem;
}

abbrev starts : ℕ → Bool
starts i = (i == 0) || (i == 4) || (i == 6) || (i == 16) || (i == 17) || (i == 20)

module _ (mem : ℕ → ℕ) (len : ℕ) (start : ℕ → Bool) where
  -- An option begins where one ends, and its kind is known.
  abbrev goes_on : ℕ → Bool
  goes_on i =
      if start i
      then known_kind (mem i)
        && (if mem i == 1 then start (i + 1) else start (option_end (mem i) (mem (i + 1)) i))
      else true

-- The listener's queue has room for four.
door-IsQueue : IsQueue door.acceptq
door-IsQueue = record { head_inside = omega arith; tail_inside = omega arith }

abbrev half_open : Ctx
half_open = record listening { cur = stream syn_rcvd }

abbrev third : Segment
third = record segment { ack_seq = send.iss + 1; fin = false }

handle_syn_rcvd-IsEstablished_example :
    Returns (IsEstablished 80 door.acceptq half_open) (handle_syn_rcvd env third half_open)
handle_syn_rcvd-IsEstablished_example =
    handle_syn_rcvd-IsEstablished env third half_open door refl refl refl refl (λ cap i h. refl)
      door-IsQueue (omega arith)
