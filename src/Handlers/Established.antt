-- ===== src/Handlers/Established.antt =====
-- The third segment of a handshake: `cmt_tcp_handle_syn_rcvd` of src/tcp.c.
use cmt_tcp.Prelude.{
  ℕ, ◌<◌, ◌≤◌, ◌≡◌, refl, inl, inr, Option-cases, true, false, Option, none, some, [], ◌∷◌, ◌++◌,
  ◌==◌, ==_refl, if◌then◌else◌, arith, add32,
}
use cmt_tcp.Run.{pure, branch, gets, modify, deref, ◌>>=◌}
use cmt_tcp.Run.Keeps.{Returns}
use cmt_tcp.Stream.{established, AcceptQueue, Listener, Ctx}
use cmt_tcp.Accept.{stream_enqueue}
use cmt_tcp.Accept.Queue.{IsQueue, contents, queued, after, contents-stream_enqueue}
use cmt_tcp.Timer.{remove_from_rto_list, add_to_timeout_list}
use cmt_tcp.Segment.{Segment, Env}
use cmt_tcp.Handlers.{offer_accept, handle_syn_rcvd}

-- The listener's queue, `q` before, has the stream behind the others.
abbrev pub Offered : ℕ → AcceptQueue → ℕ → (ℕ → Option Listener) → Type 0
Offered port q id listeners =
    (l : Listener) × (listeners port ≡ some l)
    × (contents l.acceptq ≡ contents q ++ id ∷ [])
    × IsQueue l.acceptq

-- The stream is established and waits to be accepted behind the others; it is in no slot, and at
-- the end of the list of the idle.
pub record IsEstablished (port : ℕ) (q : AcceptQueue) (c c' : Ctx) : Type 0 where
  pub state : c'.cur.state ≡ established
  pub acknowledged : c'.cur.snd.snd_una ≡ add32 c.cur.snd.snd_una 1
  pub unslotted : c'.cur.on_rto_idx ≡ none
  pub timed : c'.tcp.timeout_list ≡ c.tcp.timeout_list ++ c.cur.id ∷ []
  pub offered : Offered port q c.cur.id c'.tcp.listeners

module _ (e : Env) (g : Segment) (c : Ctx) (l : Listener) where
  module _ (acked : g.ack ≡ true) (ours : g.ack_seq ≡ add32 c.cur.snd.iss 1)
      (bound : c.tcp.listeners g.dest ≡ some l) (idle : c.cur.on_timeout_list ≡ false) where
    -- In SYN_RCVD, an acknowledgement of our SYN on a port with a listener whose valid queue has
    -- room, where `NextIndex` steps to the next place of it and the stream is not on the list of
    -- the idle: the process is not stopped, and the stream is established as `IsEstablished` says.
    pub handle_syn_rcvd-IsEstablished :
        ((cap i : ℕ) → i ≤ cap → e.next_index cap i ≡ after cap i)
        → IsQueue l.acceptq
        → queued l.acceptq < l.acceptq.capacity
        → Returns (IsEstablished g.dest l.acceptq c) (handle_syn_rcvd e g c)
    unfolding handle_syn_rcvd offer_accept remove_from_rto_list add_to_timeout_list ◌>>=◌ pure
        branch gets modify deref
    handle_syn_rcvd-IsEstablished wraps v room =
        let right : (g.ack_seq == add32 c.cur.snd.iss 1) ≡ true = ground (arith, ours) in
        let put = contents-stream_enqueue e.next_index wraps l.acceptq v c.cur.id room in
        let there : Offered g.dest l.acceptq c.cur.id (λ p.
          if p == g.dest
          then some (record l { acceptq = (stream_enqueue e.next_index l.acceptq c.cur.id).1 })
          else c.tcp.listeners p) =
          (
            record l { acceptq = (stream_enqueue e.next_index l.acceptq c.cur.id).1 },
            rw (==_refl g.dest) refl,
            put.1,
            put.2,
          ) in
        elim (Option-cases c.cur.on_rto_idx) [
          | inl free ↦
              rw (acked, right, free, bound, put.0, idle)
                (record {
                  state = refl;
                  acknowledged = refl;
                  unslotted = refl;
                  timed = refl;
                  offered = there;
                })
          | inr (k, slot) ↦
              rw (acked, right, slot, bound, put.0, idle)
                (record {
                  state = refl;
                  acknowledged = refl;
                  unslotted = refl;
                  timed = refl;
                  offered = there;
                })
        ]
