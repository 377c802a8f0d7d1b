-- ===== src/Connect/Created.antt =====
-- A stream that `create_tcp_stream` takes from the pools, for a segment of no known stream.
use cmt_tcp.Prelude.{ℕ, ◌≡◌, refl, Bool, true, false, Option, none, some}
use cmt_tcp.Run.{Run, pure, modify, ◌>>=◌, ◌>>◌}
use cmt_tcp.Run.Keeps.{Triple, Keeps, Triple-bind, Triple-branch, Triple-strengthen, keeps_rules}
use cmt_tcp.Stream.{RecvBuffer, Recv, Send, Stream, Ctx, Listener, set_cur}
use cmt_tcp.Filed.{IsFiled}
use cmt_tcp.Segment.{Segment, Env}
use cmt_tcp.Connect.{
  answer, init_stream, create_tcp_stream, filter_listener, filter_synpkt, note_receive,
  passive_open, open_for_syn, create_stream,
}
use cmt_tcp.Connect.Filing.{read_options-IsFiled}

-- The stream is filed, and so are the chunks that a new stream would be made of, in no slot: none
-- of their flags is set without the chunk's standing in that list.
abbrev pub IsReady : Env → Ctx → Type 0
IsReady e c =
    IsFiled c
    × ((k : Stream) (d : Send)
        → e.stream_chunk ≡ some k
        → e.snd_chunk ≡ some d
        → IsFiled (record c { cur = record k { on_rto_idx = none; snd = d } }))

-- What a segment finds, where the flow table knows its stream and where it does not.
abbrev pub Finds : Env → Bool → Ctx → Type 0
Finds e true = IsFiled
Finds e false = IsReady e

module _ (e : Env) where
  create_tcp_stream-IsFiled :
      (saddr sport daddr dport : ℕ) (k : Option Stream) (d : Option Send) (r : Option Recv)
      → e.stream_chunk ≡ k
      → e.snd_chunk ≡ d
      → Triple (IsReady e) (create_tcp_stream e saddr sport daddr dport k d r) IsFiled
  unfolding create_tcp_stream init_stream modify pure ◌>>=◌
  create_tcp_stream-IsFiled saddr sport daddr dport none d r ek ed = record { at = λ c h. h.0 }
  create_tcp_stream-IsFiled saddr sport daddr dport (some k) none r ek ed = record {
    at = λ c h. h.0;
  }
  create_tcp_stream-IsFiled saddr sport daddr dport (some k) (some d) none ek ed = record {
    at = λ c h. h.0;
  }
  create_tcp_stream-IsFiled saddr sport daddr dport (some k) (some d) (some r) ek ed = record {
    at = λ c h. h.1 k d ek ed;
  }

  note_receive-IsFiled : (o : Option RecvBuffer) → Keeps IsFiled (set_cur (note_receive o))
  unfolding note_receive modify
  note_receive-IsFiled none = record { at = λ c h. h }
  note_receive-IsFiled (some b) = record { at = λ c h. h }

  filter_listener-IsReady :
      (ip port : ℕ) (l : Option Listener) → Keeps (IsReady e) (filter_listener ip port l)
  unfolding filter_listener
  filter_listener-IsReady ip port none = search keeps_rules
  filter_listener-IsReady ip port (some l) = search keeps_rules depth 12

  filter_synpkt-IsReady : (ip port : ℕ) → Keeps (IsReady e) (filter_synpkt ip port)
  unfolding filter_synpkt
  filter_synpkt-IsReady ip port = search (keeps_rules, filter_listener-IsReady) depth 12

  passive_open-IsFiled : (g : Segment) → Triple (IsReady e) (passive_open e g) IsFiled
  unfolding passive_open
  passive_open-IsFiled g =
      Triple-bind {R = IsFiled} _ _
        (create_tcp_stream-IsFiled g.daddr g.dest g.saddr g.source e.stream_chunk e.snd_chunk
          e.recv_chunk refl refl)
        (λ made. search (keeps_rules, note_receive-IsFiled, read_options-IsFiled) depth 16)

  refused-IsFiled :
      (g : Segment) (seq ack_seq flags : ℕ)
      → Keeps IsFiled (do answer g seq ack_seq flags; pure false)
  refused-IsFiled g seq ack_seq flags = search keeps_rules depth 12

  filed : {A : Type 0} {m : Run Ctx A} → Keeps IsFiled m → Triple (IsReady e) m IsFiled
  filed = Triple-strengthen (λ c h. h.0)

  open_for_syn-IsFiled : (g : Segment) → Triple (IsReady e) (open_for_syn e g) IsFiled
  unfolding open_for_syn
  open_for_syn-IsFiled g =
      Triple-bind {R = IsReady e} _ _ (filter_synpkt-IsReady g.daddr g.dest) (λ wanted.
        Triple-branch _ _ _ (λ unwanted. filed (refused-IsFiled g _ _ _))
          (λ accepted.
            Triple-bind {R = IsFiled} _ _ (passive_open-IsFiled g)
              (λ made. search (keeps_rules, refused-IsFiled) depth 12)))

  pub create_stream-IsFiled : (g : Segment) → Triple (IsReady e) (create_stream e g) IsFiled
  unfolding create_stream
  create_stream-IsFiled g =
      Triple-branch _ _ _ (λ syn. open_for_syn-IsFiled g)
        (λ other. filed (search (keeps_rules, refused-IsFiled) depth 12))
