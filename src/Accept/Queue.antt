-- ===== src/Accept/Queue.antt =====
-- The accept queue of src/tcp_buffer.c is a bounded queue of streams.
use cmt_tcp.Prelude.{
  ℕ, zero, suc, ◌+◌, ◌-◌, ◌≤◌, ◌<◌, ◌≡◌, ◌⊎◌, refl, ap, ◌∙◌, true, false, some, List, [], ◌∷◌, ◌++◌,
  arith, leb, ◌==◌, if◌then◌else◌,
}
use cmt_tcp.Stream.{AcceptQueue}
use cmt_tcp.Accept.{stream_enqueue, stream_dequeue}

-- The place after `i` in a circular array with places 0 to `cap`.
abbrev pub after : ℕ → ℕ → ℕ
after cap i = if i == cap then 0 else i + 1

-- The `n` entries from place `h` on.
items : ℕ → (ℕ → ℕ) → ℕ → ℕ → List ℕ
items cap f zero h = []
items cap f (suc n) h = f h ∷ items cap f n (after cap h)

abbrev pub queued : AcceptQueue → ℕ
queued q = if leb q.head q.tail then q.tail - q.head else q.tail + q.capacity + 1 - q.head

-- The streams that wait, the oldest first.
pub contents : AcceptQueue → List ℕ
unfolding items
contents q = items q.capacity q.slots (queued q) q.head

pub record IsQueue (q : AcceptQueue) : Type 0 where
  pub head_inside : q.head ≤ q.capacity
  pub tail_inside : q.tail ≤ q.capacity

put : (ℕ → ℕ) → ℕ → ℕ → ℕ → ℕ
put f t x i = if i == t then x else f i

module _ (cap : ℕ) (f : ℕ → ℕ) (t x : ℕ) where
  -- A new entry behind `n` others does not touch them.
  items-put :
      (n h : ℕ)
      → h ≤ cap
      → t ≤ cap
      → n ≤ cap
      → (h + n ≡ t) ⊎ (h + n ≡ t + cap + 1)
      → items cap (put f t x) (suc n) h ≡ items cap f n h ++ x ∷ []
  unfolding items put
  items-put zero h inside end room at_end = ap (λ y. y ∷ []) (ground (arith, at_end))
  items-put (suc n) h inside end room at_end =
      let other : put f t x h ≡ f h = ground (arith, at_end) in
      let rest =
        items-put n (after cap h) (ground arith) end (omega arith) (ground (arith, at_end)) in
      (λ i. other i ∷ rest i)

module _ (next : ℕ → ℕ → ℕ) (wraps : (cap i : ℕ) → i ≤ cap → next cap i ≡ after cap i)
    (q : AcceptQueue) (v : IsQueue q) where
  -- Where `NextIndex` steps to the next place, a valid queue that is not full takes a stream at its end, and stays valid.
  pub contents-stream_enqueue :
      (x : ℕ)
      → queued q < q.capacity
      → ((stream_enqueue next q x).0 ≡ true)
        × (contents (stream_enqueue next q x).1 ≡ contents q ++ x ∷ [])
        × IsQueue (stream_enqueue next q x).1
  unfolding stream_enqueue contents put
  contents-stream_enqueue x room =
      let e : next q.capacity q.tail ≡ after q.capacity q.tail =
        wraps q.capacity q.tail v.tail_inside in
      let q' : AcceptQueue = record q {
        slots = put q.slots q.tail x;
        tail = after q.capacity q.tail;
      } in
      let space : (after q.capacity q.tail == q.head) ≡ false = ground (arith, v) in
      let ran : stream_enqueue next q x ≡ (true, q') = rw e (rw space refl) in
      let longer : queued q' ≡ suc (queued q) = ground (arith, v) in
      rw ran (
        refl,
        ap (λ n. items q.capacity (put q.slots q.tail x) n q.head) longer
            ∙ items-put q.capacity q.slots q.tail x (queued q) q.head v.head_inside v.tail_inside
                (omega (arith, room)) (ground (arith, v)),
        record { head_inside = v.head_inside; tail_inside = ground (arith, v) },
      )

  -- Where `NextIndex` steps to the next place, a full, valid queue refuses a stream and is not changed.
  pub stream_enqueue_full : (x : ℕ) → queued q ≡ q.capacity → stream_enqueue next q x ≡ (false, q)
  unfolding stream_enqueue
  stream_enqueue_full x full =
      let e : next q.capacity q.tail ≡ after q.capacity q.tail =
        wraps q.capacity q.tail v.tail_inside in
      rw e (ground (arith, v))

  -- Where `NextIndex` steps to the next place, a valid queue that is not empty gives its oldest stream, which leaves it, and stays valid.
  pub contents-stream_dequeue :
      0 < queued q
      → ((stream_dequeue next q).0 ≡ some (q.slots q.head))
        × (contents q ≡ q.slots q.head ∷ contents (stream_dequeue next q).1)
        × IsQueue (stream_dequeue next q).1
  unfolding stream_dequeue contents items
  contents-stream_dequeue waiting =
      let e : next q.capacity q.head ≡ after q.capacity q.head =
        wraps q.capacity q.head v.head_inside in
      let q' : AcceptQueue = record q { head = after q.capacity q.head } in
      let some_there : (q.head == q.tail) ≡ false = ground (arith, v) in
      let ran : stream_dequeue next q ≡ (some (q.slots q.head), q') = rw some_there (rw e refl) in
      let shorter : queued q ≡ suc (queued q') = ground (arith, v) in
      rw ran (
        refl,
        ap (λ n. items q.capacity q.slots n q.head) shorter,
        record { head_inside = ground (arith, v); tail_inside = v.tail_inside },
      )
