-- ===== src/Accept.antt =====
-- The accept queue of src/tcp_buffer.c (`stream_enqueue`, `stream_dequeue`), which is a circular
-- array. `NextIndex` is not in the repository and is a parameter. A result of -1 is `false`.
pub mod Queue
use cmt_tcp.Prelude.{ℕ, Bool, true, false, Option, none, some, ◌==◌, if◌then◌else◌}
use cmt_tcp.Stream.{AcceptQueue}

module _ (next_index : ℕ → ℕ → ℕ) where
  unfoldable pub stream_enqueue : AcceptQueue → ℕ → Bool × AcceptQueue
  stream_enqueue q id = if next_index q.capacity q.tail == q.head then (false, q) else (
    true,
    record q {
      slots = λ i. if i == q.tail then id else q.slots i;
      tail = next_index q.capacity q.tail;
    },
  )

  -- `none` is a result of NULL.
  unfoldable pub stream_dequeue : AcceptQueue → Option ℕ × AcceptQueue
  stream_dequeue q =
      if q.head == q.tail
      then (none, q)
      else (some (q.slots q.head), record q { head = next_index q.capacity q.head })
