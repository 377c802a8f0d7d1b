-- ===== src/Tests/Threads.antt =====
-- Interleaved calls on a ring at concrete values.
use cmt_tcp.Prelude.{ℕ, add32, ◌+◌, ◌<◌, ◌≡◌, refl, arith}
use cmt_tcp.Tests.Rings.{ring, ring-IsRing}
use cmt_tcp.Ring.Threads.{
  idle, reserved, Shared, at, Step, publish, consume, Reach, here, next, fresh,
}
use cmt_tcp.Ring.Threads.Reserved.{IsShared}
use cmt_tcp.Ring.Threads.Alone.{reserving, reserve, called, Agrees, called-Agrees}
use cmt_tcp.Ring.Batch.{with_batch, Appends}
use cmt_tcp.Ring.Threads.Progress.{Reach-IsShared, publish_enabled, overtaken_waits}

-- Producer 0 has reserved no place and producer 1, at the same index, two.
abbrev both : Shared
both = reserving (reserving (fresh 3) 0 0) 1 2

abbrev both-reached : Reach (fresh 3) both
both-reached = reserve (fresh 3) _ 1 2 (reserve (fresh 3) _ 0 0 here refl) refl

Reach-IsShared_example : IsShared both
Reach-IsShared_example = Reach-IsShared 3 both both-reached (omega arith) (omega arith)

publish_enabled_example :
    (t : ℕ) × (n : ℕ) × (0 < n)
    × (both.threads t ≡ reserved 0 n)
    × Step both (record both { prod_tail = add32 0 n; threads = at both t idle })
publish_enabled_example =
    publish_enabled 3 both both-reached (omega arith) (omega arith) (omega arith)

-- Producer 1 has published first.
abbrev passed : Shared
passed = record both { prod_tail = 2; threads = at both 1 idle }

abbrev passed-reached : Reach (fresh 3) passed
passed-reached = next both-reached (publish both 1 0 2 refl refl)

abbrev taken : Reach passed (record passed { cons_tail = 2 })
taken = next here (consume passed 2 (omega arith))

overtaken_waits_example : (passed.threads 0 ≡ reserved 0 0) × (0 < 2)
overtaken_waits_example =
    overtaken_waits 3 passed _ 0 0 0 passed-reached taken (omega arith) (omega arith) refl
      (omega arith)

-- One object behind three that have left, and nobody in a call.
abbrev quiet : Shared
quiet = record { mask = 3; prod_head = 4; prod_tail = 4; cons_tail = 3; threads = λ t. idle }

called-Agrees_example :
    (slots : ℕ → ℕ) × Appends (λ i. i + 20) (ring 0) 5 (ring-IsRing 0) slots
    × Reach quiet (called quiet 6 5)
    × Agrees (called quiet 6 5) (with_batch (ring 0) 5 slots)
called-Agrees_example =
    called-Agrees (λ i. i + 20) quiet (ring 0) 6 5 (ring-IsRing 0)
      (record { masks = refl; heads = refl; tails = refl; conss = refl }) refl (omega arith)
      (omega arith) (omega arith)
