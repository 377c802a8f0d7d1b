-- ===== src/Tests/Rings.antt =====
-- Rings at concrete values.
use Prim.Native.Nat.{◌∣◌}
use native.Mathlib.Nat.{dvd-mul_right}
use cmt_tcp.Prelude.{ℕ, ◌+◌, ◌^◌, ◌≡◌, refl, [], ◌∷◌, arith}
use cmt_tcp.Run.{ok, fault, out_of_bounds}
use cmt_tcp.Ring.{Ring, mp_do_enqueue, sc_do_dequeue}
use cmt_tcp.Ring.Contents.{IsRing, contents}
use cmt_tcp.Ring.Queue.{contents-sc_do_dequeue}
use cmt_tcp.Ring.Batch.{Appends, contents-mp_do_enqueue}
use cmt_tcp.Ring.Stuck.{mp_do_enqueue-overruns}

-- Four places, with one object behind three that have left.
abbrev pub ring : ℕ → Ring
ring sp = record {
  sp_enqueue = sp;
  sc_dequeue = 1;
  size = 4;
  mask = 3;
  prod_head = 4;
  prod_tail = 4;
  cons_head = 3;
  cons_tail = 3;
  slots = λ i. i + 10;
}

divides : 4 ∣ 2 ^ 32
divides = dvd-mul_right 4 (2 ^ 30)

pub ring-IsRing : (sp : ℕ) → IsRing (ring sp)
ring-IsRing sp = record {
  masked = refl;
  power = divides;
  small = omega arith;
  prod = refl;
  cons = refl;
  prod_word = omega arith;
  cons_word = omega arith;
  held = omega arith;
}

contents-mp_do_enqueue_example :
    (slots : ℕ → ℕ) × Appends (λ i. i + 20) (ring 0) 5 (ring-IsRing 0) slots
contents-mp_do_enqueue_example =
    contents-mp_do_enqueue (λ i. i + 20) (ring 0) 5 (ring-IsRing 0) (omega arith)

contents-sc_do_dequeue_example :
    (x : ℕ) × (r' : Ring) × (sc_do_dequeue 1 (ring 0) ≡ ok ((1, x ∷ []), r'))
    × IsRing r'
    × (contents (ring 0) ≡ x ∷ contents r')
contents-sc_do_dequeue_example = contents-sc_do_dequeue (ring 0) (ring-IsRing 0) (omega arith)

abbrev at_end : Ring
at_end = record (ring 0) { prod_head = 3; prod_tail = 3 }

at_end-IsRing : IsRing at_end
at_end-IsRing = record {
  masked = refl;
  power = divides;
  small = omega arith;
  prod = refl;
  cons = refl;
  prod_word = omega arith;
  cons_word = omega arith;
  held = omega arith;
}

mp_do_enqueue-overruns_example : mp_do_enqueue (λ i. i) 2 at_end ≡ fault out_of_bounds
mp_do_enqueue-overruns_example =
    mp_do_enqueue-overruns (λ i. i) at_end 2 at_end-IsRing (omega arith) (omega arith) (omega arith)
