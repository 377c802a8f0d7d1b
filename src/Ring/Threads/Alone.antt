-- ===== src/Ring/Threads/Alone.antt =====
-- A call with no other thread between takes the steps of the interleaved ring.
use cmt_tcp.Prelude.{ℕ, ◌+◌, ◌^◌, ◌<◌, ◌≤◌, ◌≡◌, refl, ==_refl, arith, add32}
use cmt_tcp.Ring.{Ring, place}
use cmt_tcp.Ring.Contents.{IsRing}
use cmt_tcp.Ring.Batch.{taken_in, with_batch, Appends, contents-mp_do_enqueue}
use cmt_tcp.Ring.Threads.{
  Local, idle, entered, headed, loaded, reserved, Shared, at, granted, enter, read_head, read_tail,
  exchange, publish, Reach, here, next,
}

-- The shared indices are those of the ring.
pub record Agrees (s : Shared) (r : Ring) : Type 0 where
  pub masks : s.mask ≡ r.mask
  pub heads : s.prod_head ≡ r.prod_head
  pub tails : s.prod_tail ≡ r.prod_tail
  pub conss : s.cons_tail ≡ r.cons_tail

abbrev pub moved : Shared → ℕ → Local → Shared
moved s t l = record s { threads = at s t l }

-- A call up to its exchange.
abbrev pub reserving : Shared → ℕ → ℕ → Shared
reserving s t want =
    let a = moved s t (entered want) in
    let b = moved a t (headed want s.prod_head) in
    let c = moved b t (loaded want s.prod_head s.cons_tail) in
    record c {
      prod_head = add32 s.prod_head (granted c want s.prod_head s.cons_tail);
      threads = at c t (reserved s.prod_head (granted c want s.prod_head s.cons_tail));
    }

abbrev pub reserve :
    (s u : Shared) (t want : ℕ) → Reach s u → u.threads t ≡ idle → Reach s (reserving u t want)
reserve s u t want r e =
    next
      (next (next (next r (enter _ t want e)) (read_head _ t want (rw (==_refl t) refl)))
        (read_tail _ t want u.prod_head (rw (==_refl t) refl)))
      (exchange _ t want u.prod_head u.cons_tail (rw (==_refl t) refl) refl)

-- A whole call.
abbrev pub called : Shared → ℕ → ℕ → Shared
called s t want =
    let a = reserving s t want in record a { prod_tail = a.prod_head; threads = at a t idle }

call :
    (s : Shared) (t want : ℕ)
    → s.threads t ≡ idle
    → s.prod_tail ≡ s.prod_head
    → Reach s (called s t want)
call s t want e closed =
    next (reserve s s t want here e) (
      publish _ t s.prod_head (granted s want s.prod_head s.cons_tail) (rw (==_refl t) refl) closed)

-- The steps of one producer's call from its start to its end, where no other thread runs between, do
-- what the call does that is not interrupted: they lead to the indices that it leaves; for a ring in
-- which no call is under way, whose indices do not pass 2 ^ 32 in the call and whose batch does not
-- reach past the end of the array.
pub called-Agrees :
    (obj : ℕ → ℕ) (s : Shared) (r : Ring) (t n : ℕ) (v : IsRing r)
    → Agrees s r
    → s.threads t ≡ idle
    → r.cons_tail ≤ r.prod_tail
    → r.prod_head + n < 2 ^ 32
    → place r r.prod_head + taken_in r n ≤ r.size
    → (slots : ℕ → ℕ) × Appends obj r n v slots
      × Reach s (called s t n)
      × Agrees (called s t n) (with_batch r n slots)
called-Agrees obj s r t n v same e order small fits =
    let (slots, appended) = contents-mp_do_enqueue obj r n v fits in
    let closed : s.prod_tail ≡ s.prod_head = omega (arith, same.heads, same.tails, v.prod) in
    let index : (called s t n).prod_head ≡ add32 r.prod_head (taken_in r n) = omega (
      arith, same.heads, same.masks, same.conss, v.prod, v.held, v.prod_word, v.cons_word, order,
      small,
    ) in
    (
      slots,
      appended,
      call s t n e closed,
      record { masks = same.masks; heads = index; tails = index; conss = same.conss },
    )
