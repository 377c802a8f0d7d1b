-- ===== src/Ring/Threads/Progress.antt =====
-- However the calls on the ring are interleaved: the reservations are apart, one of them can be
-- published, and one that the tail has passed cannot.
use cmt_tcp.Prelude.{
  ℕ, ◌^◌, add32, ◌+◌, ◌<◌, ◌≡◌, ◌≢◌, refl, inl, inr, arith, Bool-cases, ◌∙◌, sym, ap, ltb,
}
use cmt_tcp.Ring.Threads.{
  idle, reserved, Shared, at, Step, enter, read_head, read_tail, exchange, retry, publish, consume,
  Reach, here, next, total, fresh,
}
use cmt_tcp.Ring.Threads.Reserved.{at_other, reserved_same, IsShared}
use cmt_tcp.Ring.Threads.Moves.{Step-IsShared}

fresh-IsShared : (mask : ℕ) → mask < 2 ^ 32 → IsShared (fresh mask)
fresh-IsShared mask word = record {
  mask_word = word;
  published = omega arith;
  claimed = omega arith;
  room = omega arith;
  early = λ t want h e. cc;
  stale = λ t want h c e. cc;
  within = λ t h n e. cc;
  ahead = λ t h n e. cc;
  apart = λ t u h n k m other e. cc;
  covered = λ i low high. absurd (omega (arith, high));
}

-- The head counts what is reserved.
kept :
    {s u : Shared} (r : Reach s u)
    → IsShared s
    → s.prod_head + total r < 2 ^ 32
    → IsShared u × (u.prod_head ≡ s.prod_head + total r)
kept here v word = (v, omega arith)
kept (next r st) v word =
    let (w, head) = kept r v (omega (arith, word)) in
    let (w', head') = Step-IsShared st w (omega (arith, head, word)) in
    (w', omega (arith, head, head'))

-- However the calls of any number of producers and of the consumer are interleaved, from a new ring
-- on, with fewer than 2 ^ 32 objects in all: the places that the producers have reserved and not
-- published do not meet, make up all the places between the tail and the head, and lie less than
-- the ring's size beyond what the consumer has taken.
pub Reach-IsShared :
    (mask : ℕ) (s : Shared) (r : Reach (fresh mask) s)
    → mask < 2 ^ 32
    → total r < 2 ^ 32
    → IsShared s
Reach-IsShared mask s r word few = (kept r (fresh-IsShared mask word) (omega (arith, few))).0

-- However the calls are interleaved, with fewer than 2 ^ 32 objects in all: as long as places are
-- reserved that are not published, there is a producer with at least one place whose turn it is: its
-- next step publishes them.
pub publish_enabled :
    (mask : ℕ) (s : Shared) (r : Reach (fresh mask) s)
    → mask < 2 ^ 32
    → total r < 2 ^ 32
    → s.prod_tail < s.prod_head
    → (t : ℕ) × (n : ℕ) × (0 < n)
      × (s.threads t ≡ reserved s.prod_tail n)
      × Step s (record s { prod_tail = add32 s.prod_tail n; threads = at s t idle })
publish_enabled mask s r word few some_left =
    let v = Reach-IsShared mask s r word few in
    let (t, h, n, e, from, to) = v.covered s.prod_tail (omega arith) some_left in
    let places : 0 < n = omega (arith, from, to) in
    let turn : h ≡ s.prod_tail = omega (arith, from, v.ahead t h n e places) in
    let mine : s.threads t ≡ reserved s.prod_tail n = e ∙ ap (λ k. reserved k n) turn in
    (t, n, places, mine, publish s t s.prod_tail n mine refl)

-- A reservation that begins before the tail stays as it is, whatever step follows in which the head
-- does not wrap round.
overtaken :
    {s u : Shared} (t head n : ℕ)
    → IsShared s
    → s.prod_head < 2 ^ 32
    → Step s u
    → s.threads t ≡ reserved head n
    → head < s.prod_tail
    → (u.threads t ≡ reserved head n) × (head < u.prod_tail)
overtaken t head n v word (enter s w want e) mine past = (at_other s w _ t (λ q. cc) ∙ mine, past)
overtaken t head n v word (read_head s w want e) mine past =
    (at_other s w _ t (λ q. cc) ∙ mine, past)
overtaken t head n v word (read_tail s w want h e) mine past =
    (at_other s w _ t (λ q. cc) ∙ mine, past)
overtaken t head n v word (exchange s w want h c e found) mine past =
    (at_other s w _ t (λ q. cc) ∙ mine, past)
overtaken t head n v word (retry s w want h c e lost) mine past =
    (at_other s w _ t (λ q. cc) ∙ mine, past)
overtaken t head n v word (publish s w h m e turn) mine past =
    let other : w ≢ t = λ q.
      let (a, b) = reserved_same h m head n (sym e ∙ ap s.threads q ∙ mine) in
      omega (arith, a, turn, past) in
    (at_other s w _ t other ∙ mine, omega (arith, past, turn, v.within w h m e, word))
overtaken t head n v word (consume s m left) mine past = (mine, past)

-- From a new ring on, a producer whose reservation begins before the tail waits as long as
-- fewer than 2 ^ 32 objects pass in all: whatever steps the producers and the consumer take from
-- there, it has not published and is where it was.
pub overtaken_waits :
    (mask : ℕ) (s u : Shared) (t head n : ℕ) (r : Reach (fresh mask) s) (q : Reach s u)
    → mask < 2 ^ 32
    → total r + total q < 2 ^ 32
    → s.threads t ≡ reserved head n
    → head < s.prod_tail
    → (u.threads t ≡ reserved head n) × (head < u.prod_tail)
overtaken_waits mask s u t head n r here word few mine past = (mine, past)
overtaken_waits mask s u t head n r (next {t = m} q st) word few mine past =
    let (still, later) =
      overtaken_waits mask s m t head n r q word (omega (arith, few)) mine past in
    let (v, start) = kept r (fresh-IsShared mask word) (omega (arith, few)) in
    let (w, now) = kept q v (omega (arith, few, start)) in
    overtaken t head n w (omega (arith, few, start, now)) st still later

-- However the calls are interleaved, it is only a reservation of no place that the tail can pass.
pub overtaken_empty :
    (mask : ℕ) (s : Shared) (t head n : ℕ) (r : Reach (fresh mask) s)
    → mask < 2 ^ 32
    → total r < 2 ^ 32
    → s.threads t ≡ reserved head n
    → head < s.prod_tail
    → n ≡ 0
overtaken_empty mask s t head n r word few mine past = elim (Bool-cases (ltb 0 n)) [
  | inl places ↦
      let v = (Reach-IsShared mask s r word few).ahead t head n mine (ground (arith, places)) in
      absurd (omega (arith, v, past))
  | inr none_left ↦ ground (arith, none_left)
]
