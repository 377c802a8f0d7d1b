-- ===== src/Ring/Threads.antt =====
-- Several producers and a consumer at once on the ring of include/ring.h: the steps of
-- `_cmt_ring_mp_do_enqueue` in any order. The indices are 32-bit numbers and wrap round. `CASra` is
-- read as an exchange of the values that it is given.
pub mod Reserved
pub mod Moves
pub mod Progress
pub mod Alone
use cmt_tcp.Prelude.{ℕ, ◌+◌, ◌-◌, ◌<◌, ◌≤◌, ◌≡◌, ◌≢◌, if◌then◌else◌, ◌==◌, min, add32, sub32}

-- Where a producer is: outside, at the top of the loop for `want` objects, behind its read of the
-- head, behind its read of the consumer's tail, or behind the exchange, with `n` places from `head`.
pub data Local : Type 0 where
  idle : Local
  entered : ℕ → Local
  headed : ℕ → ℕ → Local
  loaded : ℕ → ℕ → ℕ → Local
  reserved : ℕ → ℕ → Local

pub record Shared : Type 0 where
  pub mask : ℕ
  pub prod_head : ℕ
  pub prod_tail : ℕ
  pub cons_tail : ℕ
  pub threads : ℕ → Local

abbrev pub at : Shared → ℕ → Local → ℕ → Local
at s t l u = if t == u then l else s.threads u

-- `n` after the comparison with `free_entries`.
abbrev pub granted : Shared → ℕ → ℕ → ℕ → ℕ
granted s want head cons = min want (sub32 (s.mask + cons) head)

pub data Step : Shared → Shared → Type 0 where
  enter :
      (s : Shared) (t want : ℕ)
      → s.threads t ≡ idle
      → Step s (record s { threads = at s t (entered want) })
  read_head :
      (s : Shared) (t want : ℕ)
      → s.threads t ≡ entered want
      → Step s (record s { threads = at s t (headed want s.prod_head) })
  read_tail :
      (s : Shared) (t want head : ℕ)
      → s.threads t ≡ headed want head
      → Step s (record s { threads = at s t (loaded want head s.cons_tail) })
  -- The exchange that finds the head as it was read.
  exchange :
      (s : Shared) (t want head cons : ℕ)
      → s.threads t ≡ loaded want head cons
      → s.prod_head ≡ head
      → Step s (record s {
        prod_head = add32 head (granted s want head cons);
        threads = at s t (reserved head (granted s want head cons));
      })
  -- The exchange that does not.
  retry :
      (s : Shared) (t want head cons : ℕ)
      → s.threads t ≡ loaded want head cons
      → s.prod_head ≢ head
      → Step s (record s { threads = at s t (entered want) })
  -- The end of the wait for the producers before.
  publish :
      (s : Shared) (t head n : ℕ)
      → s.threads t ≡ reserved head n
      → s.prod_tail ≡ head
      → Step s (record s { prod_tail = add32 head n; threads = at s t idle })
  -- The consumer takes `n` objects out.
  consume :
      (s : Shared) (n : ℕ)
      → n ≤ sub32 s.prod_tail s.cons_tail
      → Step s (record s { cons_tail = add32 s.cons_tail n })

pub data Reach (s : Shared) : Shared → Type 0 where
  here : Reach s s
  next : {t u : Shared} → Reach s t → Step t u → Reach s u

-- The objects that a step reserves places for, and those of all the steps.
abbrev pub put : {s u : Shared} → Step s u → ℕ
put (enter s t want e) = 0
put (read_head s t want e) = 0
put (read_tail s t want head e) = 0
put (exchange s t want head cons e found) = granted s want head cons
put (retry s t want head cons e lost) = 0
put (publish s t head n e turn) = 0
put (consume s n left) = 0

abbrev pub total : {s u : Shared} → Reach s u → ℕ
total here = 0
total (next r st) = total r + put st

-- A ring as it is created, with nobody in a call.
abbrev pub fresh : ℕ → Shared
fresh mask = record {
  mask = mask;
  prod_head = 0;
  prod_tail = 0;
  cons_tail = 0;
  threads = λ t. idle;
}
