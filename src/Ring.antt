-- ===== src/Ring.antt =====
-- The ring of pointers of include/ring.h and src/ring.c, whose elements are 64 bits wide. Its size
-- is a power of two, so that `x & mask` is the remainder by the size, and `x & (mask + 1)` the bit
-- of that weight. A call runs with no other thread between: the exchange of the head succeeds, and
-- a wait for another producer would not end.
pub mod Contents
pub mod Queue
pub mod Stuck
pub mod Batch
pub mod Threads
use cmt_tcp.Prelude.{
  ℕ, zero, suc, ◌+◌, ◌-◌, ◌*◌, ◌/◌, ◌%◌, ◌^◌, Bool, true, false, not, List, [], ◌∷◌, ◌++◌, ltb,
  ◌==◌, if◌then◌else◌, add32, sub32,
}
use cmt_tcp.Run.{
  ok, fault, Run, pure, stop, diverges, out_of_bounds, branch, gets, modify, ◌>>=◌, ◌>>◌,
}

-- `cmt_ring_t`. The producer's size and mask are the consumer's, and nothing changes them.
pub record Ring : Type 0 where
  pub sp_enqueue : ℕ
  pub sc_dequeue : ℕ
  pub size : ℕ
  pub mask : ℕ
  pub prod_head : ℕ
  pub prod_tail : ℕ
  pub cons_head : ℕ
  pub cons_tail : ℕ
  pub slots : ℕ → ℕ

-- `cmt_ring_create` for a count that is a power of two, where the memory is there.
unfoldable pub cmt_ring_create : ℕ → ℕ → ℕ → (ℕ → ℕ) → Ring
cmt_ring_create count sp sc memory = record {
  sp_enqueue = sp;
  sc_dequeue = sc;
  size = count;
  mask = count - 1;
  prod_head = 0;
  prod_tail = 0;
  cons_head = 0;
  cons_tail = 0;
  slots = memory;
}

abbrev pub place : Ring → ℕ → ℕ
place r index = index % (r.mask + 1)

-- `ring[idx] = v` and `ring[idx]`; the ring's memory ends behind `size` elements.
unfoldable pub write : ℕ → ℕ → Run Ring (Unit {0})
write idx v r =
    if ltb idx r.size
    then ok (tt, record r { slots = λ i. if i == idx then v else r.slots i })
    else fault out_of_bounds

unfoldable pub read : ℕ → Run Ring ℕ
read idx r = if ltb idx r.size then ok (r.slots idx, r) else fault out_of_bounds

module _ (obj : ℕ → ℕ) where
  -- `ring[idx] = obj[i]` for the next `n` indices.
  unfoldable pub copy_in : ℕ → ℕ → ℕ → Run Ring (Unit {0})
  copy_in zero i idx = pure tt
  copy_in (suc n) i idx = do write idx (obj i); copy_in n (i + 1) (idx + 1)

  -- The loop that copies four at a time, and the `switch` behind it for the last `k`.
  unfoldable pub copy_fours : ℕ → ℕ → ℕ → ℕ → Run Ring (Unit {0})
  copy_fours zero k i idx = copy_in k i idx
  copy_fours (suc n) k i idx = do
    write idx (obj i)
    write (idx + 1) (obj (i + 1))
    write (idx + 2) (obj (i + 2))
    write (idx + 3) (obj (i + 3))
    copy_fours n k (i + 4) (idx + 4)

  -- `_cmt_ring_enqueue_elms_64`. The parenthesis of `likely(idx + n) < size` is closed before the
  -- comparison, in which its value is 0 or 1.
  unfoldable pub enqueue_elms_64 : ℕ → ℕ → Run Ring (Unit {0})
  enqueue_elms_64 prod_head n = do
    r ← gets (λ r. r)
    let idx = place r prod_head
    branch (ltb (if idx + n == 0 then 0 else 1) r.size) (copy_fours (n / 4) (n % 4) 0 idx)
        do copy_in (r.size - idx) 0 idx; copy_in (n - (r.size - idx)) (r.size - idx) 0

-- `obj[i] = ring[idx]` for the next `n` indices: what is copied, in order.
unfoldable pub copy_out : ℕ → ℕ → Run Ring (List ℕ)
copy_out zero idx = pure []
copy_out (suc n) idx = do v ← read idx; vs ← copy_out n (idx + 1); pure (v ∷ vs)

unfoldable pub copy_out_fours : ℕ → ℕ → ℕ → Run Ring (List ℕ)
copy_out_fours zero k idx = copy_out k idx
copy_out_fours (suc n) k idx = do
  a ← read idx
  b ← read (idx + 1)
  c ← read (idx + 2)
  d ← read (idx + 3)
  vs ← copy_out_fours n k (idx + 4)
  pure (a ∷ b ∷ c ∷ d ∷ vs)

-- `_cmt_ring_dequeue_elms_64`
unfoldable pub dequeue_elms_64 : ℕ → ℕ → Run Ring (List ℕ)
dequeue_elms_64 cons_head n = do
  r ← gets (λ r. r)
  let idx = place r cons_head
  branch (ltb (idx + n) r.size) (copy_out_fours (n / 4) (n % 4) idx) do
    front ← copy_out (r.size - idx) idx
    back ← copy_out (n - (r.size - idx)) 0
    pure (front ++ back)

-- `_cmt_ring_mp_do_enqueue`: reserve, copy, and publish.
unfoldable pub mp_do_enqueue : (ℕ → ℕ) → ℕ → Run Ring ℕ
mp_do_enqueue obj n = do
  r ← gets (λ r. r)
  let free_entries = sub32 (add32 r.mask r.cons_tail) r.prod_head
  let n' = if ltb free_entries n then free_entries else n
  let prod_next = add32 r.prod_head n'
  modify (λ s. record s { prod_head = prod_next })
  enqueue_elms_64 obj r.prod_head n'
  s ← gets (λ s. s)
  branch (s.prod_tail == r.prod_head) (modify (λ s. record s { prod_tail = prod_next }))
      (stop diverges)
  pure n'

-- `x & (mask + 1)`
abbrev pub size_bit : Ring → ℕ → ℕ
size_bit r x = x / (r.mask + 1) % 2 * (r.mask + 1)

-- `_cmt_ring_sp_do_enqueue`; -1 is its pattern.
unfoldable pub sp_do_enqueue : (ℕ → ℕ) → ℕ → Run Ring ℕ
sp_do_enqueue obj n = branch (n == 0) (pure 0) do
  r ← gets (λ r. r)
  let free_entries = size_bit r (sub32 (add32 r.mask r.cons_tail) r.prod_head)
  branch (ltb free_entries n) (pure (2 ^ 32 - 1)) do
    enqueue_elms_64 obj r.prod_head n
    modify (λ s. record s { prod_head = add32 r.prod_head n; prod_tail = add32 r.prod_head n })
    pure 0

-- `_cmt_ring_sc_do_dequeue`: the result, and what it puts into the table.
unfoldable pub sc_do_dequeue : ℕ → Run Ring (ℕ × List ℕ)
sc_do_dequeue n = branch (n == 0) (pure (0, [])) do
  r ← gets (λ r. r)
  let entries = sub32 r.prod_tail r.cons_head
  branch (ltb entries n) (pure (2 ^ 32 - 1, [])) do
    vs ← dequeue_elms_64 r.cons_head n
    modify (λ s. record s { cons_head = add32 r.cons_head n; cons_tail = add32 r.cons_head n })
    pure (n, vs)

-- `_cmt_ring_mc_do_dequeue`. Its `n` is set to `max`, which is 0, before it is compared, and a number
-- of entries is not below 0.
unfoldable pub mc_do_dequeue : ℕ → Run Ring (ℕ × List ℕ)
mc_do_dequeue n = branch (n == 0) (pure (0, [])) do
  r ← gets (λ r. r)
  let cons_next = add32 r.cons_head 0
  modify (λ s. record s { cons_head = cons_next })
  vs ← dequeue_elms_64 r.cons_head 0
  s ← gets (λ s. s)
  branch (s.cons_tail == r.cons_head) (modify (λ s. record s { cons_tail = cons_next }))
      (stop diverges)
  pure (0, vs)

unfoldable pub cmt_ring_enqueue_bulk : (ℕ → ℕ) → ℕ → Run Ring ℕ
cmt_ring_enqueue_bulk obj n = do
  r ← gets (λ r. r)
  branch (r.sp_enqueue == 1) (sp_do_enqueue obj n) (mp_do_enqueue obj n)

unfoldable pub cmt_ring_enqueue : ℕ → Run Ring ℕ
cmt_ring_enqueue x = do ret ← cmt_ring_enqueue_bulk (λ i. x) 1; pure (sub32 ret 1)

-- The object of `cmt_dequeue`, whose call has the address of the function's own parameter.
unfoldable pub cmt_dequeue : Run Ring (ℕ × List ℕ)
cmt_dequeue = do
  r ← gets (λ r. r)
  res ← branch (r.sc_dequeue == 1) (sc_do_dequeue 1) (mc_do_dequeue 1)
  pure (sub32 res.0 1, res.1)

-- Likewise for the objects of `cmt_dequeue_bulk`.
unfoldable pub cmt_dequeue_bulk : ℕ → Run Ring (ℕ × List ℕ)
cmt_dequeue_bulk n = do
  r ← gets (λ r. r)
  branch (r.sc_dequeue == 1) (sc_do_dequeue n) (mc_do_dequeue n)
