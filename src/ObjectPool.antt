-- ===== src/ObjectPool.antt =====
-- The object pool of src/object_pool.c. A node is its address; the list of free nodes is linked
-- through them. `info` is read as the address of `p->obj_info`.
pub mod Stock
pub mod Handed
use cmt_tcp.Prelude.{
  ℕ, zero, suc, ◌+◌, ◌-◌, ◌*◌, Bool, true, false, Option, none, some, leb, ltb, ◌==◌, if◌then◌else◌,
}
use cmt_tcp.Run.{
  Outcome, ok, fault, null_pointer, Run, pure, stop, branch, gets, modify, deref, ◌>>=◌, ◌>>◌,
}
use cmt_tcp.Links.{relink}

-- `cmt_object_pool_t`, with the link of each node in memory.
pub record ObjectPool : Type 0 where
  pub element_size : ℕ
  pub element_count : ℕ
  pub free_count : ℕ
  pub align : ℕ
  pub obj_queue : Option ℕ
  pub next : ℕ → Option ℕ

abbrev pub default_min_size : ℕ
default_min_size = 10

abbrev pub peek : ℕ
peek = 1024 * 512

-- `enough count free` is `count * WATER_LEVEL <= free`, which the code computes in floating point;
-- `pmemalign i` is what the call of `cmt_pmemalign` for the `i`-th new node returns.
module _ (enough : ℕ → ℕ → Bool) (pmemalign : ℕ → Option ℕ) where
  -- The loop of `resize` for `n` nodes more: whether it came to its end, and the head and the links.
  unfoldable pub grow : ℕ → ℕ → Option ℕ → (ℕ → Option ℕ) → Bool × (Option ℕ) × (ℕ → Option ℕ)
  grow zero i head next = (true, head, next)
  grow (suc n) i head next = elim (pmemalign i) [
    | none ↦ (false, head, next)
    | some a ↦ grow n (i + 1) (some a) (relink next a head)
  ]

  unfoldable pub resize : Run ObjectPool (Unit {0})
  resize p =
      let update_size = if leb peek p.element_count then default_min_size else p.element_count in
      let (done, head, next) = grow update_size 0 p.obj_queue p.next in
      if enough p.element_count p.free_count
      then ok (tt, p)
      else if done
      then ok (
        tt,
        record p {
          obj_queue = head;
          next = next;
          element_count = p.element_count + update_size;
          free_count = p.free_count + update_size;
        },
      )
      else ok (tt, record p { next = next })

  -- `cmt_object_get`
  unfoldable pub object_get : Run ObjectPool (Option ℕ)
  object_get = do
    resize
    p ← gets (λ p. p)
    branch (p.free_count == 0) (pure none) do
      a ← deref null_pointer p.obj_queue
      modify (λ p. record p { obj_queue = p.next a; free_count = p.free_count - 1 })
      pure (some a)

-- `cmt_object_free`
unfoldable pub object_free : ℕ → Run ObjectPool (Unit {0})
object_free a = modify (λ p. record p {
  obj_queue = some a;
  next = relink p.next a p.obj_queue;
  free_count = p.free_count + 1;
})
