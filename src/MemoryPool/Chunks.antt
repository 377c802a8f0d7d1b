-- ===== src/MemoryPool/Chunks.antt =====
-- The chunks that `block_alloc` of src/cmt_memory_pool.c puts into a bin.
use cmt_tcp.Prelude.{
  ℕ, zero, suc, ◌+◌, ◌-◌, ◌*◌, ◌/◌, ◌^◌, ◌<◌, ◌≤◌, ◌≡◌, refl, sym, subst, true, false, Option, none,
  some, List, [], ◌∷◌, arith, ltb, ◌==◌, ==_refl,
}
use cmt_tcp.Run.{ok, pure, branch, gets, modify, deref, ◌>>=◌}
use cmt_tcp.Links.{Chain, nil, cons, relink}
use cmt_tcp.MemoryPool.{Pool, link_chunks, block_size, carve, block_alloc}

-- `n` places, `size` apart, from `a` on.
abbrev pub places : ℕ → ℕ → ℕ → List ℕ
places size zero a = []
places size (suc n) a = a ∷ places size n (a + size)

module _ (size : ℕ) (positive : 0 < size) where
  link_chunks-before :
      (n c k : ℕ) (next : ℕ → Option ℕ) → k < c → link_chunks size n c next k ≡ next k
  unfolding link_chunks
  link_chunks-before zero c k next h = ground arith
  link_chunks-before (suc n) c k next h =
      ground
        (arith, link_chunks-before n (c + size) k (relink next c (some (c + size))) (omega arith))

  link_chunks-at :
      (n c : ℕ) (next : ℕ → Option ℕ) → link_chunks size (suc n) c next c ≡ some (c + size)
  unfolding link_chunks
  link_chunks-at n c next =
      ground
        (arith, link_chunks-before n (c + size) c (relink next c (some (c + size))) (omega arith))

  link_chunks-Chain :
      (n c : ℕ) (next : ℕ → Option ℕ)
      → Chain (link_chunks size n c next) (some c) (places size (suc n) c)
  unfolding link_chunks
  link_chunks-Chain zero c next =
      cons (subst (λ w. Chain (relink next c none) w []) (rw (==_refl c) refl) nil)
  link_chunks-Chain (suc n) c next = cons (
      subst (λ w. Chain (link_chunks size (suc n) c next) w (places size (suc n) (c + size)))
        (sym (link_chunks-at n c next))
        (link_chunks-Chain n (c + size) (relink next c (some (c + size)))))

-- What is left after `a` was given out: nineteen chunks are counted, of which six are linked.
pub record Carved (size a : ℕ) (p q : Pool) : Type 0 where
  pub advanced : q.last_data ≡ some (a + size * 20)
  pub shrunk : q.last_size ≡ p.last_size - size * 20
  pub counted : (q.smallbins (size / 8)).nums ≡ 19
  pub linked : Chain q.chunk_next (q.smallbins (size / 8)).free (places size 6 (a + size))
  pub others : (i : ℕ) → (i == size / 8) ≡ false → q.smallbins i ≡ p.smallbins i

module _ (size a : ℕ) (p : Pool) (positive : 0 < size) (enough : size * 20 ≤ p.last_size) where
  module _ (word : p.last_size < 2 ^ 32) where
    block_size-whole : block_size size 20 p.last_size ≡ size * 20
    unfolding block_size
    block_size-whole = ground arith

    carve-Carved : Carved size a p (carve size 20 (size * 20) a p)
    unfolding carve
    carve-Carved =
        let more : ltb size (size * 20) ≡ true = ground arith in
        let same : (size / 8 == size / 8) ≡ true = ==_refl (size / 8) in
        record {
          advanced = refl;
          shrunk = omega arith;
          counted = rw same refl;
          linked = rw (more, same) (link_chunks-Chain size positive 5 (a + size) p.chunk_next);
          others = λ i h. rw h refl;
        }

    -- Where the last block has room for twenty chunks of a size that has a bin, the first one is given
    -- out, and the block goes on behind the twentieth; the bin of that size counts the other
    -- nineteen, but its list has only the next six; the other bins stay.
    pub block_alloc-Carved :
        size < 56
        → p.last_data ≡ some a
        → (q : Pool) × (block_alloc size 20 p ≡ ok (some a, q)) × Carved size a p q
    unfolding block_alloc ◌>>=◌ pure branch gets modify deref
    block_alloc-Carved small at =
        let room : ltb size p.last_size ≡ true = ground arith in
        let bin : ltb (size / 8) 7 ≡ true = ground arith in
        (carve size 20 (size * 20) a p, rw (room, at, bin, block_size-whole) refl, carve-Carved)
