-- ===== src/MemoryPool/Calls.antt =====
-- The calls of the pool in src/cmt_memory_pool.c that use its parts: `refill`, `cmt_pfree`,
-- `cmt_reset_pool` and `cmt_destory_pool`.
use cmt_tcp.Prelude.{
  ℕ, zero, suc, ◌%◌, ◌^◌, Bool, true, false, not, Option, none, some, List, [], ◌∷◌, ◌++◌, ltb,
  ◌==◌, if◌then◌else◌,
}
use cmt_tcp.Run.{diverges, Run, pure, branch, gets, modify, deref, ◌>>=◌, ◌>>◌}
use cmt_tcp.Links.{relink}
use cmt_tcp.MemoryPool.{
  Pool, max_mem_size, number_of_added_node, smallbins_idx, round_up8, sub64, push_chunk, in_bins,
  block_alloc, alloc_from_other_bins, alloc_from_large,
}

-- Whether `ret` is negative, and what `*p` is set to.
abbrev pub outcome_of : Option ℕ → Bool × Option ℕ
outcome_of none = (true, none)
outcome_of (some a) = (false, some a)

-- `ret_neg` says whether `ret`, which is not set, happens to be negative.
module _ (ret_neg : Bool) (p_at size : ℕ) where
  unfoldable pub from_bins : ℕ → Run Pool (Bool × Option ℕ)
  unfolding ◌>>=◌
  from_bins remained =
      branch (ltb size remained) (do r ← alloc_from_other_bins size; pure (outcome_of r))
        (pure (ret_neg, none))

  unfoldable pub or_large : Bool × Option ℕ → Run Pool (Bool × Option ℕ)
  unfolding ◌>>=◌
  or_large (true, r) = do l ← alloc_from_large p_at size; pure (outcome_of l)
  or_large (false, r) = pure (false, r)

  unfoldable pub refill : Run Pool (Bool × Option ℕ)
  unfolding ◌>>=◌ from_bins or_large
  refill = do
    p ← gets (λ p. p)
    branch (ltb size p.last_size) (do a ← block_alloc size number_of_added_node; pure (false, a))
        (do first ← from_bins p.remained; or_large first)

-- The nodes of a list that a loop frees one after the other, in `n` rounds at most.
unfoldable pub nodes : ℕ → Option ℕ → (ℕ → Option ℕ) → Option (List ℕ)
nodes n none next = some []
nodes zero (some a) next = none
nodes (suc n) (some a) next = elim (nodes n (next a) next) [ none ↦ none | some xs ↦ some (a ∷ xs) ]

module _ (rounds : ℕ) where
  unfoldable pub free_arenas : Run Pool (Unit {0})
  unfolding ◌>>=◌ nodes
  free_arenas = do
    p ← gets (λ p. p)
    xs ← deref diverges (nodes rounds p.non_main_arena p.arena_next)
    modify (λ p. record p { freed = p.freed ++ xs })

  unfoldable pub pfree : ℕ → ℕ → Run Pool (Unit {0})
  unfolding ◌>>=◌ free_arenas
  pfree a size =
      branch (ltb max_mem_size (round_up8 size))
        (modify (λ p. record p {
          large_size = λ k. if k == a then round_up8 size % 2 ^ 32 else p.large_size k;
          large_next = relink p.large_next a p.large_ctb;
          large_ctb = some a;
        }))
        (do
          free_arenas
          in_bins (smallbins_idx (round_up8 size))
          modify (push_chunk (smallbins_idx (round_up8 size)) a))

  -- `ctb->size` once the large chunks are freed.
  unfoldable pub size_without : List ℕ → (ℕ → ℕ) → ℕ → ℕ
  size_without [] large size = size
  size_without (a ∷ xs) large size = size_without xs large (sub64 size (large a))

  -- `start` is the place behind the head of the pool.
  unfoldable pub reset_pool : ℕ → Run Pool Bool
  unfolding ◌>>=◌ nodes free_arenas size_without
  reset_pool start = do
    p ← gets (λ p. p)
    branch (not (p.remained == p.size)) (pure false) do
      xs ← deref diverges (nodes rounds p.large_ctb p.large_next)
      modify (λ p.
          let left = size_without xs p.large_size p.size in
          record p {
            freed = p.freed ++ xs;
            size = left;
            remained = left;
            large_ctb = none;
            last_size = left % 2 ^ 32;
            last_data = some start;
          })
      free_arenas
      modify (λ p. record p { smallbins = λ i. record { nums = 0; free = none } })
      pure true

  -- `base` is what `aligned_free` finds for the pool.
  unfoldable pub destory_pool : ℕ → Run Pool (Unit {0})
  unfolding ◌>>=◌ nodes
  destory_pool base = do
    p ← gets (λ p. p)
    xs ← deref diverges (nodes rounds p.large_ctb p.large_next)
    modify (λ p. record p { freed = p.freed ++ xs ++ base ∷ [] })
