-- ===== src/MemoryPool/Given.antt =====
-- Memory of the pool of src/cmt_memory_pool.c that is given out while it is in use, and bins that
-- there are not.
use cmt_tcp.Prelude.{
  ℕ, zero, suc, Bool-cases, inl, inr, leb, ◌&&◌, [], ◌+◌, ◌/◌, ◌^◌, ◌<◌, ◌≡◌, refl, true, false,
  Option, none, some, arith, ltb, ==_refl, if◌then◌else◌,
}
use cmt_tcp.Run.{
  Fault, out_of_bounds, Outcome, ok, fault, Run, pure, branch, gets, modify, deref, stop, ◌>>=◌,
}
use cmt_tcp.MemoryPool.{Pool, sub64, split_large, alloc_from_large, round_up8}
use cmt_tcp.MemoryPool.Calls.{pfree, free_arenas, nodes}

-- Two pieces from the large chunks, one after the other.
abbrev pub two_large : ℕ → ℕ → ℕ → ℕ → Run Pool (Option ℕ × Option ℕ)
two_large at at' size size' = do
  x ← alloc_from_large at size
  y ← alloc_from_large at' size'
  pure (x, y)

abbrev pub result_of : {A : Type 0} → Outcome (A × Pool) → Option A
result_of (ok (a, p)) = some a
result_of (fault e) = none

module _ (at at' size size' a : ℕ) (p : Pool) (first : p.large_ctb ≡ some a) where
  -- A large chunk that is cut stays the first of the free ones: the next piece that is asked for is
  -- at the same address as the one before, whatever its size.
  pub alloc_from_large-twice :
      0 < size
      → 0 < size'
      → size + 512 < p.large_size a
      → p.large_size a < 2 ^ 32
      → size' < 2 ^ 32
      → result_of (two_large at at' size size' p) ≡ some (some a, some a)
  unfolding alloc_from_large split_large ◌>>=◌ pure branch gets modify deref
  alloc_from_large-twice pos pos' room word word' =
      let big : ltb 512 (sub64 (p.large_size a) size) ≡ true = ground arith in
      let big' : ltb 512 (sub64 0 size') ≡ true = ground arith in
      rw (first, big, ==_refl a, big') refl

nodes-none : (n : ℕ) (next : ℕ → Option ℕ) → nodes n none next ≡ some []
unfolding nodes
nodes-none zero next = refl
nodes-none (suc n) next = refl

abbrev pub fault_of : {A : Type 0} → Outcome (A × Pool) → Option Fault
fault_of (ok (a, p)) = none
fault_of (fault e) = some e

module _ (rounds a size : ℕ) (p : Pool) (no_arenas : p.non_main_arena ≡ none) where
  -- A pool with its one arena takes a chunk of at most 48 bytes, or of more than 512; one of any other
  -- size has no bin, and the access is outside their array.
  pub pfree-overruns :
      size < 2 ^ 32
      → fault_of (pfree rounds a size p)
        ≡ (if ltb 48 size && leb size 512 then some out_of_bounds else none)
  unfolding pfree free_arenas ◌>>=◌ pure branch gets modify deref stop
  pfree-overruns word =
      let listed : nodes rounds p.non_main_arena p.arena_next ≡ some [] =
        rw no_arenas (nodes-none rounds p.arena_next) in
      elim (Bool-cases (ltb 512 (round_up8 size))) [
        | inl large ↦
            let other : (ltb 48 size && leb size 512) ≡ false = ground (arith, large) in
            rw (large, other) refl
        | inr small ↦ elim (Bool-cases (ltb (round_up8 size / 8) 7)) [
          | inl bin ↦
              let other : (ltb 48 size && leb size 512) ≡ false = ground (arith, bin) in
              rw (small, listed, bin, other) refl
          | inr no_bin ↦
              let other : (ltb 48 size && leb size 512) ≡ true = ground (arith, small, no_bin) in
              rw (small, listed, no_bin, other) refl
        ]
      ]
