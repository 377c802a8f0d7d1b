-- ===== src/Tests/Pools.antt =====
-- Object pools at concrete values.
use cmt_tcp.Prelude.{
  ℕ, ◌+◌, ◌*◌, ◌%◌, ◌^◌, ◌≤◌, ◌≡◌, refl, Bool, Option, none, some, List, [], ◌∷◌, ◌++◌, leb, ◌==◌,
  if◌then◌else◌, arith, count, count-cons, count-nil,
}
use cmt_tcp.Run.{ok}
use cmt_tcp.Links.{nil, cons}
use cmt_tcp.MemoryPool.{Pool, block_alloc}
use cmt_tcp.MemoryPool.Aligned.{pmemalign, pmemfree, pmem_total, pmemalign-pmemfree}
use cmt_tcp.MemoryPool.Chunks.{Carved, block_alloc-Carved}
use cmt_tcp.MemoryPool.Given.{two_large, result_of, alloc_from_large-twice}
use cmt_tcp.ObjectPool.{ObjectPool, object_get, object_free}
use cmt_tcp.ObjectPool.Stock.{IsStock, Fresh}
use cmt_tcp.ObjectPool.Handed.{Handed, freed, object_get-Handed, object_get-object_free}

-- The nodes 5 and 3 are free, out of four.
abbrev pool : ObjectPool
pool = record {
  element_size = 16;
  element_count = 4;
  free_count = 2;
  align = 0;
  obj_queue = some 5;
  next = λ k. if k == 5 then some 3 else none;
}

abbrev enough : ℕ → ℕ → Bool
enough count free = leb (count * 9) (free * 10)

abbrev new_nodes : ℕ → Option ℕ
new_nodes i = some (i + 100)

pool-IsStock : IsStock pool (5 ∷ 3 ∷ [])
pool-IsStock = record {
  linked = cons (cons nil);
  counted = refl;
  once = λ a. ground (arith, count-cons a 5 (3 ∷ []), count-cons a 3 [], count-nil a);
}

fresh_nodes : Fresh new_nodes (5 ∷ 3 ∷ [])
fresh_nodes = record {
  outside = λ i a e. ground (arith, count-cons a 5 (3 ∷ []), count-cons a 3 [], count-nil a, e);
  distinct = λ i j a e f. ground (arith, e, f);
}

object_get-Handed_example :
    (news : List ℕ) × (p' : ObjectPool) × Handed enough new_nodes pool
      (5 ∷ 3 ∷ [])
      pool-IsStock
      fresh_nodes
      (news ++ 5 ∷ 3 ∷ [])
      p'
object_get-Handed_example =
    object_get-Handed enough new_nodes pool (5 ∷ 3 ∷ []) pool-IsStock fresh_nodes

-- Any two free nodes are enough.
abbrev generous : ℕ → ℕ → Bool
generous count free = leb 2 free

object_get-object_free_example :
    (object_free 9 pool ≡ ok (tt, freed pool 9))
    × IsStock (freed pool 9) (9 ∷ 5 ∷ 3 ∷ [])
    × ((p' : ObjectPool) × (object_get generous new_nodes (freed pool 9) ≡ ok (some 9, p'))
        × IsStock p' (5 ∷ 3 ∷ []))
object_get-object_free_example =
    object_get-object_free generous new_nodes pool (5 ∷ 3 ∷ []) pool-IsStock 9
      (ground (arith, count-cons 9 5 (3 ∷ []), count-cons 9 3 [], count-nil 9)) refl

-- A pool as it is made, with its block of 4096 bytes at 1000, and one with a large chunk at 5000.
abbrev new_pool : Pool
new_pool = record {
  size = 4096;
  remained = 4096;
  large_ctb = none;
  last_size = 4096;
  last_data = some 1000;
  non_main_arena = none;
  smallbins = λ i. record { nums = 0; free = none };
  chunk_next = λ k. none;
  large_size = λ k. 0;
  large_next = λ k. none;
  arena_next = λ k. none;
  freed = [];
}

abbrev with_large : Pool
with_large = record new_pool {
  large_ctb = some 5000;
  large_size = λ k. if k == 5000 then 1024 else 0;
}

block_alloc-Carved_example :
    (q : Pool) × (block_alloc 32 20 new_pool ≡ ok (some 1000, q)) × Carved 32 1000 new_pool q
block_alloc-Carved_example =
    block_alloc-Carved 32 1000 new_pool (omega arith) (omega arith) (omega arith) (omega arith) refl

alloc_from_large-twice_example :
    result_of (two_large 0 0 64 128 with_large) ≡ some (some 5000, some 5000)
alloc_from_large-twice_example =
    alloc_from_large-twice 0 0 64 128 5000 with_large refl (omega arith) (omega arith) (omega arith)
      (omega arith) (omega arith)

pmemalign-pmemfree_example :
    (p2 : ℕ) × (words' : ℕ → ℕ) × (pmemalign (2 ^ 6) 24 (λ n. some 1000) (λ k. 0)
      ≡ (some p2, words'))
    × (p2 % 2 ^ 6 ≡ 0)
    × (1000 + 8 ≤ p2)
    × (p2 + 24 ≤ 1000 + pmem_total (2 ^ 6) 24)
    × (pmemfree (2 ^ 6) 24 p2 words' ≡ (1000, pmem_total (2 ^ 6) 24))
pmemalign-pmemfree_example =
    pmemalign-pmemfree 6 24 (λ n. some 1000) (λ k. 0) 1000 (omega arith) (omega arith) refl
      (omega arith)
