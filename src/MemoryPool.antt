-- ===== src/MemoryPool.antt =====
-- The memory pool of src/cmt_memory_pool.c: the last block, the bins of small chunks, the freed large
-- chunks and the further arenas. A chunk is its address.
pub mod Aligned
pub mod Calls
pub mod Chunks
pub mod Given
use cmt_tcp.Prelude.{
  ℕ, zero, suc, ◌+◌, ◌-◌, ◌*◌, ◌/◌, ◌%◌, ◌^◌, Bool, true, false, not, Option, none, some, List, [],
  ◌∷◌, bit_and, leb, ltb, ◌==◌, if◌then◌else◌, sub32,
}
use cmt_tcp.Run.{
  assertion, null_pointer, diverges, out_of_bounds, Run, pure, stop, branch, gets, modify, deref,
  ◌>>=◌, ◌>>◌,
}
use cmt_tcp.Links.{relink}

pub record Bin : Type 0 where
  pub nums : ℕ
  pub free : Option ℕ

-- `cmt_pool_t`, with the links and the sizes of the chunks and arenas in memory; `freed` has what
-- `free` was called for.
pub record Pool : Type 0 where
  pub size : ℕ
  pub remained : ℕ
  pub large_ctb : Option ℕ
  pub last_size : ℕ
  pub last_data : Option ℕ
  pub non_main_arena : Option ℕ
  pub smallbins : ℕ → Bin
  pub chunk_next : ℕ → Option ℕ
  pub large_size : ℕ → ℕ
  pub large_next : ℕ → Option ℕ
  pub arena_next : ℕ → Option ℕ
  pub freed : List ℕ

abbrev pub total_bins : ℕ
total_bins = 7

abbrev pub max_mem_size : ℕ
max_mem_size = 512

abbrev pub number_of_added_node : ℕ
number_of_added_node = 20

-- `SMALLBINS_IDX`
abbrev pub smallbins_idx : ℕ → ℕ
smallbins_idx size = size / 8

-- `ROUND_UP(size, ALIGN)`: the mask clears three bits.
abbrev pub round_up8 : ℕ → ℕ
round_up8 size = (size + 7) % 2 ^ 64 / 8 * 8

-- `ROUND_UP`
abbrev pub round_up : ℕ → ℕ → ℕ
round_up size align = bit_and ((size + align - 1) % 2 ^ 64) (2 ^ 64 - align)

abbrev pub sub64 : ℕ → ℕ → ℕ
sub64 a b = (a + 2 ^ 64 - b % 2 ^ 64) % 2 ^ 64

abbrev pub set_bin : (ℕ → Bin) → ℕ → Bin → ℕ → Bin
set_bin bins i b j = if j == i then b else bins j

-- A chunk is put before the others of a bin, which does not count it.
abbrev pub push_chunk : ℕ → ℕ → Pool → Pool
push_chunk i chunk p = record p {
  chunk_next = relink p.chunk_next chunk (p.smallbins i).free;
  smallbins = set_bin p.smallbins i (record (p.smallbins i) { free = some chunk });
}

-- An access to a bin that there is.
abbrev pub in_bins : ℕ → Run Pool (Unit {0})
in_bins i = branch (ltb i total_bins) (pure tt) (stop out_of_bounds)

-- The loop of `block_alloc`, for `n` rounds, and the link behind it.
unfoldable pub link_chunks : ℕ → ℕ → ℕ → (ℕ → Option ℕ) → ℕ → Option ℕ
link_chunks size zero chunk next = relink next chunk none
link_chunks size (suc n) chunk next =
    link_chunks size n (chunk + size) (relink next chunk (some (chunk + size)))

-- `totalSize` of `block_alloc`.
unfoldable pub block_size : ℕ → ℕ → ℕ → ℕ
block_size size nums last_size =
    let total = size * nums % 2 ^ 64 in
    if ltb last_size total then round_up last_size size else total

-- What `block_alloc` does from line 367 on, where the last block is at `p`.
unfoldable pub carve : ℕ → ℕ → ℕ → ℕ → Pool → Pool
unfolding link_chunks
carve size nums total p pool = record pool {
  last_data = some (p + total);
  last_size = sub32 pool.last_size total;
  smallbins =
      set_bin pool.smallbins (smallbins_idx size)
        (record { nums = (nums - 1) % 2 ^ 16; free = some (p + size) });
  chunk_next =
      if ltb size total
      then link_chunks size (total_bins - 2) (p + size) pool.chunk_next
      else pool.chunk_next;
}

unfoldable pub block_alloc : ℕ → ℕ → Run Pool (Option ℕ)
unfolding ◌>>=◌ block_size carve
block_alloc size nums = do
  s ← gets (λ p. p.last_size)
  branch (ltb size s) (pure tt) (stop assertion)
  p ← gets (λ p. p.last_data)
  a ← deref null_pointer p
  in_bins (smallbins_idx size)
  modify (carve size nums (block_size size nums s) a)
  pure (some a)

unfoldable pub clear_block : Run Pool (Unit {0})
unfolding ◌>>=◌
clear_block = do
  p ← gets (λ p. p)
  a ← deref null_pointer p.last_data
  in_bins (smallbins_idx p.last_size)
  modify (push_chunk (smallbins_idx p.last_size) a)
  modify (λ q. record q {
    smallbins = λ i.
        if i == smallbins_idx p.last_size
        then record (q.smallbins i) { nums = ((q.smallbins i).nums + 1) % 2 ^ 16 }
        else q.smallbins i;
    last_size = 0;
    last_data = none;
  })

-- The first freed large chunk is `a`; `p_at` is the address of the caller's pointer, from which the
-- code counts the rest of the chunk.
unfoldable pub split_large : ℕ → ℕ → ℕ → Run Pool (Option ℕ)
unfolding ◌>>=◌
split_large p_at size a = do
  s ← gets (λ p. p.large_size a)
  branch (ltb max_mem_size (sub64 s size))
      (do
        modify (λ p. record p {
          large_size = λ k.
              if k == a
              then 0
              else if k == a + size
              then sub32 (p.large_size (a + size)) size
              else p.large_size k;
          large_next = relink (relink p.large_next (a + size) (p.large_next a)) a none;
        })
        pure (some a))
      (do
        in_bins (smallbins_idx (sub64 s size))
        modify (push_chunk (smallbins_idx (sub64 s size)) (p_at + size))
        pure (some a))

-- `none` for -1, and else what `*p` is set to.
unfoldable pub alloc_from_large : ℕ → ℕ → Run Pool (Option ℕ)
unfolding ◌>>=◌ split_large
alloc_from_large p_at size = do
  l ← gets (λ p. p.large_ctb)
  elim l [ none ↦ pure none | some a ↦ split_large p_at size a ]

-- A bin whose chunk is taken: its rest goes to a smaller bin.
unfoldable pub split_chunk : ℕ → ℕ → Run Pool (Option ℕ)
unfolding ◌>>=◌
split_chunk size i = do
  b ← gets (λ p. p.smallbins i)
  a ← deref null_pointer b.free
  modify (λ p. record p {
    smallbins =
        set_bin p.smallbins i
          (record { nums = (b.nums + 2 ^ 16 - 1) % 2 ^ 16; free = p.chunk_next a });
  })
  modify (push_chunk (smallbins_idx (i * 8 - size)) (a + size))
  pure (some a)

-- The loop from bin `i` on, with `n` bins left.
unfoldable pub try_bins : ℕ → ℕ → ℕ → Run Pool (Option ℕ)
unfolding ◌>>=◌ split_chunk
try_bins size zero i = pure none
try_bins size (suc n) i = do
  b ← gets (λ p. p.smallbins i)
  branch (ltb 0 b.nums) (split_chunk size i) (try_bins size n (i + 1))

unfoldable pub alloc_from_other_bins : ℕ → Run Pool (Option ℕ)
unfolding try_bins
alloc_from_other_bins size = try_bins size (total_bins - smallbins_idx size) (smallbins_idx size)

-- The walk to the end of the arenas.
unfoldable pub last_arena : ℕ → ℕ → (ℕ → Option ℕ) → Option ℕ
last_arena zero a next = none
last_arena (suc n) a next = elim (next a) [ none ↦ some a | some b ↦ last_arena n b next ]

-- `arena` is what `malloc` returns, whose link is not set, and `header` the size of an arena's head.
unfoldable pub create_non_main_arena : ℕ → ℕ → Option ℕ → ℕ → Run Pool Bool
unfolding ◌>>=◌ last_arena
create_non_main_arena rounds header none size = pure false
create_non_main_arena rounds header (some arena) size = do
  p ← gets (λ p. p)
  modify (λ p. record p {
    non_main_arena = elim p.non_main_arena [ none ↦ some arena | some b ↦ some b ];
  })
  tmp ← deref null_pointer p.non_main_arena
  end ← deref diverges (last_arena rounds tmp p.arena_next)
  modify (λ p. record p {
    arena_next = relink p.arena_next end (some arena);
    last_data = some (arena + header);
    last_size = (p.last_size + size) % 2 ^ 32;
  })
  pure true
