-- ===== src/HashTable.antt =====
-- The tables of src/tcp_stream_hash.c (include/tcp_stream_hash.h): an array of buckets, each a list
-- in the order of its links. `ht->hash` and `ht->eq` are fields of the table, as in the source.
pub mod Lookup
pub mod Contents
pub mod Removal
use cmt_tcp.Prelude.{
  ℕ, ◌+◌, ◌%◌, Bool, not, Option, none, some, List, [], ◌∷◌, get_elem?, set, replicate,
  if◌then◌else◌,
}
use cmt_tcp.Run.{Run, pure, stop, null_pointer, out_of_bounds, deref, gets, modify, ◌>>=◌, ◌>>◌}

-- `cmt_hashtable_t` and `cmt_tcp_hashtable_t`. `tqh_last` is only written by the code.
pub record HashTable (A : Type 0) : Type 0 where
  pub ht_count : ℕ
  pub bins : ℕ
  pub table : List (List A)
  pub hash : A → ℕ
  pub eq : A → A → Bool

module _ {A : Type 0} where
  -- What the assignments and the loop of `create_stream_hashtable` make; `bins` is cut to eight bits
  -- by the field, not by the loop.
  unfoldable pub empty_table : (A → ℕ) → (A → A → Bool) → ℕ → HashTable A
  empty_table hash eq bins = record {
    ht_count = 0;
    bins = bins % 256;
    table = replicate bins [];
    hash = hash;
    eq = eq;
  }

  -- `got` says whether the table was allocated. It is what the code asks about once more after the
  -- allocation of the buckets, and then gives the table up.
  unfoldable pub create_hashtable : Bool → (A → ℕ) → (A → A → Bool) → ℕ → Option (HashTable A)
  create_hashtable got hash eq bins =
      if not got then none else if got then none else some (empty_table hash eq bins)

  -- The loops over a bucket: `it` first for the general table, the walker first for the typed ones.
  unfoldable pub find : (A → A → Bool) → A → List A → Option A
  find eq it [] = none
  find eq it (walk ∷ rest) = if eq it walk then some walk else find eq it rest

  unfoldable pub find_walker : (A → A → Bool) → A → List A → Option A
  find_walker eq it [] = none
  find_walker eq it (walk ∷ rest) = if eq walk it then some walk else find_walker eq it rest

  unfoldable pub drop_first : (A → A → Bool) → A → List A → List A
  drop_first eq it [] = []
  drop_first eq it (walk ∷ rest) = if eq it walk then rest else walk ∷ drop_first eq it rest

  abbrev pub the_table : Run (HashTable A) (HashTable A)
  the_table = gets (λ t. t)

  unfoldable pub bucket_at : ℕ → Run (HashTable A) (List A)
  unfolding ◌>>=◌
  bucket_at idx = do t ← the_table; deref out_of_bounds (get_elem? t.table idx)

  abbrev pub put_bucket : ℕ → List A → Run (HashTable A) (Unit {0})
  put_bucket idx b = modify (λ t. record t { table = set t.table idx b })

  unfoldable pub ht_search : A → Run (HashTable A) (Option A)
  unfolding bucket_at ◌>>=◌
  ht_search it = do t ← the_table; head ← bucket_at (t.hash it); pure (find t.eq it head)

  unfoldable pub ht_insert : A → Run (HashTable A) ℕ
  unfolding bucket_at ◌>>=◌
  ht_insert it = do
    t ← the_table
    head ← bucket_at (t.hash it)
    put_bucket (t.hash it) (it ∷ head)
    modify (λ t. record t { ht_count = (t.ht_count + 1) % 256 })
    pure 0

  unfoldable pub ht_remove : A → Run (HashTable A) (Option A)
  unfolding bucket_at ◌>>=◌
  ht_remove it = do
    t ← the_table
    head ← bucket_at (t.hash it)
    put_bucket (t.hash it) (drop_first t.eq it head)
    pure (find t.eq it head)

  -- The search of the typed tables, from a bucket of the array.
  unfoldable pub typed_search : A → Run (HashTable A) (Option A)
  unfolding bucket_at ◌>>=◌
  typed_search it = do t ← the_table; head ← bucket_at (t.hash it); pure (find_walker t.eq it head)

  -- The loop of `listen_ht_remove` from `walk` on: the list after it, and the value returned.
  unfoldable pub unlink_next : (A → A → Bool) → A → A → List A → List A × Option A
  unlink_next eq it walk [] = ([], none)
  unlink_next eq it walk (next ∷ rest) =
      let (after, found) = unlink_next eq it next rest in
      if eq next it then (rest, some walk) else (next ∷ after, found)

  -- A first entry that matches leaves the bucket, and the loop goes on from it all the same: a
  -- match right behind it is cut off its link alone.
  unfoldable pub unlink_after : (A → A → Bool) → A → A → List A → List A × Option A
  unlink_after eq it walk [] = ([], none)
  unlink_after eq it walk (next ∷ rest) =
      if eq next it
      then (next ∷ rest, some walk)
      else (let (after, found) = unlink_next eq it next rest in (next ∷ after, found))

  unfoldable pub unlink : (A → A → Bool) → A → A → List A → List A × Option A
  unfolding unlink_after unlink_next
  unlink eq it walk rest =
      if eq walk it
      then unlink_after eq it walk rest
      else (let (after, found) = unlink_next eq it walk rest in (walk ∷ after, found))

  -- An empty bucket is compared through its null pointer.
  unfoldable pub remove_from : A → List A → Run (HashTable A) (Option A)
  unfolding ◌>>=◌ unlink
  remove_from it [] = stop null_pointer
  remove_from it (walk ∷ rest) = do
    t ← the_table
    put_bucket (t.hash it) (unlink t.eq it walk rest).0
    pure (unlink t.eq it walk rest).1

  unfoldable pub typed_remove : A → Run (HashTable A) (Option A)
  unfolding bucket_at ◌>>=◌ remove_from
  typed_remove it = do t ← the_table; head ← bucket_at (t.hash it); remove_from it head
