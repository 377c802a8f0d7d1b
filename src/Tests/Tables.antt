-- ===== src/Tests/Tables.antt =====
-- Tables, cores and address pools at concrete values.
use cmt_tcp.Prelude.{
  ℕ, zero, suc, ◌+◌, ◌%◌, ◌<◌, ◌≡◌, refl, Bool, true, none, some, [], ◌∷◌, ◌==◌, if◌then◌else◌,
  arith,
}
use cmt_tcp.Run.{ok}
use cmt_tcp.HashTable.{HashTable, empty_table, find, ht_insert, ht_remove}
use cmt_tcp.HashTable.Lookup.{IsTable, Distinct, bucket, lookup}
use cmt_tcp.HashTable.Contents.{Holds, empty_table-lookup, ht_insert-lookup, ht_remove-lookup}
use cmt_tcp.Flows.{
  Bound, num_bins_listener, listener_key, hash_listener, equal_listener, listen_ht_insert,
  listen_ht_search,
}
use cmt_tcp.Flows.Keys.{hash_listener-IsKeyed}
use cmt_tcp.Flows.Tables.{listen_ht_search-insert}
use cmt_tcp.Rss.{get_rss_cpu_core}
use cmt_tcp.Rss.Symmetric.{get_rss_cpu_core_swap}

abbrev parity : ℕ → ℕ
parity a = a % 2

abbrev same : ℕ → ℕ → Bool
same a b = a == b

abbrev small : HashTable ℕ
small = record {
  ht_count = 3;
  bins = 2;
  table = (4 ∷ 2 ∷ []) ∷ (7 ∷ []) ∷ [];
  hash = parity;
  eq = same;
}

small-Distinct : (i : ℕ) → Distinct same (bucket small i)
unfolding find
small-Distinct zero = ground arith
small-Distinct (suc zero) = ground arith
small-Distinct (suc (suc i)) = tt

small-IsTable : IsTable small
small-IsTable = record {
  keyed = record {
    in_range = λ a. omega arith;
    same_bucket = λ a b h. ground arith;
    eq_comm = λ a b. ground arith;
    eq_along = λ a b c h. ground arith;
  };
  distinct = small-Distinct;
}

absent : lookup small 9 ≡ none
unfolding find
absent = refl

ht_insert-lookup_example :
    (t' : HashTable ℕ) × (ht_insert 9 small ≡ ok (0, t'))
    × Holds small t' 9 (some 9)
    × (t'.ht_count ≡ (3 + 1) % 256)
ht_insert-lookup_example = ht_insert-lookup small small-IsTable 9 absent

ht_remove-lookup_example :
    (t' : HashTable ℕ) × (ht_remove 2 small ≡ ok (lookup small 2, t'))
    × Holds small t' 2 none
    × (t'.ht_count ≡ 3)
ht_remove-lookup_example = ht_remove-lookup small small-IsTable 2

abbrev listeners : HashTable Bound
listeners = empty_table hash_listener equal_listener num_bins_listener

abbrev web : Bound
web = record { id = 1; s_addr = record { sin_port = 80; sin_addr = 0 } }

by_ports : listeners.eq ≡ equal_listener
unfolding empty_table
by_ports = refl

listen_ht_search-insert_example :
    (t' : HashTable Bound) × (listen_ht_insert web listeners ≡ ok (tt, t'))
    × IsTable t'
    × ((port : ℕ)
        → listen_ht_search port t'
          ≡ ok (if port == 80 then some web else lookup listeners (listener_key port), t'))
listen_ht_search-insert_example =
    listen_ht_search-insert listeners
      (empty_table-lookup hash_listener equal_listener num_bins_listener hash_listener-IsKeyed).0
      by_ports web
      ((empty_table-lookup hash_listener equal_listener num_bins_listener hash_listener-IsKeyed).1
        web)

get_rss_cpu_core_swap_example :
    (core : ℕ) × (get_rss_cpu_core 167772161 167772162 40000 80 8 true ≡ ok core)
    × (get_rss_cpu_core 167772162 167772161 80 40000 8 true ≡ ok core)
    × (core < 8)
get_rss_cpu_core_swap_example =
    get_rss_cpu_core_swap 167772161 167772162 40000 80 8 true (omega arith)
