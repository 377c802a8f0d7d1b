-- ===== src/Flows.antt =====
-- The keys of the flow table and of the listener table of src/tcp_stream_hash.c, and the operations
-- on these two tables that reach their bucket. A `char` is signed and the bytes of a word stand with
-- the lowest first, as on x86.
pub mod Keys
pub mod Tables
use cmt_tcp.Prelude.{
  ℕ, ◌+◌, ◌-◌, ◌*◌, ◌/◌, ◌%◌, ◌^◌, Bool, ◌&&◌, Option, List, [], ◌∷◌, ◌++◌, ltb, ◌==◌,
  if◌then◌else◌, bit_xor, add32,
}
use cmt_tcp.Run.{Run, pure, gets, modify, ◌>>=◌, ◌>>◌}
use cmt_tcp.Stream.{Stream, SockAddr}
use cmt_tcp.HashTable.{
  HashTable, bucket_at, put_bucket, the_table, find_walker, typed_search, typed_remove,
}

abbrev pub num_bins_flows : ℕ
num_bins_flows = 131072

abbrev pub num_bins_listener : ℕ
num_bins_listener = 1024

-- A byte read through a `char *` and added to a word.
abbrev pub sign_extend : ℕ → ℕ
sign_extend b = if ltb b 128 then b else b + 2 ^ 32 - 256

-- The twelve bytes from `saddr` on: the addresses, then the ports.
unfoldable pub flow_bytes : Stream → List ℕ
flow_bytes s =
    s.saddr % 256
    ∷ (s.saddr / 256) % 256
    ∷ (s.saddr / 65536) % 256
    ∷ (s.saddr / 16777216) % 256
    ∷ s.daddr % 256
    ∷ (s.daddr / 256) % 256
    ∷ (s.daddr / 65536) % 256
    ∷ (s.daddr / 16777216) % 256
    ∷ s.sport % 256
    ∷ (s.sport / 256) % 256
    ∷ s.dport % 256
    ∷ (s.dport / 256) % 256
    ∷ []

-- `hash += b; hash += hash << 10; hash ^= hash >> 6`
unfoldable pub mix_byte : ℕ → ℕ → ℕ
mix_byte hash b =
    let added = add32 hash (sign_extend b) in
    let spread = add32 added (added * 2 ^ 10) in bit_xor spread (spread / 2 ^ 6)

unfoldable pub mix_bytes : ℕ → List ℕ → ℕ
mix_bytes hash [] = hash
mix_bytes hash (b ∷ bs) = mix_bytes (mix_byte hash b) bs

-- Both loops of the hash, and its last mixing.
unfoldable pub hash_bytes : List ℕ → ℕ
unfolding mix_bytes mix_byte
hash_bytes bs =
    let mixed = mix_bytes 0 bs in
    let spread = add32 mixed (mixed * 2 ^ 3) in
    let folded = bit_xor spread (spread / 2 ^ 11) in add32 folded (folded * 2 ^ 15) % num_bins_flows

unfoldable pub hash_flow : Stream → ℕ
hash_flow s = hash_bytes (flow_bytes s)

unfoldable pub equal_flow : Stream → Stream → Bool
equal_flow a b =
    (a.saddr == b.saddr) && (a.sport == b.sport) && (a.daddr == b.daddr) && (a.dport == b.dport)

-- A listener with its socket, whose address the table reads through two pointers.
pub record Bound : Type 0 where
  pub id : ℕ
  pub s_addr : SockAddr

unfoldable pub hash_listener : Bound → ℕ
hash_listener l = l.s_addr.sin_port % num_bins_listener

-- `equal_listern` in the file, `equal_listener` in the header.
unfoldable pub equal_listener : Bound → Bound → Bool
equal_listener a b = a.s_addr.sin_port == b.s_addr.sin_port

-- `stream_ht_insert`, as it reads with the address of the bucket that it means.
unfoldable pub stream_ht_insert : Stream → Run (HashTable Stream) ℕ
unfolding bucket_at ◌>>=◌
stream_ht_insert it = do
  t ← the_table
  head ← bucket_at (t.hash it)
  put_bucket (t.hash it) (it ∷ head)
  modify (λ t. record t { ht_count = (t.ht_count + 1) % 256 })
  pure 0

-- Without a `return`, for which no value is given.
unfoldable pub listen_ht_insert : Bound → Run (HashTable Bound) (Unit {0})
unfolding bucket_at ◌>>=◌
listen_ht_insert it = do
  t ← the_table
  head ← bucket_at (t.hash it)
  put_bucket (t.hash it) (it ∷ head)
  modify (λ t. record t { ht_count = (t.ht_count + 1) % 256 })

-- The key is a listener on the stack, with a socket of that port and no address.
abbrev pub listener_key : ℕ → Bound
listener_key port = record { id = 0; s_addr = record { sin_port = port; sin_addr = 0 } }

unfoldable pub listen_ht_search : ℕ → Run (HashTable Bound) (Option Bound)
unfolding typed_search
listen_ht_search port = typed_search (listener_key port)

unfoldable pub listen_ht_remove : Bound → Run (HashTable Bound) (Option Bound)
unfolding typed_remove
listen_ht_remove it = typed_remove it
