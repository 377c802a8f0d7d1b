-- ===== src/Rss.antt =====
-- Receive-side scaling, src/rss.c: the core to which the network card gives a connection's packets.
pub mod Symmetric
use cmt_tcp.Prelude.{
  ℕ, zero, suc, ◌+◌, ◌-◌, ◌*◌, ◌/◌, ◌%◌, ◌^◌, Bool, List, [], ◌∷◌, get_or, ◌==◌, if◌then◌else◌,
  bit_or, bit_xor, add32,
}
use cmt_tcp.Run.{Outcome, ok, fault, division}

abbrev pub key : List ℕ
key =
    0x6D ∷ 0x5A ∷ 0x6D ∷ 0x5A ∷ 0x6D ∷ 0x5A ∷ 0x6D ∷ 0x5A ∷ 0x6D ∷ 0x5A ∷ 0x6D ∷ 0x5A ∷ 0x6D ∷ 0x5A
    ∷ 0x6D ∷ 0x5A ∷ 0x6D ∷ 0x5A ∷ 0x6D ∷ 0x5A ∷ 0x6D ∷ 0x5A ∷ 0x6D ∷ 0x5A ∷ 0x6D ∷ 0x5A ∷ 0x6D
    ∷ 0x5A ∷ 0x6D ∷ 0x5A ∷ 0x6D ∷ 0x5A ∷ 0x6D ∷ 0x5A ∷ 0x6D ∷ 0x5A ∷ 0x6D ∷ 0x5A ∷ 0x6D ∷ 0x5A ∷ []

-- The loop of `BuildKeyCache` with `n` rounds left: the places that it still writes.
unfoldable pub build_keys : ℕ → ℕ → ℕ → List ℕ
build_keys zero idx result = []
build_keys (suc n) idx result =
    let bit : ℕ = if (get_or key (idx / 8) 0 * 2 ^ (idx % 8) / 128) % 2 == 1 then 1 else 0 in
    result ∷ build_keys n (idx + 1) (bit_or (result * 2 % 2 ^ 32) bit)

unfoldable pub build_key_cache : ℕ → List ℕ
unfolding build_keys
build_key_cache cache_len = build_keys cache_len 32 (
    bit_or
      (bit_or (bit_or (get_or key 0 0 * 2 ^ 24) (get_or key 1 0 * 2 ^ 16)) (get_or key 2 0 * 2 ^ 8))
      (get_or key 3 0))

-- `key_cache[i]` once the first call has filled it.
unfoldable pub key_at : ℕ → ℕ
unfolding build_key_cache
key_at i = get_or (build_key_cache 96) i 0

-- A loop of `GetRSSHash` over the `w` bits of a word, with `n` rounds left, from `key_cache[i]` on.
unfoldable pub absorb : ℕ → ℕ → ℕ → ℕ → ℕ → ℕ
absorb w zero i word res = res
absorb w (suc n) i word res =
    absorb w n (i + 1) (word * 2 % 2 ^ w)
      (if (word / 2 ^ (w - 1)) % 2 == 1 then bit_xor res (key_at i) else res)

unfoldable pub get_rss_hash : ℕ → ℕ → ℕ → ℕ → ℕ
get_rss_hash sip dip sp dp =
    absorb 16 16 80 dp (absorb 16 16 64 sp (absorb 32 32 32 dip (absorb 32 32 0 sip 0)))

-- `off[masked & 0x3]`
unfoldable pub off : ℕ → ℕ
off i = get_or (3 ∷ 1 ∷ (2 ^ 32 - 1) ∷ (2 ^ 32 - 3) ∷ []) i 0

-- What the card makes of the hash: nine bits with the bytes of its table swapped, or seven bits.
unfoldable pub masked : Bool → ℕ → ℕ
unfolding off
masked endian_check hash =
    if endian_check then add32 (hash % 512) (off (hash % 512 % 4)) else hash % 128

-- The remainder by 0 queues stops the process.
unfoldable pub get_rss_cpu_core : ℕ → ℕ → ℕ → ℕ → ℕ → Bool → Outcome ℕ
unfolding masked
get_rss_cpu_core sip dip sp dp num_queues endian_check =
    if num_queues == 0
    then fault division
    else ok (masked endian_check (get_rss_hash sip dip sp dp) % num_queues)
