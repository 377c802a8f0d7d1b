-- ===== src/Tests/Addresses.antt =====
-- Address pools at concrete values.
use cmt_tcp.Prelude.{
  ℕ, zero, suc, ◌+◌, ◌*◌, ◌/◌, ◌<◌, ◌≤◌, ◌≡◌, ◌⊎◌, refl, false, none, some, [], ◌∷◌, ◌==◌,
  if◌then◌else◌, ◌&&◌, arith, count-cons, count-nil,
}
use cmt_tcp.Run.{ok}
use cmt_tcp.Stream.{SockAddr}
use cmt_tcp.Rss.{get_rss_cpu_core, get_rss_hash, absorb, key_at}
use cmt_tcp.AddrPool.{
  ByteOrder, AddrPool, fetch_address, find_entry, wanted, entry_core, entry_of, lease,
  create_address_pool_per_core,
}
use cmt_tcp.AddrPool.Entries.{IsPool}
use cmt_tcp.AddrPool.Leases.{Leased, Refused, fetch_address-Leased}
use cmt_tcp.AddrPool.Returned.{IsMapped, Restored, free_address-fetch_address}
use cmt_tcp.AddrPool.PerCore.{create_address_pool_per_core-of_core}

-- A host with the order of the network.
abbrev host : ByteOrder
host = record {
  htonl = λ x. x;
  htons = λ x. x;
  ntohl = λ x. x;
  ntohs = λ x. x;
  ntohl-htonl = λ x lt. refl;
  ntohs-htons = λ x lt. refl;
}

-- Two ports of one address.
abbrev pair : AddrPool
pair = record {
  pool = λ k. record { sin_port = 2000 + k; sin_addr = 100 };
  mapper = λ a p.
      if (a == 0) && (p == 2000)
      then some 0
      else (if (a == 0) && (p == 2001) then some 1 else none);
  addr_base = 100;
  num_addr = 1;
  num_entry = 2;
  num_free = 2;
  num_used = 0;
  free_list = 0 ∷ 1 ∷ [];
  used_list = [];
}

pair-IsPool : IsPool pair
pair-IsPool = record {
  once = λ id. ground (arith, count-cons id 0 (1 ∷ []), count-cons id 1 [], count-nil id);
  free_counted = refl;
  used_counted = refl;
  total = refl;
  small = omega arith;
}

pair-found : (id : ℕ) → id < 2 → entry_of host pair (pair.pool id) ≡ some id
unfolding entry_of
pair-found zero lt = refl
pair-found (suc zero) lt = refl
pair-found (suc (suc id)) lt = absurd (omega arith)

pair-IsMapped : IsMapped host pair
pair-IsMapped = record { found = pair-found }

abbrev server : SockAddr
server = record { sin_port = 80; sin_addr = 7 }

abbrev any_port : SockAddr
any_port = record { sin_port = 0; sin_addr = 100 }

one_queue : 0 < 1
one_queue = omega arith

fetch_address-Leased_example :
    ((walk : ℕ) × Leased host 0 1 false one_queue pair pair-IsPool server any_port walk)
    ⊎ Refused host 0 1 false one_queue pair pair-IsPool server any_port
fetch_address-Leased_example =
    fetch_address-Leased host 0 1 false one_queue pair pair-IsPool server any_port

fetched : fetch_address host 0 1 false server any_port pair ≡ ok ((0, pair.pool 0), lease 0 pair)
unfolding fetch_address find_entry wanted entry_core get_rss_cpu_core get_rss_hash absorb key_at
fetched = refl

free_address-fetch_address_example : Restored host pair (pair.pool 0) (lease 0 pair)
free_address-fetch_address_example =
    free_address-fetch_address host pair pair-IsPool pair-IsMapped 0 1 false one_queue server
      any_port (pair.pool 0) (lease 0 pair) fetched

create_address_pool_per_core-of_core_example :
    (p : AddrPool) × (create_address_pool_per_core host 3 8 false 7 80 100 2 ≡ ok p)
    × IsPool p
    × IsMapped host p
    × (p.num_entry ≤ 2 * 64511 / 8)
    × ((id : ℕ) → id < p.num_entry → entry_core host 3 8 false (p.pool id) server ≡ ok 3)
create_address_pool_per_core-of_core_example =
    create_address_pool_per_core-of_core host 3 8 false 7 80 (omega arith) 100 2 (omega arith)
      (omega arith)
