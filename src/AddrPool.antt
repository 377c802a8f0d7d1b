-- ===== src/AddrPool.antt =====
-- The pool of local addresses and ports, src/addr_pool.c. A pointer to an entry is the entry's place
-- in `ap->pool`; `addr` and `port` are in network order, as `struct sockaddr_in` keeps them. The
-- lock is held from the first to the last access of every operation, so that each is one step.
pub mod Entries
pub mod Creation
pub mod Leases
pub mod Returned
pub mod PerCore
use cmt_tcp.Prelude.{
  ℕ, zero, suc, ◌+◌, ◌-◌, ◌*◌, ◌/◌, ◌%◌, ◌^◌, ◌<◌, ◌≡◌, Bool, true, false, not, ◌&&◌, ◌||◌, Option,
  none, some, List, [], ◌∷◌, ◌++◌, ltb, leb, ◌==◌, if◌then◌else◌, add32, sub32, erase,
}
use cmt_tcp.Run.{Outcome, ok, fault, division, Run, pure, gets, modify, branch, ◌>>=◌, ◌>>◌}
use cmt_tcp.Stream.{SockAddr}
use cmt_tcp.Rss.{get_rss_cpu_core}

-- `htonl`, `htons`, `ntohl` and `ntohs` of the C library.
pub record ByteOrder : Type 0 where
  pub htonl : ℕ → ℕ
  pub htons : ℕ → ℕ
  pub ntohl : ℕ → ℕ
  pub ntohs : ℕ → ℕ
  pub ntohl-htonl : (x : ℕ) → x < 2 ^ 32 → ntohl (htonl x) ≡ x
  pub ntohs-htons : (x : ℕ) → x < 2 ^ 16 → ntohs (htons x) ≡ x

abbrev pub min_port : ℕ
min_port = 1025

abbrev pub max_port : ℕ
max_port = 65536

-- `addr_pool_t`
pub record AddrPool : Type 0 where
  pub pool : ℕ → SockAddr
  pub mapper : ℕ → ℕ → Option ℕ
  pub addr_base : ℕ
  pub num_addr : ℕ
  pub num_entry : ℕ
  pub num_free : ℕ
  pub num_used : ℕ
  pub free_list : List ℕ
  pub used_list : List ℕ

abbrev pub lease : ℕ → AddrPool → AddrPool
lease walk ap = record ap {
  free_list = erase walk ap.free_list;
  used_list = ap.used_list ++ walk ∷ [];
  num_free = sub32 ap.num_free 1;
  num_used = add32 ap.num_used 1;
}

-- The result and `*saddr`; -1 is its pattern.
abbrev pub hand_out : SockAddr → AddrPool → Outcome (Option ℕ) → Outcome ((ℕ × SockAddr) × AddrPool)
hand_out saddr ap (ok (some walk)) = ok ((0, ap.pool walk), lease walk ap)
hand_out saddr ap (ok none) = ok ((2 ^ 32 - 1, saddr), ap)
hand_out saddr ap (fault f) = fault f

abbrev first : List ℕ → Option ℕ
first [] = none
first (walk ∷ next) = some walk

-- An entry is unlinked from the list in which it stands: where it is a free one, from the free
-- list (and as that list's last entry it takes the tail pointer of the used list with it, which
-- is not kept here).
abbrev pub give_back : Option ℕ → AddrPool → Outcome (ℕ × AddrPool)
give_back none ap = ok (2 ^ 32 - 1, ap)
give_back (some walk) ap = ok (
  0,
  record ap {
    used_list = erase walk ap.used_list;
    free_list = erase walk ap.free_list ++ walk ∷ [];
    num_free = add32 ap.num_free 1;
    num_used = sub32 ap.num_used 1;
  },
)

unfoldable pub fetch_address_per_core : SockAddr → Run AddrPool (ℕ × SockAddr)
fetch_address_per_core saddr ap = hand_out saddr ap (ok (first ap.free_list))

module _ (h : ByteOrder) where
  -- The body of the inner loop: entry `cnt` gets port `j` of address `i`.
  unfoldable pub add_entry : ℕ → ℕ → AddrPool → AddrPool
  add_entry i j ap = record ap {
    pool = λ k.
        if k == ap.num_entry
        then record { sin_port = h.htons j; sin_addr = h.htonl (add32 ap.addr_base i) }
        else ap.pool k;
    mapper = λ a p. if (a == i) && (p == j) then some ap.num_entry else ap.mapper a p;
    free_list = ap.free_list ++ ap.num_entry ∷ [];
    num_entry = ap.num_entry + 1;
  }

  -- The loops with `n` rounds left. `cnt` is kept in `num_entry`, which the code sets to it at the
  -- end; it reaches the bound of the inner loop with the last round of all.
  unfoldable pub add_ports : ℕ → ℕ → ℕ → AddrPool → AddrPool
  add_ports zero i j ap = ap
  add_ports (suc n) i j ap = add_ports n i (j + 1) (add_entry i j ap)

  unfoldable pub add_addrs : ℕ → ℕ → AddrPool → AddrPool
  add_addrs zero i ap = ap
  add_addrs (suc n) i ap = add_addrs n (i + 1) (add_ports (max_port - min_port) i min_port ap)

  -- What the allocations, which give zeros, and the first assignments leave.
  abbrev pub new_pool : ℕ → ℕ → AddrPool
  new_pool addr_base num_addr = record {
    pool = λ k. record { sin_port = 0; sin_addr = 0 };
    mapper = λ a p. none;
    addr_base = h.ntohl addr_base;
    num_addr = num_addr;
    num_entry = 0;
    num_free = 0;
    num_used = 0;
    free_list = [];
    used_list = [];
  }

  -- Where the allocations and the lock's initialisation succeed.
  pub create_address_pool : ℕ → ℕ → AddrPool
  create_address_pool addr_base num_addr =
      let filled = add_addrs num_addr 0 (new_pool addr_base num_addr) in
      record filled { num_free = filled.num_entry }

  abbrev pub add_if : Bool → ℕ → ℕ → AddrPool → AddrPool
  add_if true i j ap = add_entry i j ap
  add_if false i j ap = ap

  module _ (core num_queues : ℕ) (endian_check : Bool) (daddr dport : ℕ) where
    -- `rss_core == core`; there is a core wherever there are queues.
    unfoldable pub admits : ℕ → ℕ → Bool
    admits saddr_h sport_h =
        elim (get_rss_cpu_core (h.ntohl daddr) saddr_h (h.ntohs dport) sport_h num_queues
          endian_check) [ ok rss_core ↦ rss_core == core | fault f ↦ false ]

    -- The inner loop with `n` rounds left ends where `bound` entries are taken.
    add_core_ports : ℕ → ℕ → ℕ → ℕ → AddrPool → AddrPool
    add_core_ports bound zero i j ap = ap
    add_core_ports bound (suc n) i j ap =
        let rest =
          add_core_ports bound n i (j + 1) (add_if (admits (add32 ap.addr_base i) j) i j ap) in
        if leb bound ap.num_entry then ap else rest

    add_core_addrs : ℕ → ℕ → ℕ → AddrPool → AddrPool
    add_core_addrs bound zero i ap = ap
    add_core_addrs bound (suc n) i ap =
        add_core_addrs bound n (i + 1) (add_core_ports bound (max_port - min_port) i min_port ap)

    -- `endian_check` is not declared in this function. The division by 0 queues stops the process.
    pub create_address_pool_per_core : ℕ → ℕ → Outcome AddrPool
    create_address_pool_per_core saddr_base num_addr =
        let bound = num_addr * (max_port - min_port) / num_queues in
        let filled = add_core_addrs bound num_addr 0 (new_pool saddr_base num_addr) in
        if num_queues == 0
        then fault division
        else ok (record filled { num_free = filled.num_entry })

  module _ (core num_queues : ℕ) (endian_check : Bool) where
    -- The core of an entry's connection to `daddr`.
    unfoldable pub entry_core : SockAddr → SockAddr → Outcome ℕ
    entry_core entry daddr =
        get_rss_cpu_core (h.ntohl entry.sin_addr) (h.ntohl daddr.sin_addr) (h.ntohs entry.sin_port)
          (h.ntohs daddr.sin_port) num_queues endian_check

    -- `saddr` may leave the address or the port open, by 0.
    unfoldable pub wanted : SockAddr → SockAddr → Bool
    wanted saddr entry =
        ((saddr.sin_addr == 0) || (entry.sin_addr == saddr.sin_addr))
        && ((saddr.sin_port == 0) || (entry.sin_port == saddr.sin_port))

    abbrev pub take_or : Outcome ℕ → ℕ → Outcome (Option ℕ) → Outcome (Option ℕ)
    take_or (ok c) id rest = if core == c then ok (some id) else rest
    take_or (fault f) id rest = fault f

    -- The loop over the free list.
    unfoldable pub find_entry : (ℕ → SockAddr) → SockAddr → SockAddr → List ℕ → Outcome (Option ℕ)
    find_entry pool daddr saddr [] = ok none
    find_entry pool daddr saddr (walk ∷ next) =
        let rest = find_entry pool daddr saddr next in
        if wanted saddr (pool walk) then take_or (entry_core (pool walk) daddr) walk rest else rest

    unfoldable pub fetch_address : SockAddr → SockAddr → Run AddrPool (ℕ × SockAddr)
    fetch_address daddr saddr ap = hand_out saddr ap (find_entry ap.pool daddr saddr ap.free_list)

  -- The entry of an address in the map, which every pool has.
  unfoldable pub entry_of : AddrPool → SockAddr → Option ℕ
  entry_of ap addr =
      let index = sub32 (h.ntohl addr.sin_addr) ap.addr_base in
      if ltb index (2 ^ 31) && ltb index ap.num_addr
      then ap.mapper index (h.ntohs addr.sin_port)
      else none

  unfoldable pub free_address : SockAddr → Run AddrPool ℕ
  free_address addr ap = give_back (entry_of ap addr) ap
