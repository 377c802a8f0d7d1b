-- ===== src/AddrPool/PerCore.antt =====
-- A pool that is made for one core holds only addresses whose connections belong to it.
use cmt_tcp.Prelude.{
  ℕ, zero, suc, ◌+◌, ◌-◌, ◌*◌, ◌/◌, ◌^◌, ◌<◌, ◌≤◌, ◌≡◌, refl, ap, ◌∙◌, Bool, true, false, leb, ◌==◌,
  add32, arith, Bool-cases, inl, inr,
}
use cmt_tcp.Run.{ok}
use cmt_tcp.Stream.{SockAddr}
use cmt_tcp.Rss.Symmetric.{get_rss_cpu_core_swap}
use cmt_tcp.AddrPool.{
  ByteOrder, AddrPool, min_port, max_port, add_entry, new_pool, admits, add_if, add_core_ports,
  add_core_addrs, create_address_pool_per_core, entry_core,
}
use cmt_tcp.AddrPool.Entries.{IsPool}
use cmt_tcp.AddrPool.Returned.{IsMapped}
use cmt_tcp.AddrPool.Creation.{
  before, Filling, add_entry-Filling, further, empty-Filling, filled-IsPool, filled-IsMapped,
}

module _ (h : ByteOrder) (core num_queues : ℕ) (endian_check : Bool) (daddr dport : ℕ)
    (queues : 0 < num_queues) where
  abbrev remote : SockAddr
  remote = record { sin_port = dport; sin_addr = daddr }

  admitted-core :
      (saddr_h sport_h : ℕ)
      → saddr_h < 2 ^ 32
      → sport_h < 2 ^ 16
      → admits h core num_queues endian_check daddr dport saddr_h sport_h ≡ true
      → entry_core h core num_queues endian_check
          (record { sin_port = h.htons sport_h; sin_addr = h.htonl saddr_h })
          remote
        ≡ ok core
  unfolding admits entry_core
  admitted-core saddr_h sport_h room port adm =
      let (c, there, back, lt) =
        get_rss_cpu_core_swap (h.ntohl daddr) saddr_h (h.ntohs dport) sport_h num_queues
          endian_check queues in
      let same : c ≡ core = ground arith in
      rw (h.ntohl-htonl saddr_h room, h.ntohs-htons sport_h port) (back ∙ ap (λ (n : ℕ). ok n) same)

  module _ (base num bound : ℕ) where
    -- The pool while it is filled: below its bound, and of the core's addresses only.
    record Sorted (i j n : ℕ) (p : AddrPool) : Type 0 where
      filling : Filling h base num i j n p
      bounded : n ≤ bound
      of_core :
          (id : ℕ) → id < n → entry_core h core num_queues endian_check (p.pool id) remote ≡ ok core

    add_entry-of_core :
        (i j n : ℕ) (p : AddrPool)
        → add32 base i < 2 ^ 32
        → j < 65536
        → admits h core num_queues endian_check daddr dport (add32 base i) j ≡ true
        → Sorted i j n p
        → n < bound
        → Sorted i (j + 1) (n + 1) (add_entry h i j p)
    unfolding add_entry
    add_entry-of_core i j n p room port adm v free = record {
      filling = unfold add_entry in (add_entry-Filling h base num i j n p port v.filling);
      bounded = omega (arith, free);
      of_core = λ id lt. elim (Bool-cases (id == p.num_entry)) [
        | inl new ↦ rw (new, v.filling.base_kept) (admitted-core (add32 base i) j room port adm)
        | inr old ↦ rw old (v.of_core id (ground (arith, v.filling.entries)))
      ];
    }

    Sorted-further :
        (i j i' j' n : ℕ) (p : AddrPool)
        → ((a b : ℕ) → b < 65536 → before a b i j ≡ true → before a b i' j' ≡ true)
        → Sorted i j n p
        → Sorted i' j' n p
    Sorted-further i j i' j' n p later v = record {
      filling = further h base num i j i' j' n p later v.filling;
      bounded = v.bounded;
      of_core = v.of_core;
    }

    abbrev Reached : ℕ → ℕ → AddrPool → Type 0
    Reached i j p = (n : ℕ) × Sorted i j n p

    add_if-Sorted :
        (i j n : ℕ) (p : AddrPool) (b : Bool)
        → j < 65536
        → admits h core num_queues endian_check daddr dport (add32 p.addr_base i) j ≡ b
        → Sorted i j n p
        → n < bound
        → Reached i (j + 1) (add_if h b i j p)
    add_if-Sorted i j n p true port e v free =
        (n + 1, add_entry-of_core i j n p (omega arith) port (rw v.filling.base_kept at e) v free)
    add_if-Sorted i j n p false port e v free =
        (n, Sorted-further i j i (j + 1) n p (λ a b port' bef. ground arith) v)

    add_core_ports-Sorted :
        (k i j n : ℕ) (p : AddrPool)
        → j + k ≤ 65536
        → Sorted i j n p
        → Reached
            (i + 1)
            0
            (add_core_ports h core num_queues endian_check daddr dport bound k i j p)
    unfolding add_core_ports
    add_core_ports-Sorted zero i j n p port v =
        (n, Sorted-further i j (i + 1) 0 n p (λ a b port' bef. ground arith) v)
    add_core_ports-Sorted (suc k) i j n p port v = elim (Bool-cases (leb bound p.num_entry)) [
      | inl full ↦ rw full (n, Sorted-further i j (i + 1) 0 n p (λ a b port' bef. ground arith) v)
      | inr free ↦
          let (n', v') =
            add_if-Sorted i j n p _ (omega arith) refl v
              (ground (arith, v.filling.entries, free)) in
          rw free (add_core_ports-Sorted k i (j + 1) n' _ (omega arith) v')
    ]

    add_core_addrs-Sorted :
        (k i n : ℕ) (p : AddrPool)
        → Sorted i 0 n p
        → Reached (i + k) 0 (add_core_addrs h core num_queues endian_check daddr dport bound k i p)
    unfolding add_core_addrs
    add_core_addrs-Sorted zero i n p v =
        (n, Sorted-further i 0 (i + 0) 0 n p (λ a b port bef. ground arith) v)
    add_core_addrs-Sorted (suc k) i n p v =
        let start = Sorted-further i 0 i min_port n p (λ a b port bef. ground arith) v in
        let (n', v') =
          add_core_ports-Sorted (max_port - min_port) i min_port n p (omega arith) start in
        let (n2, v2) = add_core_addrs-Sorted k (i + 1) n' _ v' in
        (n2, Sorted-further (i + 1 + k) 0 (i + suc k) 0 n2 _ (λ a b port bef. ground arith) v2)

  share-lt :
      (num_addr n : ℕ) → n ≤ num_addr * 64511 / num_queues → num_addr * 64511 < 2 ^ 31 → n < 2 ^ 32
  share-lt num_addr n h k = grind arith

  -- With at least one queue, a new pool for one core, of addresses that fit below 2 ^ 32 from the
  -- base, few enough for an `int` to count their ports: it is valid, the map finds each entry by its
  -- address, it has no more than the core's share of the ports, and the connection of every entry to
  -- the remote address and port belongs to the core, as fetching an address reckons.
  pub create_address_pool_per_core-of_core :
      (saddr_base num_addr : ℕ)
      → h.ntohl saddr_base + num_addr ≤ 2 ^ 32
      → num_addr * 64511 < 2 ^ 31
      → (p : AddrPool) × (create_address_pool_per_core h core num_queues endian_check daddr dport
            saddr_base num_addr
          ≡ ok p)
        × IsPool p
        × IsMapped h p
        × (p.num_entry ≤ num_addr * 64511 / num_queues)
        × ((id : ℕ)
            → id < p.num_entry
            → entry_core h core num_queues endian_check (p.pool id) remote ≡ ok core)
  unfolding create_address_pool_per_core
  create_address_pool_per_core-of_core saddr_base num_addr room small =
      let bound = num_addr * 64511 / num_queues in
      let base = h.ntohl saddr_base in
      let start : Sorted base num_addr bound 0 0 0 (new_pool h saddr_base num_addr) = record {
        filling = empty-Filling h saddr_base num_addr;
        bounded = omega arith;
        of_core = λ id lt. absurd (omega arith);
      } in
      let (n, reached) =
        add_core_addrs-Sorted base num_addr bound num_addr 0 0 (new_pool h saddr_base num_addr)
          start in
      let v =
        Sorted-further base num_addr bound (0 + num_addr) 0 num_addr 0 n _
          (λ a b port bef. ground arith) reached in
      let some_queue : (num_queues == 0) ≡ false = ground arith in
      rw some_queue (
        _,
        refl,
        filled-IsPool h base num_addr n _ v.filling (share-lt num_addr n v.bounded small),
        filled-IsMapped h base num_addr n _ v.filling room (omega (arith, small)),
        omega (arith, v.filling.entries, v.bounded),
        λ id lt. v.of_core id (omega (arith, v.filling.entries, lt)),
      )
