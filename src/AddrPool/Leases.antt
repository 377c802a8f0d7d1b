-- ===== src/AddrPool/Leases.antt =====
-- An address that is fetched from the pool was free and is the one that was wanted.
use cmt_tcp.Prelude.{
  ℕ, ◌-◌, ◌^◌, ◌<◌, ◌≡◌, refl, ap, ◌∙◌, ◌⊎◌, inl, inr, Bool, true, Option, none, some, List, [],
  ◌∷◌, ◌==◌, arith, count, count-cons, count-nil, Bool-cases,
}
use cmt_tcp.Run.{Outcome, ok, fault}
use cmt_tcp.Run.Keeps.{Returns}
use cmt_tcp.Stream.{SockAddr}
use cmt_tcp.Rss.Symmetric.{get_rss_cpu_core_swap}
use cmt_tcp.AddrPool.{ByteOrder, AddrPool, entry_core, wanted, find_entry, lease, fetch_address}
use cmt_tcp.AddrPool.Entries.{IsPool, lease-IsPool}

module _ (h : ByteOrder) (core num_queues : ℕ) (endian_check : Bool) (queues : 0 < num_queues) where
  entry_core_known :
      (entry daddr : SockAddr)
      → (c : ℕ) × (entry_core h core num_queues endian_check entry daddr ≡ ok c)
  unfolding entry_core
  entry_core_known entry daddr =
      let lem =
        get_rss_cpu_core_swap (h.ntohl entry.sin_addr) (h.ntohl daddr.sin_addr)
          (h.ntohs entry.sin_port) (h.ntohs daddr.sin_port) num_queues endian_check queues in
      (lem.0, lem.1)

  module _ (pool : ℕ → SockAddr) (daddr saddr : SockAddr) where
    -- The entry is as wanted, and its connection to `daddr` belongs to the core.
    abbrev pub Suits : ℕ → Type 0
    Suits id =
        (wanted h core num_queues endian_check saddr (pool id) ≡ true)
        × (entry_core h core num_queues endian_check (pool id) daddr ≡ ok core)

    abbrev Found : List ℕ → Outcome (Option ℕ) → Type 0
    Found xs (ok (some id)) = (0 < count id xs) × Suits id
    Found xs (ok none) = (id : ℕ) → 0 < count id xs → ¬ Suits id
    Found xs (fault f) = ⊥

    Found-later :
        (walk : ℕ) (xs : List ℕ)
        → ¬ Suits walk
        → (o : Outcome (Option ℕ)) → Found xs o
        → Found (walk ∷ xs) o
    Found-later walk xs no_fit (ok (some id)) f = (omega (arith, f.0, count-cons id walk xs), f.1)
    Found-later walk xs no_fit (ok none) f = λ id member suits. elim (Bool-cases (walk == id)) [
      | inl same ↦ let e : walk ≡ id = ground (arith, same) in no_fit (rw e suits)
      | inr other ↦ f id (ground (arith, member, count-cons id walk xs)) suits
    ]
    Found-later walk xs no_fit (fault e) f = f

    find_entry_lem :
        (xs : List ℕ) → Found xs (find_entry h core num_queues endian_check pool daddr saddr xs)
    unfolding find_entry
    find_entry_lem [] = λ id member suits. absurd (omega (arith, member, count-nil id))
    find_entry_lem (walk ∷ xs) =
        let rest = find_entry_lem xs in
        let o = find_entry h core num_queues endian_check pool daddr saddr xs in
        elim (Bool-cases (wanted h core num_queues endian_check saddr (pool walk))) [
          | inr other ↦ rw other (Found-later walk xs (λ s. cc) o rest)
          | inl fits ↦
              let (c, known) = entry_core_known (pool walk) daddr in
              elim (Bool-cases (core == c)) [
                | inl same ↦
                    let e : c ≡ core = ground (arith, same) in
                    rw (fits, known, same)
                      (
                        ground (arith, count-cons walk walk xs),
                        (fits, known ∙ ap (λ (n : ℕ). ok n) e),
                      )
                | inr other ↦
                    rw (fits, known, other)
                      (Found-later walk xs (λ s. ground (arith, known, s.1, other)) o rest)
              ]
        ]

  module _ (p : AddrPool) (v : IsPool p) (daddr saddr : SockAddr) where
    abbrev pub Leased : ℕ → Type 0
    Leased walk =
        (fetch_address h core num_queues endian_check daddr saddr p
          ≡ ok ((0, p.pool walk), lease walk p))
        × (0 < count walk p.free_list)
        × Suits p.pool daddr saddr walk

    abbrev pub Refused : Type 0
    Refused =
        (fetch_address h core num_queues endian_check daddr saddr p ≡ ok ((2 ^ 32 - 1, saddr), p))
        × ((id : ℕ) → 0 < count id p.free_list → ¬ Suits p.pool daddr saddr id)

    outcome :
        (o : Outcome (Option ℕ))
        → Found p.pool daddr saddr p.free_list o
        → find_entry h core num_queues endian_check p.pool daddr saddr p.free_list ≡ o
        → ((walk : ℕ) × Leased walk) ⊎ Refused
    unfolding fetch_address
    outcome (ok (some walk)) f e = inl (walk, (rw e, f.0, f.1))
    outcome (ok none) f e = inr (rw e, f)
    outcome (fault x) f e = absurd f

    -- With at least one queue, fetching an address either hands out a free entry that is as wanted
    -- and belongs to the core, which goes from the free list to the used one, or returns -1 and
    -- changes nothing, and then no free entry is as wanted and belongs to the core.
    pub fetch_address-Leased : ((walk : ℕ) × Leased walk) ⊎ Refused
    fetch_address-Leased =
        outcome (find_entry h core num_queues endian_check p.pool daddr saddr p.free_list)
          (find_entry_lem p.pool daddr saddr p.free_list) refl

    -- The entries stay free or in use, once each, and the counters agree with the lists.
    pub fetch_address-IsPool :
        Returns IsPool (fetch_address h core num_queues endian_check daddr saddr p)
    fetch_address-IsPool = elim fetch_address-Leased [
      | inl (walk, (done, member, suits)) ↦ rw done (lease-IsPool p walk v member)
      | inr (done, none_fits) ↦ rw done v
    ]
