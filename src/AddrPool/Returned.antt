-- ===== src/AddrPool/Returned.antt =====
-- Giving addresses back to the pool of src/addr_pool.c.
use cmt_tcp.Prelude.{
  ℕ, ◌+◌, ◌<◌, ◌≡◌, refl, ap, sym, subst, ◌∙◌, inl, inr, Bool, some, List, [], ◌∷◌, ◌++◌, add32,
  sub32, arith, length, count, erase, count-snoc, count-erase, length-append, length-erase,
  erase_absent, erase-snoc,
}
use cmt_tcp.Run.{Outcome, ok, fault}
use cmt_tcp.Stream.{SockAddr}
use cmt_tcp.AddrPool.{ByteOrder, AddrPool, lease, fetch_address, entry_of, free_address}
use cmt_tcp.AddrPool.Entries.{IsPool, lease-IsPool, give_back-IsPool}
use cmt_tcp.AddrPool.Leases.{fetch_address-Leased}

-- The map finds every entry by its address.
pub record IsMapped (h : ByteOrder) (p : AddrPool) : Type 0 where
  pub found : (id : ℕ) → id < p.num_entry → entry_of h p (p.pool id) ≡ some id

module _ (h : ByteOrder) (p : AddrPool) (v : IsPool p) (m : IsMapped h p) where
  listed : (id : ℕ) → 0 < count id p.free_list + count id p.used_list → id < p.num_entry
  listed id member = ground (arith, v.once id)

  -- Giving back an address in use returns 0, and its entry goes to the end of the free list; the
  -- entries stay free or in use, once each, and the counters agree with the lists.
  pub free_address-used :
      (walk : ℕ)
      → 0 < count walk p.used_list
      → (q : AddrPool) × (free_address h (p.pool walk) p ≡ ok (0, q))
        × IsPool q
        × (q.free_list ≡ p.free_list ++ walk ∷ [])
        × (q.used_list ≡ erase walk p.used_list)
  unfolding free_address
  free_address-used walk member =
      let known = m.found walk (listed walk (omega arith)) in
      let free = erase_absent walk p.free_list (ground (arith, v.once walk)) in
      (
        record p {
          used_list = erase walk p.used_list;
          free_list = erase walk p.free_list ++ walk ∷ [];
          num_free = add32 p.num_free 1;
          num_used = sub32 p.num_used 1;
        },
        rw known,
        give_back-IsPool p walk v member,
        rw free,
        refl,
      )

  -- Giving back an address that is free already returns 0 as well, and leaves the counters wrong:
  -- one free entry more than there are, and one in use less, or 2 ^ 32 - 1 where there were none.
  pub free_address-twice :
      (walk : ℕ)
      → 0 < count walk p.free_list
      → (q : AddrPool) × (free_address h (p.pool walk) p ≡ ok (0, q))
        × (length q.free_list ≡ p.num_free)
        × (q.num_free ≡ add32 p.num_free 1)
        × (q.used_list ≡ p.used_list)
        × (q.num_used ≡ sub32 (length p.used_list) 1)
  unfolding free_address
  free_address-twice walk member =
      let known = m.found walk (listed walk (omega arith)) in
      let unused = erase_absent walk p.used_list (ground (arith, v.once walk)) in
      (
        record p {
          used_list = erase walk p.used_list;
          free_list = erase walk p.free_list ++ walk ∷ [];
          num_free = add32 p.num_free 1;
          num_used = sub32 p.num_used 1;
        },
        rw known,
        omega (
          arith,
          v.free_counted,
          length-erase walk p.free_list member,
          length-append {0} (erase walk p.free_list) (walk ∷ []),
        ),
        refl,
        unused,
        ap (λ (n : ℕ). sub32 n 1) v.used_counted,
      )

-- The address `a` can be given back to `p'`: that returns 0, and then the entries that are free, up
-- to their order, those in use and both counters are the ones of `p`.
abbrev pub Restored : ByteOrder → AddrPool → SockAddr → AddrPool → Type 0
Restored h p a p' =
    (q : AddrPool) × (free_address h a p' ≡ ok (0, q))
    × ((id : ℕ) → count id q.free_list ≡ count id p.free_list)
    × (q.used_list ≡ p.used_list)
    × (q.num_free ≡ p.num_free)
    × (q.num_used ≡ p.num_used)

module _ (h : ByteOrder) (p : AddrPool) (v : IsPool p) (m : IsMapped h p) where
  lease-IsMapped : (walk : ℕ) → IsMapped h (lease walk p)
  unfolding entry_of
  lease-IsMapped walk = record { found = m.found }

  restore : (walk : ℕ) → 0 < count walk p.free_list → Restored h p (p.pool walk) (lease walk p)
  restore walk member =
      let w = lease-IsPool p walk v member in
      let used : 0 < count walk (p.used_list ++ walk ∷ []) =
        ground (arith, count-snoc walk walk p.used_list) in
      let (q, done, wq, free_q, used_q) =
        free_address-used h (lease walk p) w (lease-IsMapped walk) walk used in
      let back = erase-snoc walk p.used_list (ground (arith, v.once walk)) in
      (
        q,
        done,
        λ id. rw free_q (
            ground (
              arith,
              count-snoc id walk (erase walk p.free_list),
              count-erase id walk p.free_list,
            )),
        used_q ∙ back,
        omega (
          arith,
          wq.free_counted,
          v.free_counted,
          ap (λ (l : List ℕ). length l) free_q,
          length-append {0} (erase walk p.free_list) (walk ∷ []),
          length-erase walk p.free_list member,
        ),
        omega
            (arith, wq.used_counted, v.used_counted, ap (λ (l : List ℕ). length l) (used_q ∙ back)),
      )

  abbrev value : {A : Type 0} → Outcome A → A → A
  value (ok r) d = r
  value (fault f) d = d

  module _ (core num_queues : ℕ) (endian_check : Bool) (queues : 0 < num_queues)
      (daddr saddr : SockAddr) where
    -- An address that was fetched can be given back: that returns 0 and restores which entries are
    -- free, though not their order, which are in use, and both counters.
    pub free_address-fetch_address :
        (a : SockAddr) (p' : AddrPool)
        → fetch_address h core num_queues endian_check daddr saddr p ≡ ok ((0, a), p')
        → Restored h p a p'
    free_address-fetch_address a p' e =
        elim (fetch_address-Leased h core num_queues endian_check queues p v daddr saddr) [
          | inl (walk, (done, member, suits)) ↦
              let same =
                ap (λ (o : Outcome ((ℕ × SockAddr) × AddrPool)). value o ((0, a), p))
                  (sym done ∙ e) in
              subst (λ (r : (ℕ × SockAddr) × AddrPool). Restored h p r.0.1 r.1) same
                (restore walk member)
          | inr (done, none_fits) ↦
              let same =
                ap (λ (o : Outcome ((ℕ × SockAddr) × AddrPool)). (value o ((0, a), p)).0.0)
                  (sym done ∙ e) in
              absurd (omega (arith, same))
        ]
