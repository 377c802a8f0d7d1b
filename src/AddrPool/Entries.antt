-- ===== src/AddrPool/Entries.antt =====
-- Every entry of the address pool is free or in use, and the counters agree with the lists.
use cmt_tcp.Prelude.{
  ℕ, ◌+◌, ◌^◌, ◌<◌, ◌≡◌, some, [], ◌∷◌, ltb, if◌then◌else◌, arith, length, count, count-snoc,
  count-erase, length-append, length-erase, erase_absent,
}
use cmt_tcp.Run.Keeps.{Returns}
use cmt_tcp.AddrPool.{AddrPool, lease, give_back}

pub record IsPool (ap : AddrPool) : Type 0 where
  pub once :
      (id : ℕ)
      → count id ap.free_list + count id ap.used_list ≡ (if ltb id ap.num_entry then 1 else 0)
  pub free_counted : ap.num_free ≡ length ap.free_list
  pub used_counted : ap.num_used ≡ length ap.used_list
  pub total : length ap.free_list + length ap.used_list ≡ ap.num_entry
  pub small : ap.num_entry < 2 ^ 32

pub lease-IsPool :
    (ap : AddrPool) (walk : ℕ) → IsPool ap → 0 < count walk ap.free_list → IsPool (lease walk ap)
lease-IsPool ap walk v member = record {
  once = λ id. ground (
    arith,
    v.once id,
    v.once walk,
    count-erase id walk ap.free_list,
    count-snoc id walk ap.used_list,
  );
  free_counted =
      omega (arith, v.free_counted, v.total, v.small, length-erase walk ap.free_list member);
  used_counted = omega (
    arith,
    v.used_counted,
    v.total,
    v.small,
    length-erase walk ap.free_list member,
    length-append {0} ap.used_list (walk ∷ []),
  );
  total = omega (
    arith,
    v.total,
    length-erase walk ap.free_list member,
    length-append {0} ap.used_list (walk ∷ []),
  );
  small = v.small;
}

pub give_back-IsPool :
    (ap : AddrPool) (walk : ℕ)
    → IsPool ap
    → 0 < count walk ap.used_list
    → Returns (λ d. IsPool d) (give_back (some walk) ap)
give_back-IsPool ap walk v member =
    let free = erase_absent walk ap.free_list (ground (arith, v.once walk)) in
    rw free record {
      once = λ id. ground (
        arith,
        v.once id,
        v.once walk,
        count-erase id walk ap.used_list,
        count-snoc id walk ap.free_list,
      );
      free_counted = omega (
        arith,
        v.free_counted,
        v.total,
        v.small,
        length-erase walk ap.used_list member,
        length-append {0} ap.free_list (walk ∷ []),
      );
      used_counted =
          omega (arith, v.used_counted, v.total, v.small, length-erase walk ap.used_list member);
      total = omega (
        arith,
        v.total,
        length-erase walk ap.used_list member,
        length-append {0} ap.free_list (walk ∷ []),
      );
      small = v.small;
    }
