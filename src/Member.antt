-- ===== src/Member.antt =====
-- One stream in one list of streams: its flag, its place, and the list's counter.
use cmt_tcp.Prelude.{
  ℕ, ◌%◌, ◌^◌, ◌≡◌, Bool, true, false, List, [], ◌∷◌, ◌++◌, arith, length, count, erase, add32,
  sub32, length-append, length-erase, count-snoc, count-erase, if◌then◌else◌,
}

-- The stream stands in the list once if its flag is set and else not at all, and the counter is
-- the list's length as a 32-bit number.
pub record IsMember (id : ℕ) (flag : Bool) (xs : List ℕ) (cnt : ℕ) : Type 0 where
  pub once : count id xs ≡ (if flag then 1 else 0)
  pub counted : cnt ≡ length xs % 2 ^ 32

module _ (id cnt : ℕ) (xs : List ℕ) where
  pub IsMember-join : IsMember id false xs cnt → IsMember id true (xs ++ id ∷ []) (add32 cnt 1)
  IsMember-join h = ground (arith, count-snoc id id xs, length-append {0} xs (id ∷ []))

  pub IsMember-leave : IsMember id true xs cnt → IsMember id false (erase id xs) (sub32 cnt 1)
  IsMember-leave h = ground (arith, count-erase id id xs, length-erase id xs)

  pub IsMember-requeue : IsMember id true xs cnt → IsMember id true (erase id xs ++ id ∷ []) cnt
  IsMember-requeue h = ground (
    arith,
    count-erase id id xs,
    length-erase id xs,
    count-snoc id id (erase id xs),
    length-append {0} (erase id xs) (id ∷ []),
  )
