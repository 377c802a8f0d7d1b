-- ===== src/Fragments.antt =====
-- The ranges of sequence numbers of received data in src/tcp_buffer.c: `GetMinSeq`, `GetMaxSeq`,
-- `CanMerge` and the range that `merge_fragments` gives a merged fragment. The lists of a fragment's
-- data are left out.
pub mod Merge
use cmt_tcp.Prelude.{
  ℕ, ◌+◌, ◌-◌, ◌^◌, Bool, true, false, ◌||◌, leb, ltb, ◌==◌, if◌then◌else◌, add32, sub32,
}

-- `seq` and `len` of `cmt_fragment_t`.
pub record Fragment : Type 0 where
  pub seq : ℕ
  pub len : ℕ

-- `MAXSEQ / 2`.
abbrev pub half_seq : ℕ
half_seq = 2 ^ 31 - 1

unfoldable pub get_min_seq : ℕ → ℕ → ℕ
get_min_seq a b =
    if a == b
    then a
    else if ltb a b
    then (if leb (sub32 b a) half_seq then a else b)
    else if leb (sub32 a b) half_seq
    then b
    else a

unfoldable pub get_max_seq : ℕ → ℕ → ℕ
get_max_seq a b =
    if a == b
    then a
    else if ltb a b
    then (if leb (sub32 b a) half_seq then b else a)
    else if leb (sub32 a b) half_seq
    then a
    else b

unfoldable pub can_merge : Fragment → Fragment → Bool
unfolding get_min_seq
can_merge a b =
    let a_end = add32 (add32 a.seq a.len) 1 in
    let b_end = add32 (add32 b.seq b.len) 1 in
    if (get_min_seq a_end b.seq == a_end) || (get_min_seq b_end a.seq == b_end) then false else true

-- Lines 363 to 366, once the two fragments are in place.
unfoldable pub merged_range : Fragment → Fragment → Fragment
merged_range a b =
    let min_seq = get_min_seq a.seq b.seq in
    let max_seq = get_max_seq (add32 a.seq a.len) (add32 b.seq b.len) in
    record { seq = min_seq; len = sub32 max_seq min_seq }
