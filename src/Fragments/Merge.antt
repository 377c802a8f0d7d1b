-- ===== src/Fragments/Merge.antt =====
-- The fragments of received data as ranges of places, for src/tcp_buffer.c.
use cmt_tcp.Prelude.{
  ℕ, ◌+◌, ◌-◌, ◌^◌, ◌≤◌, ◌<◌, ◌≡◌, refl, ap, ◌↔◌, Bool, true, false, ◌||◌, leb, ltb, ◌==◌,
  if◌then◌else◌, arith, add32, sub32, min, max,
}
use cmt_tcp.Fragments.{Fragment, get_min_seq, get_max_seq, can_merge, merged_range}

module _ (base i j : ℕ) (base_lt : base < 2 ^ 32) (i_lt : i < 2 ^ 31) (j_lt : j < 2 ^ 31) where
  pub get_min_seq-min : get_min_seq (add32 base i) (add32 base j) ≡ add32 base (min i j)
  unfolding get_min_seq
  get_min_seq-min = ground arith

  pub get_max_seq-max : get_max_seq (add32 base i) (add32 base j) ≡ add32 base (max i j)
  unfolding get_max_seq
  get_max_seq-max = ground arith

  before : (get_min_seq (add32 base i) (add32 base j) == add32 base i) ≡ leb i j
  before = rw get_min_seq-min ground arith

-- Whether a place stands in a fragment.
unfoldable pub covers : Fragment → ℕ → Bool
covers f p = ltb (sub32 p f.seq) f.len

-- The fragment of `len` places that starts `i` places after `base`.
abbrev pub range : ℕ → ℕ → ℕ → Fragment
range base i len = record { seq = add32 base i; len = len }

shift : (base i n : ℕ) → add32 (add32 base i) n ≡ add32 base (i + n)
shift base i n = omega arith

module _ (base i la j lb : ℕ) (base_lt : base < 2 ^ 32) where
  module _ (a_small : i + la + 1 < 2 ^ 31) (b_small : j + lb + 1 < 2 ^ 31) where
    can_merge-not :
        can_merge (range base i la) (range base j lb)
        ≡ (if leb (i + la + 1) j || leb (j + lb + 1) i then false else true)
    unfolding can_merge
    can_merge-not =
        rw
          (
            shift base i la,
            shift base (i + la) 1,
            shift base j lb,
            shift base (j + lb) 1,
            before base (i + la + 1) j base_lt a_small (omega arith),
            before base (j + lb + 1) i base_lt b_small (omega arith),
          )
          refl

    -- Those that overlap or touch.
    pub can_merge_iff :
        (can_merge (range base i la) (range base j lb) ≡ true) ↔ ((i ≤ j + lb) × (j ≤ i + la))
    can_merge_iff = (λ e. ground (arith, can_merge-not), λ e. ground (arith, can_merge-not))

    pub merged_range-hull :
        merged_range (range base i la) (range base j lb)
        ≡ range base (min i j) (max (i + la) (j + lb) - min i j)
    unfolding merged_range
    merged_range-hull =
        rw
          (
            shift base i la,
            shift base j lb,
            get_min_seq-min base i j base_lt (omega arith) (omega arith),
            get_max_seq-max base (i + la) (j + lb) base_lt (omega arith) (omega arith),
          )
          (ap (λ n. record { seq = add32 base (min i j); len = n }) (omega arith))

    -- Two fragments that can be merged, less than half the sequence space after a place, also across
    -- the wrap: the merged range covers exactly what one of the two covers.
    pub covers-merged_range :
        can_merge (range base i la) (range base j lb) ≡ true
        → (q : ℕ)
        → covers (merged_range (range base i la) (range base j lb)) q
          ≡ (covers (range base i la) q || covers (range base j lb) q)
    unfolding covers
    covers-merged_range e q = let touch = can_merge_iff.0 e in rw merged_range-hull ground arith
