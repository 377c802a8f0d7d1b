-- ===== src/Checksum/Verified.antt =====
-- A segment that carries its checksum is found correct.
use cmt_tcp.Prelude.{
  none, ℕ, ◌+◌, ◌/◌, ◌%◌, ◌^◌, ◌<◌, ◌≡◌, ap, sym, ◌∙◌, Option, List, [], ◌∷◌, ◌++◌, arith, add32,
}
use cmt_tcp.Checksum.{finish, htons, odd_byte, calculate_checksum, icmp_check_sum}
use cmt_tcp.Checksum.Fold.{sum, sum_words-eq, finish-zero, finish-lt, finish_complement}

sum_put : (pre post : List ℕ) (w : ℕ) → sum (pre ++ w ∷ post) ≡ w + sum (pre ++ 0 ∷ post)
unfolding sum
sum_put [] post w = omega arith
sum_put (x ∷ pre) post w = omega (arith, sum_put pre post w)

finish_put : (s w : ℕ) → s < 2 ^ 31 → w ≡ finish s → finish (s + w) ≡ 0
finish_put s w small e =
    let lt : w < 2 ^ 16 = rw e (finish-lt s) in
    let c : (s + w) % 65535 ≡ 0 = rw e (finish_complement s (omega arith)) in
    (finish-zero (s + w) (omega arith)).1
      (c, λ z. ((finish-zero s (omega arith)).0 (sym e ∙ omega arith)).1 (omega arith))

icmp_check_sum-finish :
    (stale : ℕ) (ws : List ℕ) → sum ws < 2 ^ 32 → icmp_check_sum stale ws none ≡ finish (sum ws)
unfolding icmp_check_sum
icmp_check_sum-finish stale ws small =
    ap (λ t. finish ((t + 0) % 2 ^ 32)) (sum_words-eq ws 0 (omega arith)) ∙ ap finish (omega arith)

-- What the pseudo header adds to the sum of a TCP segment.
abbrev pseudo : ℕ → ℕ → ℕ → ℕ → ℕ
pseudo proto len saddr daddr =
    (saddr % 2 ^ 16 + saddr / 2 ^ 16) + (daddr % 2 ^ 16 + daddr / 2 ^ 16) + htons len + htons proto

module _ (proto len saddr daddr : ℕ) (ws : List ℕ) (odd : Option ℕ) where
  calculate_checksum-finish :
      sum ws + odd_byte odd + pseudo proto len saddr daddr < 2 ^ 32
      → calculate_checksum proto ws odd len saddr daddr
        ≡ finish (sum ws + odd_byte odd + pseudo proto len saddr daddr)
  unfolding calculate_checksum
  calculate_checksum-finish small =
      ap
        (λ t. finish (
          add32
            (add32
              (add32 (add32 (add32 t (odd_byte odd)) (saddr % 2 ^ 16 + saddr / 2 ^ 16))
                (daddr % 2 ^ 16 + daddr / 2 ^ 16))
              (htons len))
            (htons proto)))
        (sum_words-eq ws 0 (omega arith))
      ∙ ap finish (omega arith)

-- An ICMP message of an even number of bytes into which the sender put the checksum of the message
-- with a zero field passes the check, wherever the field stands, where the plain sum has 31 bits.
pub icmp_check_sum_verifies :
    (pre post : List ℕ) (stale stale' : ℕ)
    → sum (pre ++ 0 ∷ post) < 2 ^ 31
    → icmp_check_sum stale (pre ++ icmp_check_sum stale' (pre ++ 0 ∷ post) none ∷ post) none ≡ 0
icmp_check_sum_verifies pre post stale stale' small =
    let c = icmp_check_sum stale' (pre ++ 0 ∷ post) none in
    let e : c ≡ finish (sum (pre ++ 0 ∷ post)) = icmp_check_sum-finish stale' _ (omega arith) in
    let lt : c < 2 ^ 16 = rw e (finish-lt (sum (pre ++ 0 ∷ post))) in
    icmp_check_sum-finish stale (pre ++ c ∷ post) (omega (arith, sum_put pre post c))
    ∙ ap finish (omega (arith, sum_put pre post c))
    ∙ finish_put (sum (pre ++ 0 ∷ post)) c small e

module _ (pre post : List ℕ) (odd : Option ℕ) where
  module _ (proto len saddr daddr : ℕ) where
    -- A segment into which the sender put the checksum of the segment with a zero field passes the
    -- check of `cmt_tcp_process`, wherever the field stands, where the plain sum has 31 bits.
    pub calculate_checksum_verifies :
        sum (pre ++ 0 ∷ post) + odd_byte odd + pseudo proto len saddr daddr < 2 ^ 31
        → calculate_checksum proto
            (pre ++ calculate_checksum proto (pre ++ 0 ∷ post) odd len saddr daddr ∷ post)
            odd
            len
            saddr
            daddr
          ≡ 0
    calculate_checksum_verifies small =
        let t = sum (pre ++ 0 ∷ post) + odd_byte odd + pseudo proto len saddr daddr in
        let c = calculate_checksum proto (pre ++ 0 ∷ post) odd len saddr daddr in
        let e : c ≡ finish t =
          calculate_checksum-finish proto len saddr daddr _ odd (omega arith) in
        let lt : c < 2 ^ 16 = rw e (finish-lt t) in
        calculate_checksum-finish proto len saddr daddr (pre ++ c ∷ post) odd
          (omega (arith, sum_put pre post c))
        ∙ ap finish (omega (arith, sum_put pre post c))
        ∙ finish_put t c small e
