-- ===== src/Checksum.antt =====
-- The Internet checksum of src/tcp.c (`cmt_tcp_calculate_checksum`, `cmt_calculate_chksum`) and
-- src/icmp.c (`ICMP_check_sum`) on a little-endian host. The 16-bit words are those at `buf`; an
-- odd last byte is a list of its own.
pub mod Fold
pub mod Verified
use cmt_tcp.Prelude.{ℕ, ◌+◌, ◌-◌, ◌*◌, ◌/◌, ◌%◌, ◌^◌, Option, none, some, List, [], ◌∷◌, add32}

-- `while (nleft > 1) sum += *w++`
unfoldable pub sum_words : ℕ → List ℕ → ℕ
sum_words sum [] = sum
sum_words sum (w ∷ ws) = sum_words (add32 sum w) ws

-- The two folds of the carry, and the complement as a `uint16_t`.
unfoldable pub finish : ℕ → ℕ
finish sum =
    let once = sum / 2 ^ 16 + sum % 2 ^ 16 in
    let twice = add32 once (once / 2 ^ 16) in 2 ^ 16 - 1 - twice % 2 ^ 16

-- `htons` on a little-endian host.
abbrev pub htons : ℕ → ℕ
htons x = (x % 256) * 256 + (x / 256) % 256

-- `*w & ntohs(0xFF00)` keeps the low byte, which is the last byte of the segment.
abbrev pub odd_byte : Option ℕ → ℕ
odd_byte none = 0
odd_byte (some b) = b

-- `PROTO_TCP` is the protocol number of the pseudo header.
module _ (proto_tcp : ℕ) where
  unfoldable pub calculate_checksum : List ℕ → Option ℕ → ℕ → ℕ → ℕ → ℕ
  unfolding sum_words finish
  calculate_checksum words odd len saddr daddr =
      let payload = add32 (sum_words 0 words) (odd_byte odd) in
      let source = add32 payload (saddr % 2 ^ 16 + saddr / 2 ^ 16) in
      let both = add32 source (daddr % 2 ^ 16 + daddr / 2 ^ 16) in
      finish (add32 (add32 both (htons len)) (htons proto_tcp))

-- The variable `odd_byte` of `ICMP_check_sum`, of which the code sets the low byte only: the high one
-- is `stale`, whatever the stack held.
abbrev pub stale_byte : ℕ → Option ℕ → ℕ
stale_byte stale none = 0
stale_byte stale (some b) = b + stale % 256 * 256

unfoldable pub icmp_check_sum : ℕ → List ℕ → Option ℕ → ℕ
unfolding sum_words finish
icmp_check_sum stale words odd = finish (add32 (sum_words 0 words) (stale_byte stale odd))
