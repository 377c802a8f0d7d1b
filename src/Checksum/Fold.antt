-- ===== src/Checksum/Fold.antt =====
-- What the checksums of src/tcp.c and src/icmp.c compute: the one's complement sum.
use cmt_tcp.Prelude.{ℕ, ◌+◌, ◌%◌, ◌^◌, ◌<◌, ◌≡◌, ◌≢◌, ◌↔◌, List, [], ◌∷◌, arith, add32}
use cmt_tcp.Checksum.{sum_words, finish}

-- The plain sum of the words.
unfoldable pub sum : List ℕ → ℕ
sum [] = 0
sum (w ∷ ws) = w + sum ws

pub sum_words-eq : (ws : List ℕ) (acc : ℕ) → acc + sum ws < 2 ^ 32 → sum_words acc ws ≡ acc + sum ws
unfolding sum sum_words
sum_words-eq [] acc h = omega arith
sum_words-eq (w ∷ ws) acc h = omega (arith, sum_words-eq ws (add32 acc w) (omega arith))

-- The folded sum is the sum modulo 65535, and 0 is its complement only for a positive multiple.
pub finish-zero : (s : ℕ) → s < 2 ^ 32 → (finish s ≡ 0) ↔ ((s % 65535 ≡ 0) × (s ≢ 0))
unfolding finish
finish-zero s h = (λ e. omega arith, λ e. omega arith)

pub finish-lt : (s : ℕ) → finish s < 2 ^ 16
unfolding finish
finish-lt s = omega arith

pub finish_complement : (s : ℕ) → s < 2 ^ 32 → (s + finish s) % 65535 ≡ 0
unfolding finish
finish_complement s h = omega arith
