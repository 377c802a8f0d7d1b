-- ===== src/Tests/Sockets.antt =====
-- The bit map of the sockets at concrete values.
use cmt_tcp.Prelude.{
  ℕ, ◌<◌, ◌≤◌, ◌≡◌, ◌⊎◌, inl, inr, refl, some, ◌==◌, if◌then◌else◌, arith, Bool-cases,
}
use cmt_tcp.Sockets.{find_id, find_word, find_byte, first_open, low_ones, magnitude}
use cmt_tcp.Sockets.Search.{Lowest, find_id-Lowest}

-- A full byte, and three numbers of the next one taken.
abbrev fds : ℕ → ℕ
fds i = if i == 0 then 255 else if i == 1 then 11 else 0

fds-plain : (i : ℕ) → 0 ≤ i → i < 4 → (fds i < 128) ⊎ (fds i ≡ 255)
fds-plain i low high = elim (Bool-cases (i == 0)) [
  | inl first ↦ inr (ground (arith, first))
  | inr later ↦ inl (ground (arith, later))
]

find_id-Lowest_example : Lowest (λ x. 0) fds 0 4 (find_id (λ x. 0) fds 0 4)
find_id-Lowest_example = find_id-Lowest (λ x. 0) fds 0 4 (omega arith) fds-plain

third_free : find_id (λ x. 0) fds 0 4 ≡ some 10
unfolding find_id find_word find_byte first_open low_ones magnitude
third_free = refl
