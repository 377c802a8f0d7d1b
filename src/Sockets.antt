-- ===== src/Sockets.antt =====
-- The numbers of sockets and the free list of the socket map, src/socket.c. `NTY_BITS_PER_BYTE` is
-- read as CMT_BITS_PER_BYTES, and `startfds` as the pointer that its initialiser is. The memory of the
-- bit map is a function from places to bytes.
pub mod Bitmap
pub mod Search
pub mod FreeList
use cmt_tcp.Prelude.{
  ℕ, zero, suc, ◌+◌, ◌-◌, ◌*◌, ◌/◌, ◌%◌, ◌^◌, Bool, true, false, Option, none, some, ltb, ◌==◌,
  if◌then◌else◌, bit_and, bit_or, ◌||◌,
}
use cmt_tcp.Run.{Outcome, ok, fault, diverges, Run, pure, stop, branch, gets, modify, ◌>>=◌, ◌>>◌}

abbrev pub bits_per_byte : ℕ
bits_per_byte = 8

-- `fds[i] = v`
abbrev pub store : (ℕ → ℕ) → ℕ → ℕ → ℕ → ℕ
store fds i v k = if k == i then v else fds k

-- `fds[i] |= byte`
unfoldable pub set_bit : ℕ → ℕ → ℕ
set_bit b j = bit_or b (2 ^ j)

-- `fds[i] &= ~byte`
unfoldable pub clear_bit : ℕ → ℕ → ℕ
clear_bit b j = bit_and b (255 - 2 ^ j)

-- `cmt_socket_use_id`: the byte it returns is the one it stores.
unfoldable pub use_id : (ℕ → ℕ) → ℕ → ℕ → ℕ
use_id fds idx =
    store fds (idx / bits_per_byte) (set_bit (fds (idx / bits_per_byte)) (idx % bits_per_byte))

-- `cmt_socket_unuse_id`
unfoldable pub unuse_id : (ℕ → ℕ) → ℕ → ℕ → ℕ
unuse_id fds idx =
    store fds (idx / bits_per_byte) (clear_bit (fds (idx / bits_per_byte)) (idx % bits_per_byte))

-- `cmt_socket_set_start`
unfoldable pub set_start : ℕ → ℕ
set_start idx = idx / bits_per_byte

-- The loop for a byte that is not 0xFF, from `i` on.
unfoldable pub first_open : (ℕ → ℕ) → ℕ → ℕ → Option ℕ
first_open fds zero i = none
first_open fds (suc n) i =
    let rest = first_open fds n (i + 1) in if fds i == 255 then rest else some i

-- The magnitude of a `char` of this pattern: division by 2 and its remainder go towards 0, so that
-- they are those of the magnitude.
unfoldable pub magnitude : ℕ → ℕ
magnitude b = if ltb b 128 then b else 256 - b

-- `while (bytes % 2) { bytes /= 2; j++; }`, with the eight rounds that a magnitude of at most 128 can
-- take.
unfoldable pub low_ones : ℕ → ℕ → ℕ
low_ones zero m = 0
low_ones (suc n) m = let rest = low_ones n (m / 2) in if m % 2 == 0 then 0 else rest + 1

-- `startfds[i]` on a little-endian host.
unfoldable pub word_at : (ℕ → ℕ) → ℕ → ℕ
word_at fds p =
    fds p
    + fds (p + 1) * 2 ^ 8
    + fds (p + 2) * 2 ^ 16
    + fds (p + 3) * 2 ^ 24
    + fds (p + 4) * 2 ^ 32
    + fds (p + 5) * 2 ^ 40
    + fds (p + 6) * 2 ^ 48
    + fds (p + 7) * 2 ^ 56

-- `count_trailing_zeros` is the compiler's.
module _ (count_trailing_zeros : ℕ → ℕ) (fds : ℕ → ℕ) (start : ℕ) where
  -- The loop over the words, which asks for the byte `fds[i]`.
  unfoldable pub find_word : ℕ → ℕ → Option ℕ
  find_word zero i = none
  find_word (suc n) i =
      let rest = find_word n (i + 1) in
      let x = 2 ^ 64 - 1 - word_at fds (start + i * 8) in
      if fds i == 0
      then rest
      else some (i * 8 * bits_per_byte + start * bits_per_byte + count_trailing_zeros x)

  -- The search in the bytes behind the words.
  unfoldable pub find_byte : ℕ → ℕ → Option ℕ
  find_byte max_fds i = elim (first_open fds (max_fds - i) i) [
    | none ↦ none
    | some k ↦ some (k * bits_per_byte + low_ones 8 (magnitude (fds k)))
  ]

  -- `cmt_socket_find_id`, whose -1 is `none`, for `start` up to `max_fds`.
  unfoldable pub find_id : ℕ → Option ℕ
  find_id max_fds =
      let len = (max_fds - start) / 8 in
      elim (find_word len 0) [ some id ↦ some id | none ↦ find_byte max_fds (len * 8 + start) ]

-- The free list of the socket map: its head and the links of the sockets.
pub record SocketMap : Type 0 where
  pub first : Option ℕ
  pub free_smap_link : ℕ → Option ℕ
  pub unused : ℕ → Bool
  pub epoll : ℕ → ℕ
  pub events : ℕ → ℕ

-- The loop of `cmt_allocate_socket` with no other thread between: it goes round again when the
-- exchange succeeds, as it then always does, and ends at the end of the list only.
unfoldable pub allocate_socket : ℕ → Run SocketMap (Option ℕ)
allocate_socket zero = stop diverges
allocate_socket (suc n) = do
  s ← gets (λ s. s)
  elim s.first [
    | none ↦ pure none
    | some socket ↦ modify (λ s. record s { first = s.free_smap_link socket }) >> allocate_socket n
  ]

-- The loop at the end of `cmt_socket_free`.
unfoldable pub link_in : ℕ → ℕ → Run SocketMap (Unit {0})
link_in zero socket = stop diverges
link_in (suc n) socket = do
  modify (λ s. record s {
    first = some socket;
    free_smap_link = λ k. if k == socket then s.first else s.free_smap_link k;
  })
  link_in n socket

-- `cmt_socket_free`, with `rounds` of its loop.
unfoldable pub socket_free : ℕ → ℕ → Run SocketMap (Unit {0})
socket_free rounds sockid = do
  s ← gets (λ s. s)
  branch (s.unused sockid) (pure tt) do
    modify λ s. record s {
      unused = λ k. (k == sockid) || s.unused k;
      epoll = store s.epoll sockid 0;
      events = store s.events sockid 0;
    }
    link_in rounds sockid
