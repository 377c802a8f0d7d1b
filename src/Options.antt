-- ===== src/Options.antt =====
-- The TCP options of src/tcp.c. `mem i` is the byte at `tcpopt + i`: a read past the option area
-- finds what follows in the packet. A `uint32_t` is read and written in network order.
pub mod Written
pub mod Parsed
use cmt_tcp.Prelude.{
  ℕ, zero, suc, ◌+◌, ◌-◌, ◌*◌, ◌/◌, ◌%◌, ◌^◌, Bool, true, false, Option, none, some, List, [], ◌∷◌,
  ◌++◌, ltb, leb, ◌==◌, if◌then◌else◌,
}
use cmt_tcp.Stream.{Stream, Send, Recv}

-- `flags & CMT_TCPHDR_SYN`, which is 0x02.
abbrev pub has_syn : ℕ → Bool
has_syn flags = (flags / 2) % 2 == 1

abbrev pub timestamps_len : ℕ
timestamps_len = 10

unfoldable pub calculate_option : ℕ → ℕ
calculate_option flags =
    if has_syn flags then 4 + timestamps_len + 2 + (3 + 1) else timestamps_len + 2

-- The bytes of a `uint32_t` in network order.
abbrev pub be32 : ℕ → List ℕ
be32 x = (x / 2 ^ 24) % 256 ∷ (x / 2 ^ 16) % 256 ∷ (x / 2 ^ 8) % 256 ∷ x % 256 ∷ []

-- TCP_OPT_TIMESTAMP, its length, `cur_ts` and `ts_recent`.
unfoldable pub generate_timestamp : Stream → ℕ → List ℕ
generate_timestamp s cur_ts = 8 ∷ timestamps_len ∷ (be32 cur_ts ++ be32 s.rcv.ts_recent)

-- The bytes that are written from `tcpopt` on.
unfoldable pub generate_options : Stream → ℕ → ℕ → List ℕ
unfolding generate_timestamp
generate_options s cur_ts flags =
    if has_syn flags
    then 2
      ∷ 4
      ∷ (s.snd.mss / 2 ^ 8) % 256
      ∷ s.snd.mss % 256
      ∷ 1
      ∷ 1
      ∷ (generate_timestamp s cur_ts ++ 1 ∷ 3 ∷ 3 ∷ s.snd.wscale_mine ∷ [])
    else 1 ∷ 1 ∷ generate_timestamp s cur_ts

abbrev pub read32 : (ℕ → ℕ) → ℕ → ℕ
read32 mem i = mem i * 2 ^ 24 + mem (i + 1) * 2 ^ 16 + mem (i + 2) * 2 ^ 8 + mem (i + 3)

module _ (mem : ℕ → ℕ) (len : ℕ) where
  learn_mss : ℕ → Stream → Stream
  learn_mss mss s = record s {
    snd = record s.snd { mss = mss; eff_mss = (mss + 2 ^ 16 - 12) % 2 ^ 16 };
  }

  learn_timestamp : ℕ → ℕ → Stream → Stream
  learn_timestamp cur_ts i s = record s {
    saw_timestamp = true;
    rcv = record s.rcv { ts_recent = read32 mem i; ts_last_ts_upd = cur_ts };
  }

  -- One option, with `i` past its kind and length bytes: the stream and the next position.
  unfoldable pub parse_option : ℕ → ℕ → ℕ → ℕ → Stream → Stream × ℕ
  unfolding learn_mss learn_timestamp
  parse_option cur_ts opt optlen i s =
      if opt == 2
      then (learn_mss (mem i * 256 + mem (i + 1)) s, i + 2)
      else if opt == 3
      then (record s { snd = record s.snd { wscale_peer = mem i } }, i + 1)
      else if opt == 4
      then (record s { sack_permit = true }, i)
      else if opt == 8
      then (learn_timestamp cur_ts i s, i + 8)
      else (s, i + optlen - 2)

  -- The loop of `cmt_tcp_parse_options`; `none` if it has not ended when the fuel is used up.
  unfoldable pub parse_options : ℕ → ℕ → ℕ → Stream → Option Stream
  parse_options zero cur_ts i s = none
  parse_options (suc fuel) cur_ts i s =
      let opt = mem i in
      let optlen = mem (i + 1) in
      let next = parse_option cur_ts opt optlen (i + 2) s in
      let skip = parse_options fuel cur_ts (i + 1) s in
      let rest = parse_options fuel cur_ts next.1 next.0 in
      if leb len i
      then some s
      else if opt == 0
      then some s
      else if opt == 1
      then skip
      else if ltb len (i + 2 + optlen - 2)
      then some s
      else rest

  -- The loop of `cmt_tcp_parse_timestamp`, which steps by one more after each option. The inner
  -- result is `ts_val` and `ts_ref` if the function returns 1.
  unfoldable pub parse_timestamp : ℕ → ℕ → Option (Option (ℕ × ℕ))
  parse_timestamp zero i = none
  parse_timestamp (suc fuel) i =
      let opt = mem i in
      let optlen = mem (i + 1) in
      let skip = parse_timestamp fuel (i + 2) in
      let rest = parse_timestamp fuel (i + 2 + optlen - 2 + 1) in
      if leb len i
      then some none
      else if opt == 0
      then some none
      else if opt == 1
      then skip
      else if ltb len (i + 2 + optlen - 2)
      then some none
      else if opt == 8
      then some (some (read32 mem (i + 2), read32 mem (i + 2 + 4)))
      else rest
