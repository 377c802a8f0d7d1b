-- ===== src/Options/Written.antt =====
-- What `cmt_tcp_generate_options` of src/tcp.c writes, and what its parsers read back.
use cmt_tcp.Prelude.{
  ℕ, suc, ◌+◌, ◌-◌, ◌*◌, ◌/◌, ◌%◌, ◌^◌, ◌≤◌, ◌<◌, ◌≡◌, ◌≢◌, refl, ap, ◌∙◌, true, false, none, some,
  List, [], ◌∷◌, ◌++◌, arith, length, get_or,
}
use cmt_tcp.Stream.{Stream}
use cmt_tcp.Options.{
  calculate_option, generate_options, be32, has_syn, parse_option, parse_options, parse_timestamp,
}

-- The options written are as many bytes as `cmt_calculate_option` says, for all flags, and a
-- multiple of four: the assertions of both functions hold.
pub length-generate_options :
    (s : Stream) (cur_ts flags : ℕ)
    → (length (generate_options s cur_ts flags) ≡ calculate_option flags)
      × (calculate_option flags % 4 ≡ 0)
unfolding generate_options calculate_option
length-generate_options s cur_ts flags = ground arith

abbrev pub bytes_at : List ℕ → ℕ → ℕ
bytes_at l i = get_or l i 0

-- A stream that has read the options of a SYN of `s`.
abbrev pub syn_seen : Stream → ℕ → ℕ → Stream → Stream
syn_seen s sent_ts cur_ts r = record r {
  saw_timestamp = true;
  snd = record r.snd {
    mss = s.snd.mss;
    eff_mss = (s.snd.mss + 2 ^ 16 - 12) % 2 ^ 16;
    wscale_peer = s.snd.wscale_mine;
  };
  rcv = record r.rcv { ts_recent = sent_ts; ts_last_ts_upd = cur_ts };
}

-- The number that four bytes of a packet spell, and the bytes of a number, are inverse.
read-be32 :
    (x : ℕ)
    → x < 2 ^ 32
    → ((x / 2 ^ 24) % 256) * 2 ^ 24
        + ((x / 2 ^ 16) % 256) * 2 ^ 16
        + ((x / 2 ^ 8) % 256) * 2 ^ 8
        + x % 256
      ≡ x
read-be32 x h = omega arith

read_mss : (x : ℕ) → x < 2 ^ 16 → ((x / 2 ^ 8) % 256) * 256 + x % 256 ≡ x
read_mss x h = omega arith

-- Where the segment size fits in 16 bits and the timestamps in 32, the option parser reads from the
-- options of a SYN the segment size, the window scale and the timestamp that its sender wrote.
pub parse-generate_syn :
    (s r : Stream) (sent_ts cur_ts flags : ℕ)
    → has_syn flags ≡ true
    → s.snd.mss < 2 ^ 16
    → s.rcv.ts_recent < 2 ^ 32
    → sent_ts < 2 ^ 32
    → parse_options (bytes_at (generate_options s sent_ts flags)) 20 7 cur_ts 0 r
      ≡ some (syn_seen s sent_ts cur_ts r)
unfolding generate_options parse_options parse_option
parse-generate_syn s r sent_ts cur_ts flags syn small recent fits = rw syn (λ i. some (record r {
  saw_timestamp = true;
  snd = record r.snd {
    mss = read_mss s.snd.mss small i;
    eff_mss = (read_mss s.snd.mss small i + 2 ^ 16 - 12) % 2 ^ 16;
    wscale_peer = s.snd.wscale_mine;
  };
  rcv = record r.rcv { ts_recent = read-be32 sent_ts fits i; ts_last_ts_upd = cur_ts };
}))

module _ (s : Stream) (sent_ts flags : ℕ) where
  options_plain :
      has_syn flags ≡ false
      → generate_options s sent_ts flags ≡ 1 ∷ 1 ∷ 8 ∷ 10 ∷ (be32 sent_ts ++ be32 s.rcv.ts_recent)
  unfolding generate_options
  options_plain plain = rw plain

  options_syn :
      has_syn flags ≡ true
      → generate_options s sent_ts flags
        ≡ 2
          ∷ 4
          ∷ (s.snd.mss / 2 ^ 8) % 256
          ∷ s.snd.mss % 256
          ∷ 1
          ∷ 1
          ∷ 8
          ∷ 10
          ∷ (be32 sent_ts ++ (be32 s.rcv.ts_recent ++ 1 ∷ 3 ∷ 3 ∷ s.snd.wscale_mine ∷ []))
  unfolding generate_options
  options_syn syn = rw syn

-- The options of a segment without SYN give the timestamp parser both stamps.
pub parse_timestamp-generate :
    (s : Stream) (sent_ts flags : ℕ)
    → has_syn flags ≡ false
    → s.rcv.ts_recent < 2 ^ 32
    → sent_ts < 2 ^ 32
    → parse_timestamp (bytes_at (generate_options s sent_ts flags)) 12 13 0
      ≡ some (some (sent_ts, s.rcv.ts_recent))
unfolding parse_timestamp
parse_timestamp-generate s sent_ts flags plain recent fits =
    ap (λ l. parse_timestamp (bytes_at l) 12 13 0) (options_plain s sent_ts flags plain)
    ∙ (λ i. some (some (read-be32 sent_ts fits i, read-be32 s.rcv.ts_recent recent i)))

-- One round of the timestamp parser at an option that is none of the special ones.
parse_timestamp_skips :
    (mem : ℕ → ℕ) (len fuel i : ℕ)
    → i < len
    → 1 < mem i
    → mem i ≢ 8
    → i + mem (i + 1) ≤ len
    → parse_timestamp mem len (suc fuel) i ≡ parse_timestamp mem len fuel (i + mem (i + 1) + 1)
unfolding parse_timestamp
parse_timestamp_skips mem len fuel i inside kind other fits =
    let e : i + 2 + mem (i + 1) - 2 + 1 ≡ i + mem (i + 1) + 1 = omega arith in ground arith

parse_timestamp_gives_up :
    (mem : ℕ → ℕ) (len fuel i : ℕ)
    → 1 < mem i
    → len < i + mem (i + 1)
    → parse_timestamp mem len (suc fuel) i ≡ some none
unfolding parse_timestamp
parse_timestamp_gives_up mem len fuel i kind over = ground arith

parse_timestamp_nop :
    (mem : ℕ → ℕ) (len fuel i : ℕ)
    → i < len
    → mem i ≡ 1
    → parse_timestamp mem len (suc fuel) i ≡ parse_timestamp mem len fuel (i + 2)
unfolding parse_timestamp
parse_timestamp_nop mem len fuel i inside nop = ground arith

-- The timestamp parser misreads the options of a SYN: its extra step makes it take the timestamp's
-- length byte for a kind, and it finds no timestamp wherever the stamp's first byte is 14 or more.
pub parse_timestamp-generate_syn :
    (s : Stream) (sent_ts flags : ℕ)
    → has_syn flags ≡ true
    → sent_ts < 2 ^ 32
    → 14 * 2 ^ 24 ≤ sent_ts
    → parse_timestamp (bytes_at (generate_options s sent_ts flags)) 20 21 0 ≡ some none
parse_timestamp-generate_syn s sent_ts flags syn fits late =
    ap (λ l. parse_timestamp (bytes_at l) 20 21 0) (options_syn s sent_ts flags syn)
    ∙ (parse_timestamp_skips _ 20 20 0 (omega arith) (omega arith) (omega arith) (omega arith)
        ∙ (parse_timestamp_nop _ 20 19 5 (omega arith) refl
            ∙ parse_timestamp_gives_up _ 20 18 7 (omega arith) (omega arith)))
