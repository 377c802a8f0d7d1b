-- ===== src/Tests/Parts.antt =====
-- Buffers, windows, options, checksums and sequence numbers at concrete values.
use cmt_tcp.Prelude.{◌-◌, ◌^◌, ◌||◌, ◌<◌, ◌≡◌, ◌≢◌, inl, refl, true, none, some, [], ◌∷◌, arith}
use cmt_tcp.Run.Keeps.{Returns}
use cmt_tcp.Checksum.Fold.{sum}
use cmt_tcp.Stream.{SendBuffer, established, fin_wait_1}
use cmt_tcp.SendBuffer.{sb_put, sb_remove}
use cmt_tcp.SendBuffer.Queue.{contents, IsBuffer, sb_put_queue, sb_remove_queue}
use cmt_tcp.Options.{generate_options, parse_options}
use cmt_tcp.Options.Written.{bytes_at, syn_seen, parse-generate_syn}
use cmt_tcp.Options.Parsed.{parse_options_ends, parse_options_hangs}
use cmt_tcp.Checksum.{calculate_checksum}
use cmt_tcp.Checksum.Verified.{calculate_checksum_verifies}
use cmt_tcp.Ack.{drop_acked}
use cmt_tcp.Ack.Outcome.{drop_acked_advances}
use cmt_tcp.Fragments.{can_merge, get_min_seq, merged_range}
use cmt_tcp.Fragments.Merge.{range, covers, covers-merged_range}
use cmt_tcp.Tests.Data.{buffer, stream, ctx}

abbrev buffer-IsBuffer : IsBuffer buffer
buffer-IsBuffer = record {
  at_offset = refl;
  payload = refl;
  room = omega arith;
  space = refl;
  small = omega arith;
}

-- A buffer with no room, a stream without a segment size, and one above its threshold.
abbrev full : SendBuffer
full = record buffer { tail_off = 8; len = 8; cum_len = 8 }

sb_put_queue_example :
    ((sb_put buffer (5 ∷ 6 ∷ [])).0 ≡ 2)
    × (0 < 2)
    × (contents (sb_put buffer (5 ∷ 6 ∷ [])).1 ≡ 1 ∷ 2 ∷ 3 ∷ 4 ∷ 5 ∷ 6 ∷ [])
    × IsBuffer (sb_put buffer (5 ∷ 6 ∷ [])).1
sb_put_queue_example = sb_put_queue buffer (5 ∷ 6 ∷ []) buffer-IsBuffer (omega arith) (omega arith)

sb_remove_queue_example :
    ((sb_remove buffer 3).0 ≡ 3)
    × (contents (sb_remove buffer 3).1 ≡ 4 ∷ [])
    × ((sb_remove buffer 3).1.head_seq ≡ 103)
    × IsBuffer (sb_remove buffer 3).1
sb_remove_queue_example = sb_remove_queue buffer 3 buffer-IsBuffer (omega arith) (omega arith)

drop_acked_advances_example :
    Returns
      (λ d.
        (d.cur.snd.snd_una ≡ 102)
        × (b : SendBuffer) × (d.cur.snd.sndbuf ≡ some b)
        × (b.head_seq ≡ 102)
        × (b.len ≡ 2))
      (drop_acked 1000 102 2 (ctx established))
drop_acked_advances_example =
    drop_acked_advances (ctx established) buffer 1000 102 refl (omega arith) (omega arith)
      (omega arith) (omega arith) (omega arith)

parse-generate_syn_example :
    parse_options
      (bytes_at (generate_options (stream established) 77 2))
      20
      7
      9
      0
      (stream fin_wait_1)
    ≡ some (syn_seen (stream established) 77 9 (stream fin_wait_1))
parse-generate_syn_example =
    parse-generate_syn (stream established) (stream fin_wait_1) 77 9 2 refl (omega arith)
      (omega arith) (omega arith)

parse_options_ends_example : parse_options (λ j. 1) 3 4 9 0 (stream established) ≢ none
parse_options_ends_example =
    parse_options_ends (λ j. 1) 3 9 (λ j. inl refl) 4 0 (stream established) (omega arith)

parse_options_hangs_example :
    parse_options (bytes_at (5 ∷ 0 ∷ [])) 2 100 9 0 (stream established) ≡ none
parse_options_hangs_example =
    parse_options_hangs (bytes_at (5 ∷ 0 ∷ [])) 2 9 100 0 (stream established) (omega arith) refl
      refl

calculate_checksum_verifies_example :
    calculate_checksum 6
      (80 ∷ calculate_checksum 6 (80 ∷ 0 ∷ []) (some 9) 5 1 2 ∷ [])
      (some 9)
      5
      1
      2
    ≡ 0
unfolding sum
calculate_checksum_verifies_example =
    calculate_checksum_verifies (80 ∷ []) [] (some 9) 6 5 1 2 (omega arith)

overlapping : can_merge (range (2 ^ 32 - 10) 0 20) (range (2 ^ 32 - 10) 15 10) ≡ true
unfolding can_merge get_min_seq
overlapping = refl

-- Twenty places across the wrap, and ten from the fifteenth of them on.
covers-merged_range_example :
    covers (merged_range (range (2 ^ 32 - 10) 0 20) (range (2 ^ 32 - 10) 15 10)) 12
    ≡ (covers (range (2 ^ 32 - 10) 0 20) 12 || covers (range (2 ^ 32 - 10) 15 10) 12)
covers-merged_range_example =
    covers-merged_range (2 ^ 32 - 10) 0 20 15 10 (omega arith) (omega arith) (omega arith)
      overlapping 12
