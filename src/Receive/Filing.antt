-- ===== src/Receive/Filing.antt =====
-- Receiving keeps the lists and the flags of the stream together.
use cmt_tcp.Prelude.{ℕ, Option, none, some}
use cmt_tcp.Run.Keeps.{Keeps, keeps_rules}
use cmt_tcp.Filed.{IsFiled}
use cmt_tcp.SendLists.Listed.{addto_controllist-IsFiled}
use cmt_tcp.Timer.Lists.{add_to_timewait_list-IsFiled}
use cmt_tcp.Ack.Filing.{enqueue_acklist-IsFiled}
use cmt_tcp.Stream.{Socket, RecvBuffer}
use cmt_tcp.Segment.{Segment, Env}
use cmt_tcp.Receive.{
  refresh_timestamp, check_timestamp, answer_outside, validseq, wake_reader, merge_payload,
  with_buffer, process_payload, reset_half_open, reset_open, process_rst,
}

module _ (e : Env) (g : Segment) where
  refresh_timestamp-IsFiled : (ts : Option (ℕ × ℕ)) → Keeps IsFiled (refresh_timestamp e g ts)
  unfolding refresh_timestamp
  refresh_timestamp-IsFiled none = search keeps_rules
  refresh_timestamp-IsFiled (some (v, r)) = search (keeps_rules, enqueue_acklist-IsFiled) depth 12

  check_timestamp-IsFiled : Keeps IsFiled (check_timestamp e g)
  unfolding check_timestamp
  check_timestamp-IsFiled = search (keeps_rules, refresh_timestamp-IsFiled) depth 12

  answer_outside-IsFiled : Keeps IsFiled (answer_outside e g)
  unfolding answer_outside
  answer_outside-IsFiled =
      search
        (
          keeps_rules, enqueue_acklist-IsFiled, addto_controllist-IsFiled,
          add_to_timewait_list-IsFiled,
        )
        depth 12

  pub validseq-IsFiled : Keeps IsFiled (validseq e g)
  unfolding validseq
  validseq-IsFiled = search (keeps_rules, check_timestamp-IsFiled, answer_outside-IsFiled) depth 12

  pub wake_reader-IsFiled : (k : Option Socket) → Keeps IsFiled (wake_reader e g k)
  unfolding wake_reader
  wake_reader-IsFiled none = search keeps_rules
  wake_reader-IsFiled (some k) = search keeps_rules depth 12

  merge_payload-IsFiled : (b : RecvBuffer) → Keeps IsFiled (merge_payload e g b)
  unfolding merge_payload
  merge_payload-IsFiled b = search (keeps_rules, wake_reader-IsFiled) depth 12

  with_buffer-IsFiled : (b made : Option RecvBuffer) → Keeps IsFiled (with_buffer e g b made)
  unfolding with_buffer
  with_buffer-IsFiled (some b) made = merge_payload-IsFiled b
  with_buffer-IsFiled none (some b) = merge_payload-IsFiled b
  with_buffer-IsFiled none none = search keeps_rules depth 12

  pub process_payload-IsFiled : Keeps IsFiled (process_payload e g)
  unfolding process_payload
  process_payload-IsFiled = search (keeps_rules, with_buffer-IsFiled) depth 12

  reset_half_open-IsFiled : Keeps IsFiled (reset_half_open e g)
  unfolding reset_half_open
  reset_half_open-IsFiled = search keeps_rules depth 12

  reset_open-IsFiled : Keeps IsFiled (reset_open e g)
  unfolding reset_open
  reset_open-IsFiled = search keeps_rules depth 12

  pub process_rst-IsFiled : Keeps IsFiled (process_rst e g)
  unfolding process_rst
  process_rst-IsFiled = search (keeps_rules, reset_half_open-IsFiled, reset_open-IsFiled) depth 12
