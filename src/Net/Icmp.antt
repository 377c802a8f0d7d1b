-- ===== src/Net/Icmp.antt =====
-- ICMP messages: src/icmp.c. The first word of a message is its type and, times 256, its code, as a
-- little-endian host reads it. The size of `struct icmphdr` is 8.
use cmt_tcp.Prelude.{ℕ, ◌+◌, ◌-◌, ◌*◌, ◌%◌, Option, none, some, List, ◌∷◌, ltb, ◌==◌, drop, get_or}
use cmt_tcp.Run.{out_of_bounds, Run, pure, stop, branch, gets, ◌>>=◌, ◌>>◌}
use cmt_tcp.Checksum.{icmp_check_sum}
use cmt_tcp.Net.{icmp, Net, Packet, Host, failed}
use cmt_tcp.Net.Output.{send, ip_output_standalone}
use cmt_tcp.Net.Arp.{to_me}

-- The message with this checksum.
abbrev pub message : ℕ → ℕ → ℕ → ℕ → List ℕ → List ℕ
message first sum id seq icmpd = first ∷ sum ∷ id ∷ seq ∷ icmpd

module _ (h : Host) (rounds cur_ts : ℕ) where
  -- `ICMP_output`, whose data are `len` bytes: the words `icmpd` and the odd byte.
  unfoldable pub icmp_output :
      (saddr daddr icmp_type icmp_code icmp_id icmp_seq : ℕ)
      → List ℕ
      → Option ℕ
      → (len : ℕ) → Run Net ℕ
  icmp_output saddr daddr icmp_type icmp_code icmp_id icmp_seq icmpd odd len = do
    iph ← ip_output_standalone h rounds cur_ts h.ipproto_icmp 0 saddr daddr (8 + len)
    elim iph [
      | none ↦ pure failed
      | some (eth, ip) ↦ do
        let first = icmp_type + icmp_code * 256
        let blank = message first 0 (h.htons icmp_id) (h.htons icmp_seq) icmpd
        let sum = icmp_check_sum (h.stale blank) blank odd
        send (eth, icmp ip (message first sum (h.htons icmp_id) (h.htons icmp_seq) icmpd) odd)
        pure 0
    ]

  -- `request_ICMP`, which calls `ICMP_output`.
  unfoldable pub request_icmp :
      (saddr daddr icmp_id icmp_seq : ℕ) → List ℕ → Option ℕ → (len : ℕ) → Run Net ℕ
  request_icmp saddr daddr icmp_id icmp_seq icmpd odd len =
      icmp_output saddr daddr 8 0 (h.ntohs icmp_id) (h.ntohs icmp_seq) icmpd odd len

  -- `process_ICMP_echo_request`. A message of fewer than 8 bytes makes the length of the data wrap
  -- round, and they are copied from behind the packet.
  unfoldable pub process_icmp_echo_request : Packet → ℕ → Run Net ℕ
  process_icmp_echo_request p len =
      branch (icmp_check_sum (h.stale p.words) p.words p.odd == 0)
        (branch (ltb (len - p.iph.ihl * 4) 8) (stop out_of_bounds) (
          icmp_output p.iph.daddr p.iph.saddr 0 0 (h.ntohs (get_or p.words 2 0))
            (h.ntohs (get_or p.words 3 0)) (drop 4 p.words) p.odd (len - p.iph.ihl * 4 - 8)
          >> pure 0))
        (pure failed)

  -- `process_ICMP_packet`; other types than an echo request are only printed.
  unfoldable pub process_icmp_packet : Packet → ℕ → Run Net ℕ
  process_icmp_packet p len = do
    n ← gets (λ n. n)
    branch (to_me p.iph.daddr n.config.eths)
        (branch (get_or p.words 0 0 % 256 == 8) (process_icmp_echo_request p len) (pure 0)
          >> pure 1)
        (pure 0)
