-- ===== src/Net/Echo.antt =====
-- How an echo request is answered.
use cmt_tcp.Prelude.{
  none, ℕ, ◌+◌, ◌-◌, ◌*◌, ◌%◌, ◌^◌, ◌<◌, ◌≤◌, ◌≡◌, Bool, true, false, not, ◌&&◌, some, List, ◌==◌,
  get_elem?,
}
use cmt_tcp.Run.{ok}
use cmt_tcp.Checksum.{icmp_check_sum}
use cmt_tcp.Routes.{Eth, get_destination_hw_addr, get_output_interface}
use cmt_tcp.Net.{icmp, EthHdr, Frame, Net, Packet, Host}
use cmt_tcp.Net.Output.{ip_header}
use cmt_tcp.Net.Icmp.{message}

module _ (h : Host) (rounds cur_ts : ℕ) (n : Net) where
  -- The packet of this length to `daddr` leaves by the interface `out` for the hardware address
  -- `haddr`, and the driver has a buffer for it.
  pub record Reachable (daddr len haddr : ℕ) (out : Eth) : Type 0 where
    pub nif : ℕ
    pub is_external : Bool
    pub eidx : ℕ
    pub route : get_output_interface daddr n.config.gateway n.config.rtable ≡ ok (nif, is_external)
    pub neighbour : get_destination_hw_addr daddr is_external n.config ≡ some haddr
    pub card : n.nif_to_eidx nif ≡ some eidx
    pub at : get_elem? n.config.eths eidx ≡ some out
    pub buffer : h.get_wptr n.sent eidx (len + 20 + 14) ≡ true

  abbrev pub eth_header : ℕ → Eth → EthHdr
  eth_header haddr out = record {
    h_source = out.haddr;
    h_dest = haddr;
    h_proto = h.htons h.eth_p_ip;
  }

  module _ (p : Packet) (haddr : ℕ) (out : Eth) (first check id seq : ℕ) (icmpd : List ℕ) where
    abbrev pub payload_length : ℕ
    payload_length = h.ntohs p.iph.tot_len - p.iph.ihl * 4 - 8

    -- An echo request with these words, to the interface that it came in by, that passes the checks.
    pub record IsEcho (ifidx : ℕ) : Type 0 where
      pub ethernet : h.ntohs p.h_proto ≡ h.eth_p_ip
      pub long : 20 ≤ h.ntohs p.iph.tot_len
      pub header : p.iph.ihl * 4 + 8 ≤ h.ntohs p.iph.tot_len
      pub checked : (not (h.rx_ip_csum p.iph) && not (h.ip_fast_csum p.iph == 0)) ≡ false
      pub card : Eth
      pub came_by : get_elem? n.config.eths ifidx ≡ some card
      pub mine : p.iph.daddr ≡ card.ip_addr
      pub version : p.iph.version ≡ 4
      pub protocol : p.iph.protocol ≡ h.ipproto_icmp
      pub shape : p.words ≡ message first check id seq icmpd
      pub echo : first % 256 ≡ 8
      pub id_word : id < 2 ^ 16
      pub seq_word : seq < 2 ^ 16
      pub even : p.odd ≡ none
      pub verified : icmp_check_sum (h.stale p.words) p.words none ≡ 0

    abbrev pub reply_check : ℕ
    reply_check =
        icmp_check_sum (h.stale (message 0 0 id seq icmpd)) (message 0 0 id seq icmpd) none

    -- The reply goes back by the route to the sender.
    abbrev pub reply : Frame
    reply = (
      eth_header haddr out,
      icmp (ip_header h h.ipproto_icmp 0 p.iph.daddr p.iph.saddr (8 + payload_length))
          (message 0 reply_check id seq icmpd) none,
    )
