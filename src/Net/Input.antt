-- ===== src/Net/Input.antt =====
-- A packet that comes in: `process_packet` of src/eth.c and `process_IPv4_packet` of src/ip.c, not in
-- promiscuous mode. The release of a packet to the driver is left out.
use cmt_tcp.Prelude.{ℕ, not, ◌&&◌, ltb, ◌==◌, get_elem?}
use cmt_tcp.Run.{out_of_bounds, Run, pure, branch, gets, deref, ◌>>=◌, ◌>>◌}
use cmt_tcp.Net.{Net, Packet, Host, failed}
use cmt_tcp.Net.Arp.{process_arp_packet}
use cmt_tcp.Net.Icmp.{process_icmp_packet}

module _ (h : Host) (rounds : ℕ) (cur_ts ifidx : ℕ) where
  unfoldable pub process_ipv4_packet : Packet → Run Net ℕ
  process_ipv4_packet p = do
    n ← gets (λ n. n)
    let ip_len = h.ntohs p.iph.tot_len
    branch (ltb ip_len 20) (pure failed) do
      branch (not (h.rx_ip_csum p.iph) && not (h.ip_fast_csum p.iph == 0)) (pure failed) do
        e ← deref out_of_bounds (get_elem? n.config.eths ifidx)
        branch (not (p.iph.daddr == e.ip_addr)) (pure 0) do
          branch (not (p.iph.version == 4)) (pure 0) do
            branch (p.iph.protocol == h.ipproto_tcp) (h.process_tcp_packet p) do
              branch (p.iph.protocol == h.ipproto_icmp)
                  (process_icmp_packet h rounds cur_ts p ip_len) (pure 0)

  unfoldable pub process_packet : Packet → Run Net ℕ
  process_packet p =
      branch (h.ntohs p.h_proto == h.eth_p_ip) (process_ipv4_packet p) (
        branch (h.ntohs p.h_proto == h.eth_p_arp) (process_arp_packet h ifidx p >> pure 0) (pure 0))
