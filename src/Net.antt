-- ===== src/Net.antt =====
-- The packets of the layers below TCP: src/eth.c, src/ip.c, src/icmp.c and what src/arp.c sends and
-- waits for. A received packet is what the header pointers show of it, in network order; a packet
-- that goes out is noted when it is filled in.
pub mod Output
pub mod Arp
pub mod Icmp
pub mod Input
pub mod Waiting
pub mod Echo
pub mod Answered
use cmt_tcp.Prelude.{
  ℕ, zero, suc, ◌+◌, ◌-◌, ◌*◌, ◌^◌, ◌<◌, ◌≡◌, ◌≢◌, Bool, true, false, Option, none, some, List, [],
  ◌∷◌, ◌++◌, ltb, ◌==◌, if◌then◌else◌,
}
use cmt_tcp.Run.{Outcome, ok, fault, Run}
use cmt_tcp.Routes.{Eth, Config}

-- `struct iphdr`
pub record IpHdr : Type 0 where
  pub ihl : ℕ
  pub version : ℕ
  pub tos : ℕ
  pub tot_len : ℕ
  pub id : ℕ
  pub frag_off : ℕ
  pub ttl : ℕ
  pub protocol : ℕ
  pub saddr : ℕ
  pub daddr : ℕ
  pub check : ℕ

-- `struct arphdr`
pub record ArpHdr : Type 0 where
  pub ar_hrd : ℕ
  pub ar_pro : ℕ
  pub ar_hln : ℕ
  pub ar_pln : ℕ
  pub ar_op : ℕ
  pub ar_sha : ℕ
  pub ar_sip : ℕ
  pub ar_tha : ℕ
  pub ar_tip : ℕ

-- What a packet carries behind its Ethernet header: an ICMP message is its 16-bit words, and its
-- last byte where their number is odd.
pub data Body : Type 0 where
  arp : ArpHdr → Body
  icmp : IpHdr → List ℕ → Option ℕ → Body

-- `struct ethhdr`
pub record EthHdr : Type 0 where
  pub h_source : ℕ
  pub h_dest : ℕ
  pub h_proto : ℕ

abbrev pub Frame : Type 0
Frame = EthHdr × Body

-- A received packet, as each of the header pointers shows it.
pub record Packet : Type 0 where
  pub h_proto : ℕ
  pub iph : IpHdr
  pub arph : ArpHdr
  pub words : List ℕ
  pub odd : Option ℕ

-- `arp_queue_entry_t`
pub record ArpRequest : Type 0 where
  pub ip : ℕ
  pub nif_out : ℕ
  pub ts_out : ℕ
  pub flag : ℕ

-- The parts of `config` for these functions, the requests behind the head of `g_arpm.working_list`,
-- and what has been sent.
pub record Net : Type 0 where
  pub config : Config
  pub nif_to_eidx : ℕ → Option ℕ
  pub ifindex : ℕ → ℕ
  pub working_list : List ArpRequest
  pub sent : List Frame

-- What the system and the driver give: the byte order, the numbers of the protocols, the buffers
-- for packets, the checksums, what the stack holds where `ICMP_check_sum` sums these words, the memory for a request, and the function for TCP packets.
pub record Host : Type 0 where
  pub htons : ℕ → ℕ
  pub ntohs : ℕ → ℕ
  pub htons-ntohs : (x : ℕ) → x < 2 ^ 16 → htons (ntohs x) ≡ x
  pub eth_p_ip : ℕ
  pub eth_p_arp : ℕ
  pub arp_ne_ip : eth_p_arp ≢ eth_p_ip
  pub ipproto_tcp : ℕ
  pub ipproto_icmp : ℕ
  pub icmp_ne_tcp : ipproto_icmp ≢ ipproto_tcp
  pub get_wptr : List Frame → ℕ → ℕ → Bool
  pub rx_ip_csum : IpHdr → Bool
  pub tx_csum : IpHdr → Bool
  pub ip_fast_csum : IpHdr → ℕ
  pub stale : List ℕ → ℕ
  pub has_memory : List ArpRequest → Bool
  pub process_tcp_packet : Packet → Run Net ℕ

-- An action of Routes, on the configuration.
unfoldable pub on_config : Run Config ℕ → Run Net ℕ
on_config m n = elim (m n.config) [
  | ok (a, c) ↦ ok (a, record n { config = c })
  | fault f ↦ fault f
]

-- -1 as an `int`.
abbrev pub failed : ℕ
failed = 2 ^ 32 - 1
