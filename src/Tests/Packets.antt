-- ===== src/Tests/Packets.antt =====
-- Packets at concrete values.
use cmt_tcp.Prelude.{ℕ, ◌-◌, ◌^◌, ◌≡◌, refl, true, false, none, some, [], ◌∷◌, arith}
use cmt_tcp.Run.{ok, fault, diverges, ◌>>=◌}
use cmt_tcp.Checksum.{htons, icmp_check_sum}
use cmt_tcp.Routes.{
  Config, Eth, get_destination_hw_addr, get_output_interface, longest_match, is_exact, improves,
}
use cmt_tcp.Routes.Learned.{Learns}
use cmt_tcp.Net.{Net, Packet, Host}
use cmt_tcp.Net.Output.{asked_for, in_progress, ip_output_standalone}
use cmt_tcp.Net.Arp.{to_me}
use cmt_tcp.Net.Icmp.{message}
use cmt_tcp.Net.Input.{process_packet}
use cmt_tcp.Net.Answered.{IsRequest, arp_reply, process_packet-answered, process_packet-foreign}
use cmt_tcp.Net.Waiting.{Unknown, ip_output_standalone_hangs}

abbrev host : Host
host = record {
  htons = htons;
  ntohs = htons;
  htons-ntohs = λ x small. omega (arith, small);
  eth_p_ip = 2048;
  eth_p_arp = 2054;
  arp_ne_ip = λ e. omega (arith, e);
  ipproto_tcp = 6;
  ipproto_icmp = 1;
  icmp_ne_tcp = λ e. omega (arith, e);
  get_wptr = λ sent eidx len. true;
  rx_ip_csum = λ iph. true;
  tx_csum = λ iph. true;
  ip_fast_csum = λ iph. 0;
  stale = λ ws. 77;
  has_memory = λ requests. true;
  process_tcp_packet = λ p n. ok (0, n);
}

abbrev card : Eth
card = record { ip_addr = 50; haddr = 500 }

-- One interface, by which everything leaves, and the neighbour 60.
abbrev net : Net
net = record {
  config = record {
    eths = card ∷ [];
    rtable = record { prefix = 8; mask = 0; masked = 0; daddr = 0; nif = 3 } ∷ [];
    gateway = none;
    entry =
        record { prefix = 32; ip = 60; haddr = 600; ip_mask = 2 ^ 32 - 1; ip_masked = 60; flag = 1 }
        ∷ [];
    arp_gateway = none;
  };
  nif_to_eidx = λ nif. some 0;
  ifindex = λ port. 3;
  working_list = [];
  sent = [];
}

abbrev echo_check : ℕ
echo_check = icmp_check_sum 0 (message 8 0 7 1 (4660 ∷ [])) none

-- An echo request of ten bytes from 60 to 50, or an ARP request for 50 from 70.
abbrev packet : ℕ → Packet
packet proto = record {
  h_proto = htons proto;
  iph = record {
    ihl = 5;
    version = 4;
    tos = 0;
    tot_len = htons 30;
    id = 0;
    frag_off = 0;
    ttl = 64;
    protocol = 1;
    saddr = 60;
    daddr = 50;
    check = 0;
  };
  arph = record {
    ar_hrd = 256;
    ar_pro = 8;
    ar_hln = 6;
    ar_pln = 4;
    ar_op = htons 1;
    ar_sha = 700;
    ar_sip = 70;
    ar_tha = 0;
    ar_tip = 50;
  };
  words = message 8 echo_check 7 1 (4660 ∷ []);
  odd = none;
}

route_out : get_output_interface 61 none net.config.rtable ≡ ok (3, false)
unfolding get_output_interface
route_out = refl

mine : to_me 50 net.config.eths ≡ true
unfolding to_me
mine = refl

asked-IsRequest : IsRequest host 9 0 0 net (packet 2054) card
asked-IsRequest = record {
  ethernet = refl;
  request = refl;
  mine = mine;
  eidx = 0;
  card = refl;
  at = refl;
  buffer = refl;
}

process_packet-answered_example :
    (c' : Config) × Learns 70 700 net.config c'
    × (process_packet host 9 0 0 (packet 2054) net
        ≡ ok (
          0,
          record net { config = c'; sent = arp_reply host 9 0 0 net (packet 2054) card ∷ [] },
        ))
process_packet-answered_example =
    process_packet-answered host 9 0 0 net (packet 2054) card asked-IsRequest (omega arith)
      (omega arith)

-- The interface has another address.
abbrev elsewhere : Net
elsewhere = record net {
  config = record net.config { eths = record { ip_addr = 51; haddr = 500 } ∷ [] };
}

not_elsewhere : to_me 50 elsewhere.config.eths ≡ false
unfolding to_me
not_elsewhere = refl

process_packet-foreign_example :
    (code : ℕ) × (process_packet host 9 0 0 (packet 2048) elsewhere ≡ ok (code, elsewhere))
process_packet-foreign_example =
    process_packet-foreign host 9 0 0 elsewhere (packet 2048) (record { ip_addr = 51; haddr = 500 })
      refl (λ e. omega (arith, e)) not_elsewhere

no_neighbour : get_destination_hw_addr 61 false net.config ≡ none
unfolding get_destination_hw_addr longest_match is_exact improves
no_neighbour = refl

ask : asked_for host false 61 net ≡ ok (61, net)
unfolding asked_for ◌>>=◌
ask = refl

nobody_asked : in_progress 61 [] ≡ false
unfolding in_progress
nobody_asked = refl

stranger-Unknown : Unknown host 9 0 net 61
stranger-Unknown = record {
  nif = 3;
  is_external = false;
  ip = 61;
  route = route_out;
  stranger = no_neighbour;
  next_hop = ask;
  quiet = nobody_asked;
  memory = refl;
}

ip_output_standalone_hangs_example : ip_output_standalone host 9 0 1 0 50 61 18 net ≡ fault diverges
ip_output_standalone_hangs_example =
    ip_output_standalone_hangs host 9 0 net 1 0 50 61 18 stranger-Unknown
