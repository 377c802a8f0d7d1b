-- ===== src/Net/Answered.antt =====
-- How an ARP request is answered, and what the stack does with a packet for another host.
use cmt_tcp.Prelude.{
  ℕ, ◌^◌, ◌<◌, ◌≡◌, ◌≢◌, refl, ap, ◌∙◌, true, false, not, ◌&&◌, none, some, List, [], ◌∷◌, ◌++◌,
  ltb, ◌==◌, get_elem?, length, arith, Bool-cases, Option-cases, inl, inr,
}
use cmt_tcp.Run.{ok, pure, stop, branch, gets, modify, deref, ◌>>=◌}
use cmt_tcp.Routes.{
  Eth, Config, max_arpentry, get_destination_hw_addr, learn, register_arp_entry,
  process_arp_request,
}
use cmt_tcp.Routes.Learned.{Learns, process_arp_request-Learns}
use cmt_tcp.Net.{arp, Frame, Net, Packet, Host, failed, on_config}
use cmt_tcp.Net.Output.{send, ethernet_output, arp_output}
use cmt_tcp.Net.Arp.{to_me, answer_request, process_arp_packet}
use cmt_tcp.Net.Input.{process_ipv4_packet, process_packet}

process_arp_request-eths :
    (sip sha : ℕ) (c c' : Config) → process_arp_request sip sha c ≡ ok (0, c') → c'.eths ≡ c.eths
unfolding process_arp_request register_arp_entry learn stop pure branch gets modify ◌>>=◌
process_arp_request-eths sip sha c c' e =
    elim (Option-cases (get_destination_hw_addr sip false c)) [
      | inl q ↦ elim (Bool-cases (ltb (length c.entry) max_arpentry)) [
        | inl room ↦ let f = rw (q, room) at e in cc
        | inr no_room ↦ let f = rw (q, no_room) at e in cc
      ]
      | inr (a, q) ↦ let f = rw q at e in cc
    ]

on_config-ok :
    (sip sha : ℕ) (n : Net) (c' : Config)
    → process_arp_request sip sha n.config ≡ ok (0, c')
    → on_config (process_arp_request sip sha) n ≡ ok (0, record n { config = c' })
unfolding on_config
on_config-ok sip sha n c' done = rw (on_config, done) refl

module _ (h : Host) (rounds cur_ts ifidx : ℕ) (n : Net) (p : Packet) where
  -- An ARP request for the address of an interface, which leaves by the interface `out`.
  pub record IsRequest (out : Eth) : Type 0 where
    pub ethernet : h.ntohs p.h_proto ≡ h.eth_p_arp
    pub request : h.ntohs p.arph.ar_op ≡ 1
    pub mine : to_me p.arph.ar_tip n.config.eths ≡ true
    pub eidx : ℕ
    pub card : n.nif_to_eidx (n.ifindex ifidx) ≡ some eidx
    pub at : get_elem? n.config.eths eidx ≡ some out
    pub buffer : h.get_wptr n.sent eidx 60 ≡ true

  -- The reply: the interface's own addresses for the sender's.
  abbrev pub arp_reply : Eth → Frame
  arp_reply out = (
    record { h_source = out.haddr; h_dest = p.arph.ar_sha; h_proto = h.htons h.eth_p_arp },
    arp (record {
      ar_hrd = h.htons 1;
      ar_pro = h.htons h.eth_p_ip;
      ar_hln = 6;
      ar_pln = 4;
      ar_op = h.htons 2;
      ar_sha = out.haddr;
      ar_sip = out.ip_addr;
      ar_tha = p.arph.ar_sha;
      ar_tip = p.arph.ar_sip;
    }),
  )

  arp_output-ok :
      (out : Eth) (m : Net)
      → (eidx : ℕ) → m.nif_to_eidx (n.ifindex ifidx) ≡ some eidx
      → get_elem? m.config.eths eidx ≡ some out
      → h.get_wptr m.sent eidx 60 ≡ true
      → arp_output h (n.ifindex ifidx) 2 p.arph.ar_sip p.arph.ar_sha none m
        ≡ ok (0, record m { sent = m.sent ++ arp_reply out ∷ [] })
  unfolding arp_output ethernet_output send deref ◌>>=◌ pure branch gets modify
  arp_output-ok out m eidx card at buffer = rw (card, ethernet_output, buffer, at, card, at) refl

  module _ (out : Eth) (v : IsRequest out) where
    answered :
        (c' : Config)
        → Learns p.arph.ar_sip p.arph.ar_sha n.config c'
        → answer_request h p.arph (n.ifindex ifidx) n
          ≡ ok (0, record n { config = c'; sent = n.sent ++ arp_reply out ∷ [] })
    unfolding answer_request ◌>>=◌ pure
    answered c' (done, found, others) =
        let eths = process_arp_request-eths p.arph.ar_sip p.arph.ar_sha n.config c' done in
        let sent_out =
          arp_output-ok out (record n { config = c' }) v.eidx v.card
            (ap (λ (es : List Eth). get_elem? es v.eidx) eths ∙ v.at) v.buffer in
        let step : on_config (process_arp_request p.arph.ar_sip p.arph.ar_sha) n
            ≡ ok (0, record n { config = c' }) =
          on_config-ok p.arph.ar_sip p.arph.ar_sha n c' done in
        rw (step, sent_out) refl

    -- An ARP request, from an address of 32 bits, for the address of an interface, where the table has
    -- room, the packet can leave and there is a buffer: the sender is learned as `Learns` says, and
    -- the one packet sent tells it the address of the interface by which the reply leaves.
    pub process_packet-answered :
        p.arph.ar_sip < 2 ^ 32
        → length n.config.entry < max_arpentry
        → (c' : Config) × Learns p.arph.ar_sip p.arph.ar_sha n.config c'
          × (process_packet h rounds cur_ts ifidx p n
              ≡ ok (0, record n { config = c'; sent = n.sent ++ arp_reply out ∷ [] }))
    unfolding process_packet process_arp_packet ◌>>=◌ pure branch gets
    process_packet-answered small room =
        let (c', learned) =
          process_arp_request-Learns p.arph.ar_sip p.arph.ar_sha n.config small room in
        let not_ip : (h.ntohs p.h_proto == h.eth_p_ip) ≡ false =
          (let q = h.arp_ne_ip in ground (arith, v.ethernet, q)) in
        let is_arp : (h.ntohs p.h_proto == h.eth_p_arp) ≡ true = ground (arith, v.ethernet) in
        let request : (h.ntohs p.arph.ar_op == 1) ≡ true = ground (arith, v.request) in
        (
          c',
          learned,
          rw (not_ip, is_arp, process_arp_packet, v.mine, request, answered c' learned) refl,
        )

  -- A packet that is neither to the address of the interface it came in by nor an ARP packet for one
  -- of the stack's addresses changes nothing.
  pub process_packet-foreign :
      (card : Eth)
      → get_elem? n.config.eths ifidx ≡ some card
      → p.iph.daddr ≢ card.ip_addr
      → to_me p.arph.ar_tip n.config.eths ≡ false
      → (code : ℕ) × (process_packet h rounds cur_ts ifidx p n ≡ ok (code, n))
  unfolding process_packet process_ipv4_packet process_arp_packet ◌>>=◌ pure branch gets deref
  process_packet-foreign card at other foreign =
      let apart : (p.iph.daddr == card.ip_addr) ≡ false = ground (arith, other) in
      elim (Bool-cases (h.ntohs p.h_proto == h.eth_p_ip)) [
        | inl is_ip ↦ elim (Bool-cases (ltb (h.ntohs p.iph.tot_len) 20)) [
          | inl short ↦ (failed, rw (is_ip, process_ipv4_packet, short) refl)
          | inr long ↦
              elim (Bool-cases (not (h.rx_ip_csum p.iph) && not (h.ip_fast_csum p.iph == 0))) [
                | inl wrong ↦ (failed, rw (is_ip, process_ipv4_packet, long, wrong) refl)
                | inr right ↦ (0, rw (is_ip, process_ipv4_packet, long, right, at, apart) refl)
              ]
        ]
        | inr not_ip ↦ elim (Bool-cases (h.ntohs p.h_proto == h.eth_p_arp)) [
          | inl is_arp ↦ (0, rw (not_ip, is_arp, process_arp_packet, foreign) refl)
          | inr not_arp ↦ (0, rw (not_ip, not_arp) refl)
        ]
      ]
