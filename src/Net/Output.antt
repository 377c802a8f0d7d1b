-- ===== src/Net/Output.antt =====
-- What goes out: `ethernet_output` of src/eth.c, `ARP_output` and `request_ARP` of src/arp.c, and
-- the two functions of src/ip.c that put an IP header before a payload.
use cmt_tcp.Prelude.{
  ℕ, zero, suc, ◌+◌, ◌-◌, ◌%◌, ◌^◌, Bool, true, false, not, ◌&&◌, Option, none, some, List, [], ◌∷◌,
  ◌++◌, ◌==◌, if◌then◌else◌, get_elem?, ltb, length,
}
use cmt_tcp.Run.{
  ok, fault, diverges, out_of_bounds, null_pointer, Run, pure, branch, gets, modify, deref, ◌>>=◌,
  ◌>>◌,
}
use cmt_tcp.Links.{relink}
use cmt_tcp.Routes.{Route, get_destination_hw_addr, get_output_interface}
use cmt_tcp.Net.{IpHdr, arp, EthHdr, Frame, ArpRequest, Net, Host, failed}

-- A packet that is filled in, in the buffer that the driver has given.
unfoldable pub send : Frame → Run Net (Unit {0})
send f = modify (λ n. record n { sent = n.sent ++ f ∷ [] })

-- Where the request for `ip` is under way.
unfoldable pub in_progress : ℕ → List ArpRequest → Bool
in_progress ip [] = false
in_progress ip (r ∷ rs) =
    let rest = in_progress ip rs in if (r.ip == ip) && not (r.flag == 0) then true else rest

abbrev pub same_node : Option ℕ → Option ℕ → Bool
same_node none none = true
same_node (some a) (some b) = a == b
same_node _ _ = false

-- `CASra` on the head, read as an exchange of values: whether it succeeded, and the head after it.
unfoldable pub exchange_head : Option ℕ → Option ℕ → Option ℕ → Bool × Option ℕ
exchange_head head old_head new = if same_node head old_head then (true, new) else (false, head)

-- The loop at the end of `request_ARP` for the entry `ent`, with no other thread between and `rounds`
-- rounds at most: the head and the links when it ends.
unfoldable pub link_loop : ℕ → ℕ → Option ℕ → (ℕ → Option ℕ) → Option (Option ℕ × (ℕ → Option ℕ))
unfolding exchange_head
link_loop zero ent head arp_link = none
link_loop (suc rounds) ent head arp_link =
    let old_head = head in
    let linked = relink arp_link ent old_head in
    let (success, now) = exchange_head head old_head (some ent) in
    let again = link_loop rounds ent now linked in if success then again else some (now, linked)

-- The working list in memory: its entries have the numbers of their places.
abbrev pub list_head : List ArpRequest → Option ℕ
list_head [] = none
list_head (r ∷ rs) = some 0

abbrev pub list_link : List ArpRequest → ℕ → Option ℕ
list_link rs k = if ltb (k + 1) (length rs) then some (k + 1) else none

-- The entries that the links lead through from `p`, `n` at most.
unfoldable pub read_list : List ArpRequest → (ℕ → Option ℕ) → ℕ → Option ℕ → List ArpRequest
read_list entries arp_link zero p = []
read_list entries arp_link (suc n) none = []
read_list entries arp_link (suc n) (some k) =
    let rest = read_list entries arp_link n (arp_link k) in
    elim (get_elem? entries k) [ none ↦ rest | some r ↦ r ∷ rest ]

unfoldable pub link_request : ℕ → ArpRequest → Run Net (Unit {0})
unfolding link_loop read_list
link_request rounds ent n =
    let wl = n.working_list in
    elim (link_loop rounds (length wl) (list_head wl) (list_link wl)) [
      | none ↦ fault diverges
      | some (head, arp_link) ↦ ok (
        tt,
        record n { working_list = read_list (wl ++ ent ∷ []) arp_link (suc (length wl)) head },
      )
    ]

-- The fields of a stream that `IP_output` uses; a negative `nif_out` is none, and the numbers of the
-- interfaces fit the `int8_t`.
pub record Outgoing : Type 0 where
  pub nif_out : Option ℕ
  pub is_external : Bool
  pub saddr : ℕ
  pub daddr : ℕ
  pub ip_id : ℕ

module _ (h : Host) where
  -- `ethernet_output`, for an interface that is not negative: the header, where there is a buffer.
  unfoldable pub ethernet_output : ℕ → ℕ → ℕ → ℕ → Run Net (Option EthHdr)
  ethernet_output h_proto nif dst_haddr iplen n = elim (n.nif_to_eidx nif) [
    | none ↦ ok (none, n)
    | some eidx ↦
        if h.get_wptr n.sent eidx (iplen + 14)
        then (do
          e ← deref out_of_bounds (get_elem? n.config.eths eidx)
          pure
              (some (record { h_source = e.haddr; h_dest = dst_haddr; h_proto = h.htons h_proto })))
            n
        else ok (none, n)
  ]

  -- `ARP_output`; no target address stands for NULL, and the size of `struct arphdr` is 46.
  unfoldable pub arp_output : ℕ → ℕ → ℕ → ℕ → Option ℕ → Run Net ℕ
  arp_output nif opcode dst_ip dst_haddr target_haddr = do
    buffer ← ethernet_output h.eth_p_arp nif dst_haddr 46
    elim buffer [
      | none ↦ pure failed
      | some eth ↦ do
        n ← gets (λ n. n)
        edix ← deref out_of_bounds (n.nif_to_eidx nif)
        e ← deref out_of_bounds (get_elem? n.config.eths edix)
        send (
          eth,
          arp (record {
            ar_hrd = h.htons 1;
            ar_pro = h.htons h.eth_p_ip;
            ar_hln = 6;
            ar_pln = 4;
            ar_op = h.htons opcode;
            ar_sha = e.haddr;
            ar_sip = e.ip_addr;
            ar_tha = elim target_haddr [ some t ↦ t | none ↦ dst_haddr ];
            ar_tip = dst_ip;
          }),
        )
        pure 0
    ]

  -- `request_ARP`, with `rounds` of its last loop.
  unfoldable pub request_arp : ℕ → ℕ → ℕ → ℕ → Run Net ℕ
  request_arp rounds ip nif cur_ts = do
    n ← gets (λ n. n)
    branch (in_progress ip n.working_list) (pure 0) do
      branch (h.has_memory n.working_list)
          (link_request rounds (record { ip = ip; nif_out = nif; ts_out = cur_ts; flag = 1 })
            >> arp_output nif 1 ip (2 ^ 48 - 1) (some 0))
          (pure failed)

  -- The IP header that both functions fill in, its checksum 0.
  unfoldable pub blank_header : ℕ → ℕ → ℕ → ℕ → ℕ → IpHdr
  blank_header protocol ip_id saddr daddr payloadlen = record {
    ihl = 5;
    version = 4;
    tos = 0;
    tot_len = h.htons (20 + payloadlen);
    id = h.htons ip_id;
    frag_off = h.htons 0x4000;
    ttl = 64;
    protocol = protocol;
    saddr = saddr;
    daddr = daddr;
    check = 0;
  }

  -- The header with the checksum, where the card does not put it in.
  unfoldable pub ip_header : ℕ → ℕ → ℕ → ℕ → ℕ → IpHdr
  ip_header protocol ip_id saddr daddr payloadlen =
      let iph = blank_header protocol ip_id saddr daddr payloadlen in
      let known = if protocol == h.ipproto_tcp then true else protocol == h.ipproto_icmp in
      record iph { check = if known && h.tx_csum iph then 0 else h.ip_fast_csum iph }

  -- The gateway's address or the destination, for a request.
  unfoldable pub asked_for : Bool → ℕ → Run Net ℕ
  asked_for is_external daddr = do
    n ← gets (λ n. n)
    branch is_external (deref null_pointer n.config.gateway >>= λ (g : Route). pure g.daddr)
        (pure daddr)

  -- The end of `IP_output_standalone`, for an interface: the headers of the packet to fill in.
  unfoldable pub standalone_by :
      ℕ → ℕ → ℕ → ℕ → ℕ → ℕ → ℕ → ℕ → Bool → Run Net (Option (EthHdr × IpHdr))
  standalone_by rounds cur_ts protocol ip_id saddr daddr payloadlen nif is_external n =
      elim (get_destination_hw_addr daddr is_external n.config) [
        | none ↦
            (do ip ← asked_for is_external daddr; request_arp rounds ip nif cur_ts; pure none) n
        | some haddr ↦
            (do
              buffer ← ethernet_output h.eth_p_ip nif haddr (payloadlen + 20)
              elim buffer [
                | none ↦ pure none
                | some eth ↦ pure (some (eth, ip_header protocol ip_id saddr daddr payloadlen))
              ])
              n
      ]

  -- `IP_output_standalone`
  unfoldable pub ip_output_standalone :
      ℕ → ℕ → ℕ → ℕ → ℕ → ℕ → ℕ → Run Net (Option (EthHdr × IpHdr))
  ip_output_standalone rounds cur_ts protocol ip_id saddr daddr payloadlen n =
      elim (get_output_interface daddr n.config.gateway n.config.rtable) [
        | ok (nif, is_external) ↦
            standalone_by rounds cur_ts protocol ip_id saddr daddr payloadlen nif is_external n
        | fault f ↦ fault f
      ]

  -- The interface of a stream, which is chosen once.
  unfoldable pub stream_interface : Outgoing → Run Net (ℕ × Outgoing)
  stream_interface stream n = elim stream.nif_out [
    | some nif ↦ ok ((nif, stream), n)
    | none ↦ elim (get_output_interface stream.daddr n.config.gateway n.config.rtable) [
      | ok (nif, ext) ↦ ok ((nif, record stream { nif_out = some nif; is_external = ext }), n)
      | fault f ↦ fault f
    ]
  ]

  -- `IP_output`: the stream afterwards, and the headers of the packet to fill in.
  unfoldable pub ip_output : ℕ → ℕ → Outgoing → ℕ → Run Net (Outgoing × (Option (EthHdr × IpHdr)))
  ip_output rounds cur_ts stream tcplen = do
    out ← stream_interface stream
    n ← gets (λ n. n)
    elim (get_destination_hw_addr stream.daddr out.1.is_external n.config) [
      | none ↦ do
        ip ← asked_for out.1.is_external stream.daddr
        request_arp rounds ip out.0 cur_ts
        pure (out.1, none)
      | some haddr ↦ do
        buffer ← ethernet_output h.eth_p_ip out.0 haddr (tcplen + 20)
        elim buffer [
          | none ↦ pure (out.1, none)
          | some eth ↦ pure (
            record out.1 { ip_id = (stream.ip_id + 1) % 2 ^ 16 },
            some (eth, ip_header h.ipproto_tcp stream.ip_id stream.saddr stream.daddr tcplen),
          )
        ]
    ]
