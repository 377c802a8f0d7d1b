-- ===== src/Net/Waiting.antt =====
-- Where the layers below TCP do not come back: a packet for a neighbour that is not known, and the
-- answer to the last request that waits.
use cmt_tcp.Prelude.{
  ℕ, zero, suc, ◌≡◌, ◌≢◌, refl, Bool, Option, length, ==_refl, true, false, none, some, List, [],
  ◌∷◌, ◌++◌, ◌==◌, arith,
}
use cmt_tcp.Run.{ok, fault, diverges, null_pointer, pure, stop, branch, gets, ◌>>=◌}
use cmt_tcp.Links.{relink}
use cmt_tcp.Routes.{get_destination_hw_addr, get_output_interface}
use cmt_tcp.Net.{ArpHdr, ArpRequest, Net, Host}
use cmt_tcp.Net.Output.{
  asked_for, in_progress, same_node, exchange_head, link_loop, list_head, list_link, link_request,
  request_arp, standalone_by, ip_output_standalone,
}
use cmt_tcp.Net.Arp.{answer, take_out, process_arp_reply}

same_node_refl : (p : Option ℕ) → same_node p p ≡ true
same_node_refl none = refl
same_node_refl (some a) = ==_refl a

-- The exchange succeeds, which is what the loop goes on for.
link_loop_endless :
    (rounds ent : ℕ) (head : Option ℕ) (arp_link : ℕ → Option ℕ)
    → link_loop rounds ent head arp_link ≡ none
unfolding link_loop exchange_head
link_loop_endless zero ent head arp_link = refl
link_loop_endless (suc rounds) ent head arp_link =
    rw (same_node_refl head) (link_loop_endless rounds ent (some ent) (relink arp_link ent head))

link_request_endless :
    (rounds : ℕ) (ent : ArpRequest) (n : Net) → link_request rounds ent n ≡ fault diverges
unfolding link_request
link_request_endless rounds ent n =
    let wl = n.working_list in
    rw (link_request, link_loop_endless rounds (length wl) (list_head wl) (list_link wl)) refl

module _ (h : Host) (rounds cur_ts : ℕ) (n : Net) where
  -- There is a route to `daddr` but no hardware address, and the address to ask for has no request
  -- under way, for which there is memory.
  pub record Unknown (daddr : ℕ) : Type 0 where
    pub nif : ℕ
    pub is_external : Bool
    pub ip : ℕ
    pub route : get_output_interface daddr n.config.gateway n.config.rtable ≡ ok (nif, is_external)
    pub stranger : get_destination_hw_addr daddr is_external n.config ≡ none
    pub next_hop : asked_for h is_external daddr n ≡ ok (ip, n)
    pub quiet : in_progress ip n.working_list ≡ false
    pub memory : h.has_memory n.working_list ≡ true

  -- A packet that the stack wants to send to a neighbour that is not known, and that is not asked
  -- for yet, is never sent: the call does not come back, whatever number of rounds of its loop are
  -- allowed.
  pub ip_output_standalone_hangs :
      (protocol ip_id saddr daddr len : ℕ)
      → Unknown daddr
      → ip_output_standalone h rounds cur_ts protocol ip_id saddr daddr len n ≡ fault diverges
  unfolding ip_output_standalone standalone_by request_arp ◌>>=◌ branch gets
  ip_output_standalone_hangs protocol ip_id saddr daddr len u =
      rw
        (
          u.route,
          ip_output_standalone,
          u.stranger,
          standalone_by,
          u.next_hop,
          u.quiet,
          u.memory,
          link_request_endless rounds _ n,
        )
        refl

-- No request of the list is for the address.
abbrev pub Absent : ℕ → List ArpRequest → Type 0
Absent ip [] = Unit
Absent ip (r ∷ rs) = (r.ip ≢ ip) × Absent ip rs

answer_last :
    (ip : ℕ) (xs : List ArpRequest) (r : ArpRequest)
    → Absent ip xs
    → r.ip ≡ ip
    → answer ip (xs ++ r ∷ []) ≡ fault null_pointer
unfolding answer
answer_last ip [] r none_before mine =
    let same : (r.ip == ip) ≡ true = ground (arith, mine) in rw same refl
answer_last ip (x ∷ []) r (other, none_before) mine =
    let apart : (x.ip == ip) ≡ false = ground (arith, other) in
    rw (apart, answer_last ip [] r tt mine) refl
answer_last ip (x ∷ y ∷ xs) r (other, none_before) mine =
    let apart : (x.ip == ip) ≡ false = ground (arith, other) in
    rw (apart, answer_last ip (y ∷ xs) r none_before mine) refl

-- An ARP reply from a known sender that the last request in the list, and no other, is for reads the
-- link of no request: the process stops.
pub process_arp_reply_faults :
    (n : Net) (arph : ArpHdr) (haddr : ℕ) (xs : List ArpRequest) (r : ArpRequest)
    → get_destination_hw_addr arph.ar_sip false n.config ≡ some haddr
    → n.working_list ≡ xs ++ r ∷ []
    → Absent arph.ar_sip xs
    → r.ip ≡ arph.ar_sip
    → process_arp_reply arph n ≡ fault null_pointer
unfolding process_arp_reply take_out ◌>>=◌ pure branch gets stop
process_arp_reply_faults n arph haddr xs r known waiting none_before mine =
    rw (known, waiting, take_out, answer_last arph.ar_sip xs r none_before mine) refl
