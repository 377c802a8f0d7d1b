-- ===== src/Net/Arp.antt =====
-- ARP packets that come in, and the requests that wait for an answer: src/arp.c.
use cmt_tcp.Prelude.{ℕ, Bool, true, false, none, some, List, [], ◌∷◌, ◌==◌, if◌then◌else◌, add32}
use cmt_tcp.Seq.{seq_gt}
use cmt_tcp.Run.{Outcome, ok, fault, null_pointer, Run, pure, branch, gets, ◌>>=◌, ◌>>◌}
use cmt_tcp.Routes.{Eth, get_destination_hw_addr, register_arp_entry, process_arp_request}
use cmt_tcp.Net.{ArpHdr, ArpRequest, Net, Packet, Host, on_config}
use cmt_tcp.Net.Output.{arp_output}

-- The address is that of one of the interfaces.
unfoldable pub to_me : ℕ → List Eth → Bool
to_me ip [] = false
to_me ip (e ∷ es) = let rest = to_me ip es in if ip == e.ip_addr then true else rest

-- The loop of `process_ARP_reply` over the requests behind `ent`: one for the address is taken out,
-- and the loop goes on at the one behind, which it takes for `ent` without a look at it.
unfoldable pub answer : ℕ → List ArpRequest → Outcome (List ArpRequest)
answer ip [] = ok []
answer ip (r ∷ []) = if r.ip == ip then fault null_pointer else ok (r ∷ [])
answer ip (r ∷ q ∷ rs) =
    let behind = answer ip rs in
    let rest = answer ip (q ∷ rs) in
    if r.ip == ip
    then (elim behind [ ok xs ↦ ok (q ∷ xs) | fault f ↦ fault f ])
    else (elim rest [ ok xs ↦ ok (r ∷ xs) | fault f ↦ fault f ])

-- The loop on the list of the network.
unfoldable pub take_out : ℕ → Run Net ℕ
take_out ip n = elim (answer ip n.working_list) [
  | ok xs ↦ ok (0, record n { working_list = xs })
  | fault f ↦ fault f
]

-- `process_ARP_reply`
unfoldable pub process_arp_reply : ArpHdr → Run Net ℕ
process_arp_reply arph = do
  known ← gets (λ n. elim (get_destination_hw_addr arph.ar_sip false n.config) [
    | some a ↦ true
    | none ↦ false
  ])
  branch known (pure 0) (on_config (register_arp_entry arph.ar_sip arph.ar_sha))
  take_out arph.ar_sip

-- The removals of `ARP_timer`: a request of more than a second is dropped. `sec_to_ts` is a second
-- in the clock's units.
unfoldable pub arp_timer : ℕ → ℕ → List ArpRequest → List ArpRequest
arp_timer sec_to_ts cur_ts [] = []
arp_timer sec_to_ts cur_ts (r ∷ rs) =
    let rest = arp_timer sec_to_ts cur_ts rs in
    if seq_gt cur_ts (add32 r.ts_out sec_to_ts) then rest else r ∷ rest

module _ (h : Host) where
  -- `process_ARP_request`: the sender is learned, and answered.
  unfoldable pub answer_request : ArpHdr → ℕ → Run Net ℕ
  answer_request arph nif = do
    on_config (process_arp_request arph.ar_sip arph.ar_sha)
    arp_output h nif 2 arph.ar_sip arph.ar_sha none
    pure 0

  -- `process_ARP_packet`
  unfoldable pub process_arp_packet : ℕ → Packet → Run Net ℕ
  process_arp_packet ifidx p = do
    n ← gets (λ n. n)
    branch (to_me p.arph.ar_tip n.config.eths)
        (branch (h.ntohs p.arph.ar_op == 1) (answer_request p.arph (n.ifindex ifidx))
          (branch (h.ntohs p.arph.ar_op == 2) (process_arp_reply p.arph) (pure 0)))
        (pure 0)
    pure 0
