-- ===== src/Routes.antt =====
-- Where a packet goes: the hardware addresses of src/arp.c and the interface of
-- `get_output_interface` in src/ip.c. A hardware address is one number of 48 bits. The text names
-- the number of entries `entries` and `entry_nums`, which is one counter; here it is the list's
-- length. What goes out on the wire and what is printed are left out.
pub mod Longest
pub mod Learned
use cmt_tcp.Prelude.{
  ℕ, zero, suc, ◌+◌, ◌-◌, ◌^◌, Bool, true, false, not, ◌&&◌, Option, none, some, List, [], ◌∷◌,
  ◌++◌, length, ltb, ◌==◌, if◌then◌else◌, bit_and,
}
use cmt_tcp.Run.{
  Outcome, ok, fault, assertion, out_of_bounds, Run, pure, stop, branch, gets, modify, ◌>>=◌, ◌>>◌,
}

-- `arp_entry_t`
pub record ArpEntry : Type 0 where
  pub prefix : ℕ
  pub ip : ℕ
  pub haddr : ℕ
  pub ip_mask : ℕ
  pub ip_masked : ℕ
  pub flag : ℕ

-- An interface of `config.eths`.
pub record Eth : Type 0 where
  pub ip_addr : ℕ
  pub haddr : ℕ

-- An entry of `CONFIG.rtable`; the gateway has the last three of its fields.
pub record Route : Type 0 where
  pub prefix : ℕ
  pub mask : ℕ
  pub masked : ℕ
  pub daddr : ℕ
  pub nif : ℕ

-- The parts of `config` that these functions use.
pub record Config : Type 0 where
  pub eths : List Eth
  pub rtable : List Route
  pub gateway : Option Route
  pub entry : List ArpEntry
  pub arp_gateway : Option ArpEntry

-- `get_HW_addr`
unfoldable pub get_hw_addr : List Eth → ℕ → Option ℕ
get_hw_addr [] ip = none
get_hw_addr (e ∷ es) ip =
    let rest = get_hw_addr es ip in if ip == e.ip_addr then some e.haddr else rest

unfoldable pub is_exact : ℕ → ArpEntry → Bool
is_exact dip e = (e.prefix == 1) && (e.ip == dip)

-- The entry matches and its prefix is longer than the longest so far.
unfoldable pub improves : ℕ → ℕ → ArpEntry → Bool
improves dip prefix e =
    not (e.prefix == 1) && ((bit_and dip e.ip_mask == e.ip_masked) && ltb prefix e.prefix)

-- The loop of `get_destination_HW_addr`.
unfoldable pub longest_match : ℕ → List ArpEntry → ℕ → Option ℕ → Option ℕ
longest_match dip [] prefix d_haddr = d_haddr
longest_match dip (e ∷ es) prefix d_haddr =
    let b = improves dip prefix e in
    let rest =
      longest_match dip es (if b then e.prefix else prefix) (if b then some e.haddr else d_haddr) in
    if is_exact dip e then some e.haddr else rest

-- `get_destination_HW_addr`
unfoldable pub get_destination_hw_addr : ℕ → Bool → Config → Option ℕ
get_destination_hw_addr dip is_gateway c =
    let learned = longest_match dip c.entry 0 none in
    if is_gateway then (elim c.arp_gateway [ some g ↦ some g.haddr | none ↦ learned ]) else learned

-- The entry that `register_ARP_entry` fills in.
abbrev pub learned_entry : ℕ → ℕ → ArpEntry
learned_entry ip haddr = record {
  prefix = 32;
  ip = ip;
  haddr = haddr;
  ip_mask = 2 ^ 32 - 1;
  ip_masked = ip;
  flag = 1;
}

-- Whether the gateway's address is the entry's.
unfoldable pub is_gateway_entry : Option Route → ArpEntry → Bool
is_gateway_entry none e = false
is_gateway_entry (some g) e = bit_and g.daddr e.ip_mask == e.ip_masked

abbrev pub max_arpentry : ℕ
max_arpentry = 1024

-- `register_ARP_entry`, whose table has `max_arpentry` places.
unfoldable pub learn : ℕ → ℕ → Config → Config
learn ip haddr c = record c {
  entry = c.entry ++ learned_entry ip haddr ∷ [];
  arp_gateway =
      if is_gateway_entry c.gateway (learned_entry ip haddr)
      then some (learned_entry ip haddr)
      else c.arp_gateway;
}

unfoldable pub register_arp_entry : ℕ → ℕ → Run Config ℕ
register_arp_entry ip haddr = do
  c ← gets (λ c. c)
  branch (ltb (length c.entry) max_arpentry) (modify (learn ip haddr)) (stop out_of_bounds)
  pure 0

-- `process_ARP_request`, up to its reply.
unfoldable pub process_arp_request : ℕ → ℕ → Run Config ℕ
process_arp_request ar_sip ar_sha = do
  temp ← gets (get_destination_hw_addr ar_sip false)
  elim temp [ some h ↦ pure 0 | none ↦ register_arp_entry ar_sip ar_sha ]

-- `get_output_interface`: the loop stops at the first route that matches.
unfoldable pub get_output_interface : ℕ → Option Route → List Route → Outcome (ℕ × Bool)
get_output_interface daddr gateway [] = fault assertion
get_output_interface daddr gateway (r ∷ rs) =
    let rest = get_output_interface daddr gateway rs in
    if bit_and daddr r.mask == r.masked
    then if ltb 0 r.prefix
      then ok (r.nif, false)
      else (elim gateway [ some g ↦ ok (g.nif, true) | none ↦ fault assertion ])
    else rest
