-- ===== src/Tests/Routes.antt =====
-- Lookups of addresses at concrete values.
use cmt_tcp.Prelude.{
  ◌+◌, ◌*◌, ap, ◌-◌, ◌^◌, ◌≡◌, ◌⊎◌, refl, false, none, some, [], ◌∷◌, arith, inl, inr,
}
use cmt_tcp.Routes.{
  ArpEntry, Config, get_destination_hw_addr, longest_match, is_exact, improves,
  get_output_interface,
}
use cmt_tcp.Run.{ok}
use cmt_tcp.Routes.Longest.{Best, NoLonger, NoExact, get_destination_hw_addr-Best}

-- 10.0.0.0/8 and, behind it, 10.1.0.0/16.
abbrev wide : ArpEntry
wide = record {
  prefix = 8;
  ip = 10 * 2 ^ 24;
  haddr = 7;
  ip_mask = 2 ^ 32 - 2 ^ 24;
  ip_masked = 10 * 2 ^ 24;
  flag = 1;
}

abbrev narrow : ArpEntry
narrow = record {
  prefix = 16;
  ip = 2561 * 2 ^ 16;
  haddr = 8;
  ip_mask = 2 ^ 32 - 2 ^ 16;
  ip_masked = 2561 * 2 ^ 16;
  flag = 1;
}

abbrev config : Config
config = record {
  eths = [];
  rtable = [];
  gateway = none;
  entry = wide ∷ narrow ∷ [];
  arp_gateway = none;
}

both-NoExact : NoExact config.entry
both-NoExact e (inl q) h = omega (arith, ap (λ w. w.prefix) q, h)
both-NoExact e (inr (inl q)) h = omega (arith, ap (λ w. w.prefix) q, h)
both-NoExact e (inr (inr member)) h = absurd member

get_destination_hw_addr-Best_example :
    ((e : ArpEntry) × (get_destination_hw_addr (2561 * 2 ^ 16 + 5) false config ≡ some e.haddr)
      × Best (2561 * 2 ^ 16 + 5) config.entry e)
    ⊎ ((get_destination_hw_addr (2561 * 2 ^ 16 + 5) false config ≡ none)
        × NoLonger (2561 * 2 ^ 16 + 5) config.entry 0)
get_destination_hw_addr-Best_example =
    get_destination_hw_addr-Best (2561 * 2 ^ 16 + 5) config both-NoExact

narrow_found : get_destination_hw_addr (2561 * 2 ^ 16 + 5) false config ≡ some 8
unfolding get_destination_hw_addr longest_match is_exact improves
narrow_found = refl

-- The route to 10.0.0.0/8 stands first and hides the longer one behind it.
hidden_route :
    get_output_interface (2561 * 2 ^ 16 + 5) none (
      record { prefix = 8; mask = 2 ^ 32 - 2 ^ 24; masked = 10 * 2 ^ 24; daddr = 0; nif = 1 }
      ∷ record { prefix = 16; mask = 2 ^ 32 - 2 ^ 16; masked = 2561 * 2 ^ 16; daddr = 0; nif = 2 }
      ∷ [])
    ≡ ok (1, false)
unfolding get_output_interface
hidden_route = refl
