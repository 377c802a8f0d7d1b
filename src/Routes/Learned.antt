-- ===== src/Routes/Learned.antt =====
-- An address that is registered is found afterwards, and the others as before.
use cmt_tcp.Prelude.{
  and_ones, ℕ, ◌^◌, ◌<◌, ◌≡◌, ◌≢◌, refl, true, false, not, ◌&&◌, Option, none, some, List, [], ◌∷◌,
  ◌++◌, ltb, ◌==◌, bit_and, arith, length, Bool-cases, ==_refl, inl, inr,
}
use cmt_tcp.Run.{ok, pure, branch, gets, modify, ◌>>=◌}
use cmt_tcp.Routes.{
  ArpEntry, Config, is_exact, improves, longest_match, get_destination_hw_addr, learned_entry,
  max_arpentry, learn, register_arp_entry, process_arp_request,
}

longest_match-some :
    (dip : ℕ) (es : List ArpEntry) (p d : ℕ) → longest_match dip es p (some d) ≢ none
unfolding longest_match
longest_match-some dip [] p d = λ e. cc
longest_match-some dip (x ∷ es) p d = elim (Bool-cases (is_exact dip x)) [
  | inl hit ↦ rw hit (λ e. cc)
  | inr miss ↦ elim (Bool-cases (improves dip p x)) [
    | inl better ↦ rw (miss, better) (longest_match-some dip es x.prefix x.haddr)
    | inr same ↦ rw (miss, same) (longest_match-some dip es p d)
  ]
]

-- The entry of an address that no entry was found for is found.
longest_match-learned :
    (ip haddr : ℕ) (es : List ArpEntry) (p : ℕ)
    → ip < 2 ^ 32
    → p < 32
    → longest_match ip es p none ≡ none
    → longest_match ip (es ++ learned_entry ip haddr ∷ []) p none ≡ some haddr
unfolding longest_match is_exact improves
longest_match-learned ip haddr [] p small short = λ e.
    let fits : ltb p 32 ≡ true = ground arith in rw (and_ones 32 ip small, ==_refl ip, fits) refl
longest_match-learned ip haddr (x ∷ es) p small short =
    elim (Bool-cases ((x.prefix == 1) && (x.ip == ip))) [
      | inl hit ↦ rw hit (λ e. cc)
      | inr miss ↦
          elim (Bool-cases
            (not (x.prefix == 1) && ((bit_and ip x.ip_mask == x.ip_masked) && ltb p x.prefix))) [
              | inl better ↦
                  rw (miss, better) (λ e. absurd (longest_match-some ip es x.prefix x.haddr e))
              | inr same ↦ rw (miss, same) (longest_match-learned ip haddr es p small short)
            ]
    ]

-- It is not found for another address.
longest_match-other :
    (dip ip haddr : ℕ) (es : List ArpEntry) (p : ℕ) (d : Option ℕ)
    → dip < 2 ^ 32
    → dip ≢ ip
    → longest_match dip (es ++ learned_entry ip haddr ∷ []) p d ≡ longest_match dip es p d
unfolding longest_match is_exact improves
longest_match-other dip ip haddr [] p d small other =
    let apart : (dip == ip) ≡ false = ground (arith, other) in
    rw (and_ones 32 dip small, apart) refl
longest_match-other dip ip haddr (x ∷ es) p d small other =
    let rest = longest_match-other dip ip haddr es in
    elim (Bool-cases ((x.prefix == 1) && (x.ip == dip))) [
      | inl hit ↦ rw hit refl
      | inr miss ↦ rw miss (rest _ _ small other)
    ]

abbrev pub Learns : ℕ → ℕ → Config → Config → Type 0
Learns sip sha c c' =
    (process_arp_request sip sha c ≡ ok (0, c'))
    × ((h : ℕ) × (get_destination_hw_addr sip false c' ≡ some h)
        × (get_destination_hw_addr sip false c ≡ none → h ≡ sha))
    × ((dip : ℕ)
        → dip < 2 ^ 32
        → dip ≢ sip
        → get_destination_hw_addr dip false c' ≡ get_destination_hw_addr dip false c)

module _ (sip sha : ℕ) (c : Config) (small : sip < 2 ^ 32)
    (room : length c.entry < max_arpentry) where
  outcome :
      (o : Option ℕ) → get_destination_hw_addr sip false c ≡ o → (c' : Config) × Learns sip sha c c'
  unfolding get_destination_hw_addr process_arp_request register_arp_entry learn pure branch gets
      modify ◌>>=◌
  outcome none e =
      let left : ltb (length c.entry) max_arpentry ≡ true = ground (arith, room) in
      (
        learn sip sha c,
        (
          rw (e, left) refl,
          (sha, longest_match-learned sip sha c.entry 0 small (omega arith) e, λ q. refl),
          λ dip fits other. longest_match-other dip sip sha c.entry 0 none fits other,
        ),
      )
  outcome (some h) e = (c, (rw e refl, (h, e, λ q. cc), λ dip fits other. refl))

  -- A request from an address of 32 bits, for a table with room: afterwards the sender's hardware
  -- address is found, which is the one of the request if none was before, and those of the other
  -- addresses are as before.
  pub process_arp_request-Learns : (c' : Config) × Learns sip sha c c'
  process_arp_request-Learns = outcome (get_destination_hw_addr sip false c) refl
