-- ===== src/Routes/Longest.antt =====
-- The entry that an address is looked up at has the longest prefix.
use cmt_tcp.Prelude.{
  ℕ, ◌<◌, ◌≤◌, ◌≡◌, ◌≢◌, refl, sym, subst, ◌⊎◌, true, false, Option, none, some, List, [], ◌∷◌,
  bit_and, arith, Bool-cases, inl, inr,
}
use cmt_tcp.Routes.{ArpEntry, Config, is_exact, improves, longest_match, get_destination_hw_addr}

abbrev pub In : ArpEntry → List ArpEntry → Type 0
In e [] = ⊥
In e (x ∷ xs) = (e ≡ x) ⊎ In e xs

abbrev pub Matches : ℕ → ArpEntry → Type 0
Matches dip e = bit_and dip e.ip_mask ≡ e.ip_masked

-- No matching entry of the table has a longer prefix than `p`.
abbrev pub NoLonger : ℕ → List ArpEntry → ℕ → Type 0
NoLonger dip es p = (e : ArpEntry) → In e es → Matches dip e → e.prefix ≤ p

abbrev pub Best : ℕ → List ArpEntry → ArpEntry → Type 0
Best dip es e = In e es × Matches dip e × NoLonger dip es e.prefix

-- What the loop leaves that has found nothing longer than `p` so far.
abbrev Rest : ℕ → List ArpEntry → ℕ → Option ℕ → Type 0
Rest dip es p d =
    ((longest_match dip es p d ≡ d) × NoLonger dip es p)
    ⊎ ((e : ArpEntry) × (longest_match dip es p d ≡ some e.haddr) × (p < e.prefix) × Best dip es e)

inexact : (dip : ℕ) (e : ArpEntry) → e.prefix ≢ 1 → is_exact dip e ≡ false
unfolding is_exact
inexact dip e other = ground (arith, other)

improved : (dip p : ℕ) (e : ArpEntry) → improves dip p e ≡ true → Matches dip e × (p < e.prefix)
unfolding improves
improved dip p e h = ground (arith, h)

not_improved :
    (dip p : ℕ) (e : ArpEntry)
    → e.prefix ≢ 1
    → improves dip p e ≡ false
    → Matches dip e
    → e.prefix ≤ p
unfolding improves
not_improved dip p e other h fits = ground (arith, other, h, fits)

-- No entry is compared exactly.
abbrev pub NoExact : List ArpEntry → Type 0
NoExact es = (e : ArpEntry) → In e es → e.prefix ≢ 1

here_or :
    (dip p : ℕ) (x : ArpEntry) (es : List ArpEntry)
    → (Matches dip x → x.prefix ≤ p)
    → NoLonger dip es p
    → NoLonger dip (x ∷ es) p
here_or dip p x es first rest e (inl q) fits =
    subst (λ w. w.prefix ≤ p) (sym q) (first (subst (Matches dip) q fits))
here_or dip p x es first rest e (inr member) fits = rest e member fits

scan : (dip : ℕ) (es : List ArpEntry) (p : ℕ) (d : Option ℕ) → NoExact es → Rest dip es p d
unfolding longest_match
scan dip [] p d plain = inl (refl, λ e member. absurd member)
scan dip (x ∷ es) p d plain =
    let inexact_here = inexact dip x (plain x (inl refl)) in
    let plain_rest : NoExact es = λ e member. plain e (inr member) in
    elim (Bool-cases (improves dip p x)) [
      | inl better ↦
          let (fits, longer) = improved dip p x better in
          elim (scan dip es x.prefix (some x.haddr) plain_rest) [
            | inl (same, none_longer) ↦ inr (
              x,
              rw (inexact_here, better) same,
              longer,
              (inl refl, fits, here_or dip x.prefix x es (λ f. omega arith) none_longer),
            )
            | inr (e, found, more, (member, e_fits, none_longer)) ↦ inr (
              e,
              rw (inexact_here, better) found,
              omega (arith, longer, more),
              (
                inr member,
                e_fits,
                here_or dip e.prefix x es (λ f. omega (arith, more)) none_longer,
              ),
            )
          ]
      | inr worse ↦
          let short = not_improved dip p x (plain x (inl refl)) worse in
          elim (scan dip es p d plain_rest) [
            | inl (same, none_longer) ↦
                inl (rw (inexact_here, worse) same, here_or dip p x es short none_longer)
            | inr (e, found, more, (member, e_fits, none_longer)) ↦ inr (
              e,
              rw (inexact_here, worse) found,
              more,
              (
                inr member,
                e_fits,
                here_or dip e.prefix x es (λ f. omega (arith, more, short f)) none_longer,
              ),
            )
          ]
    ]

-- In a table without entries of prefix 1, which are compared exactly, an address is looked up at a
-- matching entry with the longest prefix of all that match, and nothing is found only if every
-- entry that matches has prefix 0.
pub get_destination_hw_addr-Best :
    (dip : ℕ) (c : Config)
    → NoExact c.entry
    → ((e : ArpEntry) × (get_destination_hw_addr dip false c ≡ some e.haddr) × Best dip c.entry e)
      ⊎ ((get_destination_hw_addr dip false c ≡ none) × NoLonger dip c.entry 0)
unfolding get_destination_hw_addr
get_destination_hw_addr-Best dip c plain = elim (scan dip c.entry 0 none plain) [
  | inl empty ↦ inr empty
  | inr (e, found, more, best) ↦ inl (e, found, best)
]
