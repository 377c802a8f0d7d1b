-- ===== src/Options/Parsed.antt =====
-- Where the loop of `cmt_tcp_parse_options` of src/tcp.c ends, and where it does not.
use cmt_tcp.Prelude.{
  ℕ, zero, suc, ◌+◌, ◌-◌, ◌<◌, ◌≤◌, ◌≡◌, ◌≢◌, refl, ap, sym, subst, if◌then◌else◌, ◌∙◌, ◌⊎◌, Bool,
  true, false, ◌||◌, none, arith, leb, ◌==◌,
}
use cmt_tcp.Stream.{Stream}
use cmt_tcp.Options.{parse_option, parse_options}

-- The kinds that the parser knows.
abbrev pub known_kind : ℕ → Bool
known_kind k = leb k 4 || (k == 8)

-- Where the next option begins behind one at `i`.
abbrev pub option_end : ℕ → ℕ → ℕ → ℕ
option_end opt optlen i =
    if opt == 2
    then i + 4
    else if opt == 3
    then i + 3
    else if opt == 4
    then i + 2
    else if opt == 8
    then i + 10
    else i + optlen

module _ (mem : ℕ → ℕ) (len : ℕ) where
  -- The options one after the other, as long as they fit: where their kinds stand.
  pub data OptionAt : ℕ → Type 0 where
    first : OptionAt 0
    behind_nop : {i : ℕ} → OptionAt i → i < len → mem i ≡ 1 → OptionAt (i + 1)
    behind :
        {i : ℕ}
        → OptionAt i
        → i < len
        → 1 < mem i
        → i + mem (i + 1) ≤ len
        → OptionAt (option_end (mem i) (mem (i + 1)) i)

  -- No option of an unknown kind says length 0.
  pub record Sized : Type 0 where
    pub at : (i : ℕ) → OptionAt i → i < len → (known_kind (mem i) ≡ true) ⊎ (0 < mem (i + 1))

module _ (mem : ℕ → ℕ) (len cur_ts : ℕ) where
  parse_option_advances :
      (opt optlen i : ℕ) (s : Stream)
      → 1 < opt
      → (known_kind opt ≡ true) ⊎ (0 < optlen)
      → i < (parse_option mem len cur_ts opt optlen (i + 2) s).1
  unfolding parse_option
  parse_option_advances opt optlen i s h k = ground arith

  parse_option_stays :
      (opt i : ℕ) (s : Stream)
      → known_kind opt ≡ false
      → (parse_option mem len cur_ts opt 0 (i + 2) s).1 ≡ i
  unfolding parse_option
  parse_option_stays opt i s h = ground arith

  parse_option-end :
      (opt optlen i : ℕ) (s : Stream)
      → (parse_option mem len cur_ts opt optlen (i + 2) s).1 ≡ option_end opt optlen i
  unfolding parse_option
  parse_option-end opt optlen i s = ground arith

  -- When no option of an unknown kind says length 0, and the fuel exceeds the bytes left, the
  -- option parser returns.
  pub parse_options_returns :
      Sized mem len
      → (fuel i : ℕ) (s : Stream) → OptionAt mem len i
      → len - i < fuel
      → parse_options mem len fuel cur_ts i s ≢ none
  unfolding parse_options
  parse_options_returns sized zero i s here enough = absurd (omega arith)
  parse_options_returns sized (suc fuel) i s here enough =
      let (s', i') = parse_option mem len cur_ts (mem i) (mem (i + 1)) (i + 2) s in
      let ends : i' ≡ option_end (mem i) (mem (i + 1)) i =
        parse_option-end (mem i) (mem (i + 1)) i s in
      ground (
        arith,
        λ (h : 1 < mem i) (k : i < len).
            parse_option_advances (mem i) (mem (i + 1)) i s h (sized.at i here k),
        λ (h : mem i ≡ 1) (k : i < len).
            parse_options_returns sized fuel (i + 1) s (behind_nop here k h),
        λ (h : 1 < mem i) (k : i < len) (m : i + mem (i + 1) ≤ len).
            parse_options_returns sized fuel i' s'
              (subst (OptionAt mem len) (sym ends) (behind here k h m)),
      )

  -- When no byte of an unknown kind is followed by a 0, and the fuel exceeds the bytes left, the
  -- option parser returns.
  pub parse_options_ends :
      ((j : ℕ) → (known_kind (mem j) ≡ true) ⊎ (0 < mem (j + 1)))
      → (fuel i : ℕ) (s : Stream) → len - i < fuel
      → parse_options mem len fuel cur_ts i s ≢ none
  unfolding parse_options
  parse_options_ends sized zero i s enough = absurd (omega arith)
  parse_options_ends sized (suc fuel) i s enough =
      let (s', i') = parse_option mem len cur_ts (mem i) (mem (i + 1)) (i + 2) s in
      ground (
        arith,
        λ (h : 1 < mem i). parse_option_advances (mem i) (mem (i + 1)) i s h (sized i),
        parse_options_ends sized fuel (i + 1) s,
        parse_options_ends sized fuel i' s',
      )

  -- At an option of an unknown kind whose length byte is 0 the option parser never returns: it
  -- comes back to the same byte, whatever the fuel.
  pub parse_options_hangs :
      (fuel i : ℕ) (s : Stream)
      → i < len
      → known_kind (mem i) ≡ false
      → mem (i + 1) ≡ 0
      → parse_options mem len fuel cur_ts i s ≡ none
  unfolding parse_options
  parse_options_hangs zero i s inside unknown empty = refl
  parse_options_hangs (suc fuel) i s inside unknown empty =
      let (s', i') = parse_option mem len cur_ts (mem i) 0 (i + 2) s in
      let same : i' ≡ i = parse_option_stays (mem i) i s unknown in
      let here : parse_options mem len fuel cur_ts i' s' ≡ none =
        ap (λ k. parse_options mem len fuel cur_ts k s') same
        ∙ parse_options_hangs fuel i s' inside unknown empty in
      rw empty (ground (arith, here))
