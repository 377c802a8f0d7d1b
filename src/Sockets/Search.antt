-- ===== src/Sockets/Search.antt =====
-- What the search for a free number of src/socket.c finds.
use cmt_tcp.Prelude.{
  ℕ, zero, suc, ◌+◌, ◌-◌, ◌*◌, ◌/◌, ◌%◌, ◌<◌, ◌≤◌, ◌≡◌, ◌≢◌, refl, ap, sym, ◌∙◌, ◌⊎◌, true, false,
  not, ◌&&◌, ◌||◌, ltb, ◌==◌, Option, none, some, Bool-cases, Option-cases, inl, inr, arith, subst,
}
use cmt_tcp.Sockets.{first_open, magnitude, low_ones, find_word, find_byte, find_id}
use cmt_tcp.Sockets.Bitmap.{all_below, all_below-holds, bit, taken, and_true}

module _ (fds : ℕ → ℕ) where
  abbrev pub Full : ℕ → ℕ → Type 0
  Full low high = (i : ℕ) → low ≤ i → i < high → fds i ≡ 255

  -- The first byte from `i` on, below `i + n`, that is not full.
  abbrev pub FirstOpen : ℕ → ℕ → Option ℕ → Type 0
  FirstOpen n i none = Full i (i + n)
  FirstOpen n i (some k) = (i ≤ k) × (k < i + n) × (fds k ≢ 255) × Full i k

  widen : (n i : ℕ) → fds i ≡ 255 → (o : Option ℕ) → FirstOpen n (i + 1) o → FirstOpen (suc n) i o
  widen n i full none rest = λ j low high. elim (Bool-cases (j == i)) [
    | inl e ↦ ap fds (ground (arith, e)) ∙ full
    | inr e ↦ rest j (ground (arith, low, e)) (omega (arith, high))
  ]
  widen n i full (some k) (low, high, not_full, before) = (
    omega (arith, low),
    omega (arith, high),
    not_full,
    λ j from to. elim (Bool-cases (j == i)) [
      | inl e ↦ ap fds (ground (arith, e)) ∙ full
      | inr e ↦ before j (ground (arith, from, e)) to
    ],
  )

  first_open_lem : (n i : ℕ) → FirstOpen n i (first_open fds n i)
  unfolding first_open
  first_open_lem zero i = λ j low high. absurd (omega (arith, low, high))
  first_open_lem (suc n) i = elim (Bool-cases (fds i == 255)) [
    | inl full ↦ rw full (widen n i (ground (arith, full)) _ (first_open_lem n (i + 1)))
    | inr other ↦ rw other (
      omega arith,
      omega arith,
      ground (arith, other),
      λ j low high. absurd (omega (arith, low, high)),
    )
  ]

  -- No word is looked into where the bytes that are asked for are 0.
  find_word-none :
      (ctz : ℕ → ℕ) (start n i : ℕ)
      → ((j : ℕ) → i ≤ j → j < i + n → fds j ≡ 0)
      → find_word ctz fds start n i ≡ none
  unfolding find_word
  find_word-none ctz start zero i empty = refl
  find_word-none ctz start (suc n) i empty =
      let here : (fds i == 0) ≡ true = ground (arith, empty i (omega arith) (omega arith)) in
      rw here (
        find_word-none ctz start n (i + 1)
          (λ j low high. empty j (omega (arith, low)) (omega (arith, high))))

-- In a byte below 128 the number of low ones is the place of the lowest zero.
lowest :
    all_below 128 (λ b.
      ltb (low_ones 8 b) 8
      && (not (bit b (low_ones 8 b)) && all_below (low_ones 8 b) (λ k. bit b k)))
    ≡ true
unfolding all_below low_ones
lowest = refl

-- In another one that ends in two ones, the search for it stops at the second.
confused :
    all_below 256 (λ b.
      ltb b 128
      || (not (b % 4 == 3) || ((b == 255) || ((low_ones 8 (magnitude b) == 1) && bit b 1))))
    ≡ true
unfolding all_below low_ones magnitude
confused = refl

full_bits : all_below 8 (bit 255) ≡ true
unfolding all_below
full_bits = refl

at_lowest :
    (b : ℕ)
    → b < 128
    → (low_ones 8 b < 8)
      × ((bit b (low_ones 8 b) ≡ false) × ((i : ℕ) → i < low_ones 8 b → bit b i ≡ true))
at_lowest b small =
    let (p, q) = and_true (ltb (low_ones 8 b) 8) _ (all_below-holds 128 _ b lowest small) in
    let (r, s) =
      and_true (not (bit b (low_ones 8 b))) (all_below (low_ones 8 b) (λ k. bit b k)) q in
    (ground (arith, p), (ground (arith, r), λ i lt. all_below-holds (low_ones 8 b) (bit b) i s lt))

at_second :
    (b : ℕ) → 128 ≤ b → b < 255 → b % 4 ≡ 3 → (low_ones 8 (magnitude b) ≡ 1) × (bit b 1 ≡ true)
at_second b negative small twos =
    let line = all_below-holds 256 _ b confused (omega arith) in
    let not_small : ltb b 128 ≡ false = ground arith in
    let ends : (b % 4 == 3) ≡ true = ground arith in
    let not_full : (b == 255) ≡ false = ground arith in
    let (p, q) =
      and_true (low_ones 8 (magnitude b) == 1) (bit b 1) (rw (not_small, ends, not_full) at line) in
    (ground (arith, p), q)

only :
    (fds : ℕ → ℕ) (n i k : ℕ)
    → i ≤ k
    → k < i + n
    → Full fds i k
    → fds k ≢ 255
    → (o : Option ℕ) → FirstOpen fds n i o
    → o ≡ some k
only fds n i k low high before not_full none full = absurd (not_full (full k low high))
only fds n i k low high before not_full (some j) (j_low, j_high, j_not_full, j_before) =
    elim (Bool-cases (ltb j k)) [
      | inl less ↦ absurd (j_not_full (before j j_low (ground (arith, less))))
      | inr other ↦ elim (Bool-cases (ltb k j)) [
        | inl more ↦ absurd (not_full (j_before k low (ground (arith, more))))
        | inr no_more ↦ ap (λ w. some w) (ground (arith, other, no_more))
      ]
    ]

module _ (ctz : ℕ → ℕ) (fds : ℕ → ℕ) (start max_fds : ℕ) where
  -- The answer is the lowest number from `start * 8` on, below `max_fds * 8`, that is not taken.
  abbrev pub Lowest : Option ℕ → Type 0
  Lowest none = (id : ℕ) → start * 8 ≤ id → id < max_fds * 8 → taken fds id ≡ true
  Lowest (some id) =
      (start * 8 ≤ id)
      × (id < max_fds * 8)
      × (taken fds id ≡ false)
      × ((other : ℕ) → start * 8 ≤ other → other < id → taken fds other ≡ true)

  full_taken : (id : ℕ) → fds (id / 8) ≡ 255 → taken fds id ≡ true
  full_taken id full =
      ap (λ b. bit b (id % 8)) full ∙ all_below-holds 8 (bit 255) (id % 8) full_bits (omega arith)

  abbrev found : Option ℕ → Option ℕ
  found none = none
  found (some k) = some (k * 8 + low_ones 8 (magnitude (fds k)))

  abbrev len : ℕ
  len = (max_fds - start) / 8

  -- Where no word is looked into, the bytes behind the words are searched.
  find_id-found :
      ((j : ℕ) → 0 ≤ j → j < 0 + len → fds j ≡ 0)
      → find_id ctz fds start max_fds
        ≡ found (first_open fds (max_fds - (len * 8 + start)) (len * 8 + start))
  unfolding find_id find_byte
  find_id-found empty =
      elim (Option-cases (first_open fds (max_fds - (len * 8 + start)) (len * 8 + start))) [
        | inl e ↦ rw (find_word-none fds ctz start len 0 empty, find_id, find_byte, e) refl
        | inr (k, e) ↦ rw (find_word-none fds ctz start len 0 empty, find_id, find_byte, e) refl
      ]

  module _ (few : max_fds < start + 8) where
    Lowest-in :
        (o : Option ℕ)
        → FirstOpen fds (max_fds - start) start o
        → ((i : ℕ) → start ≤ i → i < max_fds → (fds i < 128) ⊎ (fds i ≡ 255))
        → Lowest (found o)
    unfolding magnitude
    Lowest-in none full plain =
        λ id low high. full_taken id (full (id / 8) (omega (arith, low)) (omega (arith, high)))
    Lowest-in (some k) (low, high, not_full, before) plain =
        elim (plain k low (omega (arith, high))) [
          | inr e ↦ absurd (not_full e)
          | inl small ↦
              let b = fds k in
              let m : ltb b 128 ≡ true = ground (arith, small) in
              let j = low_ones 8 b in
              let j_small : j < 8 = (at_lowest b small).0 in
              let bit_free : bit b j ≡ false = (at_lowest b small).1.0 in
              let below : (i : ℕ) → i < j → bit b i ≡ true = (at_lowest b small).1.1 in
              let byte : (k * 8 + j) / 8 ≡ k = omega (arith, j_small) in
              let place : (k * 8 + j) % 8 ≡ j = omega (arith, j_small) in
              rw m (
                omega (arith, low),
                omega (arith, high, j_small),
                rw (byte, place) bit_free,
                λ other from to. elim (Bool-cases (ltb other (k * 8))) [
                  | inl under ↦
                      full_taken other
                        (before (other / 8) (omega (arith, from)) (ground (arith, under)))
                  | inr inside ↦
                      let o_byte : other / 8 ≡ k = ground (arith, inside, to, j_small) in
                      let o_place : other % 8 < j = ground (arith, inside, to, j_small) in
                      rw o_byte (below (other % 8) o_place)
                ],
              )
        ]

    -- Where fewer than eight bytes are searched and each of them is full or has its highest number
    -- free, the search finds the lowest number that is not taken, and nothing only if all are.
    pub find_id-Lowest :
        ((i : ℕ) → start ≤ i → i < max_fds → (fds i < 128) ⊎ (fds i ≡ 255))
        → Lowest (find_id ctz fds start max_fds)
    find_id-Lowest plain =
        let no_word : (max_fds - start) / 8 * 8 + start ≡ start = omega arith in
        let whole : find_id ctz fds start max_fds ≡ found (first_open fds (max_fds - start) start) =
          rw no_word at find_id-found (λ j low high. absurd (omega (arith, high))) in
        subst Lowest (sym whole) (Lowest-in _ (first_open_lem fds (max_fds - start) start) plain)

    -- Where fewer than eight bytes are searched and the first that is not full has its highest and
    -- its two lowest numbers taken, the search gives the second of these, which is taken.
    pub find_id-taken :
        (k : ℕ)
        → start ≤ k
        → k < max_fds
        → Full fds start k
        → 128 ≤ fds k
        → fds k < 255
        → fds k % 4 ≡ 3
        → (find_id ctz fds start max_fds ≡ some (k * 8 + 1)) × (taken fds (k * 8 + 1) ≡ true)
    find_id-taken k low high before negative not_full twos =
        let at_start : len * 8 + start ≡ start = omega arith in
        let whole : find_id ctz fds start max_fds ≡ found (first_open fds (max_fds - start) start) =
          rw at_start at find_id-found (λ j l h. absurd (omega (arith, h))) in
        let first =
          only fds (max_fds - start) start k low (omega (arith, high)) before
            (λ e. omega (arith, e, not_full)) _ (first_open_lem fds (max_fds - start) start) in
        let (stops, here) = at_second (fds k) negative not_full twos in
        let byte : (k * 8 + 1) / 8 ≡ k = omega arith in
        let place : (k * 8 + 1) % 8 ≡ 1 = omega arith in
        (whole ∙ ap found first ∙ ap (λ j. some (k * 8 + j)) stops, rw (byte, place) here)

  -- Where the bytes from `start` on make up whole words and the bytes that are asked for are 0, as
  -- in a map in which no number is taken, the search finds nothing.
  pub find_id_empty :
      start ≤ max_fds
      → (max_fds - start) % 8 ≡ 0
      → ((j : ℕ) → j < (max_fds - start) / 8 → fds j ≡ 0)
      → find_id ctz fds start max_fds ≡ none
  unfolding first_open
  find_id_empty order words empty =
      let at_end : max_fds - ((max_fds - start) / 8 * 8 + start) ≡ 0 = omega arith in
      rw at_end at find_id-found (λ j low high. empty j (omega (arith, high)))
