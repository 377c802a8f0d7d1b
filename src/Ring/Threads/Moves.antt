-- ===== src/Ring/Threads/Moves.antt =====
-- Every step of a producer or of the consumer keeps what is known of the reservations.
use cmt_tcp.Prelude.{
  ℕ, ◌-◌, ◌^◌, add32, sub32, ◌+◌, ◌<◌, ◌≤◌, ◌≡◌, ◌≢◌, inl, inr, arith, Bool-cases, subst, ◌∙◌, sym,
  ap, ltb,
}
use cmt_tcp.Ring.Threads.{
  Local, idle, entered, headed, loaded, reserved, Shared, at, granted, Step, enter, read_head,
  read_tail, exchange, retry, publish, consume, put, put,
}
use cmt_tcp.Ring.Threads.Reserved.{at_cases, at_other, at_same, reserved_same, IsShared}

abbrev Unreserved : Local → Type 0
Unreserved (reserved h n) = ⊥
Unreserved _ = Unit

-- What is known of a producer outside its wait.
abbrev Fits : Shared → Local → Type 0
Fits s (headed want h) = h ≤ s.cons_tail + s.mask
Fits s (loaded want h c) = (h ≤ c + s.mask) × (c ≤ s.cons_tail)
Fits s (reserved h n) = ⊥
Fits s _ = Unit

module _ (s : Shared) (v : IsShared s) (t : ℕ) where
  Unreserved-other : Unreserved (s.threads t) → (u h n : ℕ) → s.threads u ≡ reserved h n → t ≢ u
  Unreserved-other free u h n e q =
      subst Unreserved e (subst (λ w. Unreserved (s.threads w)) q free)

  -- A producer that holds no reservation goes on without one.
  move-IsShared :
      (l : Local) → Unreserved (s.threads t) → Fits s l → IsShared (record s { threads = at s t l })
  move-IsShared l free fits = record {
    mask_word = v.mask_word;
    published = v.published;
    claimed = v.claimed;
    room = v.room;
    early = λ u want h e. elim (at_cases s t l u _ e) [
      | inl (q, x) ↦ subst (Fits s) x fits
      | inr (q, x) ↦ v.early u want h x
    ];
    stale = λ u want h c e. elim (at_cases s t l u _ e) [
      | inl (q, x) ↦ subst (Fits s) x fits
      | inr (q, x) ↦ v.stale u want h c x
    ];
    within = λ u h n e. elim (at_cases s t l u _ e) [
      | inl (q, x) ↦ absurd (subst (Fits s) x fits)
      | inr (q, x) ↦ v.within u h n x
    ];
    ahead = λ u h n e. elim (at_cases s t l u _ e) [
      | inl (q, x) ↦ absurd (subst (Fits s) x fits)
      | inr (q, x) ↦ v.ahead u h n x
    ];
    apart = λ a b h n k m other e f. elim (at_cases s t l a _ e) [
      | inl (q, x) ↦ absurd (subst (Fits s) x fits)
      | inr (q, x) ↦ elim (at_cases s t l b _ f) [
        | inl (p, y) ↦ absurd (subst (Fits s) y fits)
        | inr (p, y) ↦ v.apart a b h n k m other x y
      ]
    ];
    covered = λ i low high.
        let (u, h, n, e, from, to) = v.covered i low high in
        (u, h, n, at_other s t l u (Unreserved-other free u h n e) ∙ e, from, to);
  }

  -- The exchange reserves the places behind every other reservation.
  exchange-IsShared :
      (head n : ℕ)
      → Unreserved (s.threads t)
      → s.prod_head ≡ head
      → head + n ≤ s.cons_tail + s.mask
      → IsShared (record s { prod_head = head + n; threads = at s t (reserved head n) })
  exchange-IsShared head n free found fits = record {
    mask_word = v.mask_word;
    published = v.published;
    claimed = omega (arith, v.claimed, found);
    room = fits;
    early = λ u want h e. elim (at_cases s t _ u _ e) [
      | inl (q, x) ↦ cc
      | inr (q, x) ↦ v.early u want h x
    ];
    stale = λ u want h c e. elim (at_cases s t _ u _ e) [
      | inl (q, x) ↦ cc
      | inr (q, x) ↦ v.stale u want h c x
    ];
    within = λ u h m e. elim (at_cases s t _ u _ e) [
      | inl (q, x) ↦ let (a, b) = reserved_same head n h m x in omega (arith, a, b)
      | inr (q, x) ↦ omega (arith, v.within u h m x, found)
    ];
    ahead = λ u h m e some_left. elim (at_cases s t _ u _ e) [
      | inl (q, x) ↦ let (a, b) = reserved_same head n h m x in omega (arith, a, v.claimed, found)
      | inr (q, x) ↦ v.ahead u h m x some_left
    ];
    apart = λ a b h i k m other e f left_a left_b. elim (at_cases s t _ a _ e) [
      | inl (q, x) ↦ elim (at_cases s t _ b _ f) [
        | inl (p, y) ↦ absurd (other (sym q ∙ p))
        | inr (p, y) ↦
            let (c, d) = reserved_same head n h i x in
            inr (omega (arith, c, v.within b k m y, found))
      ]
      | inr (q, x) ↦ elim (at_cases s t _ b _ f) [
        | inl (p, y) ↦
            let (c, d) = reserved_same head n k m y in
            inl (omega (arith, c, v.within a h i x, found))
        | inr (p, y) ↦ v.apart a b h i k m other x y left_a left_b
      ]
    ];
    covered = λ i low high. elim (Bool-cases (ltb i head)) [
      | inl old ↦
          let before : i < s.prod_head = ground (arith, old, found) in
          let (u, h, m, e, from, to) = v.covered i low before in
          (u, h, m, at_other s t _ u (Unreserved-other free u h m e) ∙ e, from, to)
      | inr new ↦ (t, head, n, at_same s t _, ground (arith, new), high)
    ];
  }

  -- The publication of the reservation at the tail moves the tail to the next one.
  publish-IsShared :
      (head n : ℕ)
      → s.threads t ≡ reserved head n
      → s.prod_tail ≡ head
      → IsShared (record s { prod_tail = head + n; threads = at s t idle })
  publish-IsShared head n mine turn = record {
    mask_word = v.mask_word;
    published = omega (arith, v.published, turn);
    claimed = v.within t head n mine;
    room = v.room;
    early = λ u want h e. elim (at_cases s t _ u _ e) [
      | inl (q, x) ↦ cc
      | inr (q, x) ↦ v.early u want h x
    ];
    stale = λ u want h c e. elim (at_cases s t _ u _ e) [
      | inl (q, x) ↦ cc
      | inr (q, x) ↦ v.stale u want h c x
    ];
    within =
        λ u h m e. elim (at_cases s t _ u _ e) [ inl (q, x) ↦ cc | inr (q, x) ↦ v.within u h m x ];
    ahead = λ u h m e left_u. elim (at_cases s t _ u _ e) [
      | inl (q, x) ↦ cc
      | inr (q, x) ↦ next_ahead u h m q x left_u
    ];
    apart = λ a b h i k m other e f. elim (at_cases s t _ a _ e) [
      | inl (q, x) ↦ cc
      | inr (q, x) ↦ elim (at_cases s t _ b _ f) [
        | inl (p, y) ↦ cc
        | inr (p, y) ↦ v.apart a b h i k m other x y
      ]
    ];
    covered = λ i low high.
        let (u, h, m, e, from, to) = v.covered i (omega (arith, low, turn)) high in
        (u, h, m, at_other s t _ u (elsewhere i low u h m e to) ∙ e, from, to);
  }
    where
      next_ahead : (u h m : ℕ) → t ≢ u → s.threads u ≡ reserved h m → 0 < m → head + n ≤ h
      next_ahead u h m q x left_u = elim (Bool-cases (ltb 0 n)) [
        | inl some_left ↦
            let first = v.ahead u h m x left_u in
            elim (v.apart t u head n h m q mine x (ground (arith, some_left)) left_u) [
              | inl before ↦ before
              | inr after ↦ absurd (omega (arith, after, first, turn, left_u))
            ]
        | inr none_left ↦
            let no_places : n ≡ 0 = ground (arith, none_left) in
            omega (arith, no_places, v.ahead u h m x left_u, turn)
      ]

      elsewhere :
          (i : ℕ) → head + n ≤ i → (u h m : ℕ) → s.threads u ≡ reserved h m → i < h + m → t ≢ u
      elsewhere i low u h m e to q =
          let (a, b) = reserved_same head n h m (sym mine ∙ ap s.threads q ∙ e) in
          omega (arith, a, b, low, to)

consume-IsShared :
    (s : Shared) (n : ℕ)
    → IsShared s
    → s.cons_tail + n ≤ s.prod_tail
    → IsShared (record s { cons_tail = s.cons_tail + n })
consume-IsShared s n v left = record {
  mask_word = v.mask_word;
  published = left;
  claimed = v.claimed;
  room = omega (arith, v.room);
  early = λ t want h e. omega (arith, v.early t want h e);
  stale = λ t want h c e. let (a, b) = v.stale t want h c e in (a, omega (arith, b));
  within = v.within;
  ahead = v.ahead;
  apart = v.apart;
  covered = v.covered;
}

-- As long as the head does not wrap round.
pub Step-IsShared :
    {s u : Shared} (st : Step s u)
    → IsShared s
    → s.prod_head + put st < 2 ^ 32
    → IsShared u × (u.prod_head ≡ s.prod_head + put st)
Step-IsShared (enter s t want e) v word =
    (move-IsShared s v t (entered want) (subst Unreserved (sym e) tt) tt, omega arith)
Step-IsShared (read_head s t want e) v word = (
  move-IsShared s v t (headed want s.prod_head) (subst Unreserved (sym e) tt) v.room,
  omega arith,
)
Step-IsShared (read_tail s t want head e) v word = (
  move-IsShared s v t (loaded want head s.cons_tail) (subst Unreserved (sym e) tt)
      (v.early t want head e, omega arith),
  omega arith,
)
Step-IsShared (exchange s t want head cons e found) v word =
    let n = granted s want head cons in
    let (room, old) = v.stale t want head cons e in
    let free : sub32 (s.mask + cons) head ≡ s.mask + cons - head =
      omega (arith, room, old, found, word, v.published, v.claimed, v.mask_word) in
    let plain : add32 head n ≡ head + n = omega (arith, found, word) in
    (
      subst (λ k. IsShared (record s { prod_head = k; threads = at s t (reserved head n) }))
          (sym plain)
          (exchange-IsShared s v t head n (subst Unreserved (sym e) tt) found
            (omega (arith, room, old, free))),
      omega (arith, plain, found),
    )
Step-IsShared (retry s t want head cons e lost) v word =
    (move-IsShared s v t (entered want) (subst Unreserved (sym e) tt) tt, omega arith)
Step-IsShared (publish s t head n e turn) v word =
    let plain : add32 head n ≡ head + n = omega (arith, v.within t head n e, word) in
    (
      subst (λ k. IsShared (record s { prod_tail = k; threads = at s t idle })) (sym plain)
          (publish-IsShared s v t head n e turn),
      omega arith,
    )
Step-IsShared (consume s n left) v word =
    let plain : add32 s.cons_tail n ≡ s.cons_tail + n =
      omega (arith, left, v.published, v.claimed, word) in
    (
      subst (λ k. IsShared (record s { cons_tail = k })) (sym plain)
          (consume-IsShared s n v (omega (arith, left, v.published, v.claimed, word))),
      omega arith,
    )
