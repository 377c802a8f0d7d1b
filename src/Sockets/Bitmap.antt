-- ===== src/Sockets/Bitmap.antt =====
-- The bit map of src/socket.c as a set of numbers.
use native.Mathlib.Nat.{mod-lt}
use cmt_tcp.Prelude.{
  ℕ, zero, suc, ◌/◌, ◌%◌, ◌^◌, ◌<◌, ◌≡◌, refl, sym, ◌∙◌, Bool, true, false, not, ◌&&◌, ltb, ◌==◌,
  if◌then◌else◌, Bool-cases, inl, inr, arith,
}
use cmt_tcp.Sockets.{store, set_bit, clear_bit, use_id, unuse_id}

-- Over a small range, check every value by evaluation.
unfoldable pub all_below : ℕ → (ℕ → Bool) → Bool
all_below zero p = true
all_below (suc n) p = let rest = all_below n p in p n && rest

pub all_below-holds : (n : ℕ) (p : ℕ → Bool) (x : ℕ) → all_below n p ≡ true → x < n → p x ≡ true
unfolding all_below
all_below-holds zero p x h lt = absurd (omega arith)
all_below-holds (suc n) p x h lt = ground (arith, all_below-holds n p x)

abbrev pub bit : ℕ → ℕ → Bool
bit b j = (b / 2 ^ j) % 2 == 1

-- The number `idx` is taken.
abbrev pub taken : (ℕ → ℕ) → ℕ → Bool
taken fds idx = bit (fds (idx / 8)) (idx % 8)

abbrev same : Bool → Bool → Bool
same true b = b
same false b = not b

same-eq : (a b : Bool) → same a b ≡ true → a ≡ b
same-eq true true h = refl
same-eq false false h = refl
same-eq true false h = sym h
same-eq false true h = h

table :
    all_below 256 (λ b. all_below 8 (λ j. all_below 8 (λ k.
      same (bit (set_bit b j) k) (if k == j then true else bit b k)
      && same (bit (clear_bit b j) k) (if k == j then false else bit b k))))
    ≡ true
unfolding all_below set_bit clear_bit
table = refl

looked_up :
    (b j k : ℕ)
    → b < 256
    → j < 8
    → k < 8
    → (same (bit (set_bit b j) k) (if k == j then true else bit b k)
        && same (bit (clear_bit b j) k) (if k == j then false else bit b k))
      ≡ true
looked_up b j k hb hj hk =
    all_below-holds 8 _ k (all_below-holds 8 _ j (all_below-holds 256 _ b table hb) hj) hk

pub and_true : (a b : Bool) → (a && b) ≡ true → (a ≡ true) × (b ≡ true)
and_true true b h = (refl, h)
and_true false b h = absurd (cc)

bits_after :
    (b j k : ℕ)
    → b < 256
    → j < 8
    → k < 8
    → (bit (set_bit b j) k ≡ (if k == j then true else bit b k))
      × (bit (clear_bit b j) k ≡ (if k == j then false else bit b k))
bits_after b j k hb hj hk =
    let (p, q) = and_true _ _ (looked_up b j k hb hj hk) in (same-eq _ _ p, same-eq _ _ q)

bytes :
    all_below 256 (λ b. all_below 8 (λ j. ltb (set_bit b j) 256 && ltb (clear_bit b j) 256)) ≡ true
unfolding all_below set_bit clear_bit
bytes = refl

byte_after : (b j : ℕ) → b < 256 → j < 8 → (set_bit b j < 256) × (clear_bit b j < 256)
byte_after b j hb hj =
    let (p, q) =
      and_true (ltb (set_bit b j) 256) (ltb (clear_bit b j) 256)
        (all_below-holds 8 _ j (all_below-holds 256 _ b bytes hb) hj) in
    (ground (arith, p), ground (arith, q))

abbrev pub IsBytes : (ℕ → ℕ) → Type 0
IsBytes fds = (i : ℕ) → fds i < 256

-- `other` is the map but for the number `idx`, which is taken there as `now` says.
abbrev pub Differs : (ℕ → ℕ) → ℕ → Bool → (ℕ → ℕ) → Type 0
Differs fds idx now other =
    IsBytes other × ((k : ℕ) → taken other k ≡ (if k == idx then now else taken fds k))

module _ (fds : ℕ → ℕ) (idx : ℕ) (v : IsBytes fds) where
  stored :
      (byte : ℕ) (now : Bool)
      → byte < 256
      → ((k : ℕ) → k < 8 → bit byte k ≡ (if k == idx % 8 then now else bit (fds (idx / 8)) k))
      → Differs fds idx now (store fds (idx / 8) byte)
  stored byte now small bits = (
    λ i. ground (arith, small, v i),
    λ k. elim (Bool-cases (k / 8 == idx / 8)) [
      | inl together ↦
          let e : k / 8 ≡ idx / 8 = ground (arith, together) in
          let here : (k % 8 == idx % 8) ≡ (k == idx) = ground (arith, e) in
          rw together (bits (k % 8) (mod-lt k (omega arith)) ∙ rw (here, e) refl)
      | inr apart ↦ let other : (k == idx) ≡ false = ground (arith, apart) in rw (apart, other) refl
    ],
  )

  -- In a map of bytes, using a number takes it and unusing it frees it, and neither changes whether
  -- another number is taken; the map stays one of bytes.
  pub taken_after : Differs fds idx true (use_id fds idx) × Differs fds idx false (unuse_id fds idx)
  unfolding use_id unuse_id
  taken_after =
      let j_small = mod-lt idx (omega arith) in
      let (s, c) = byte_after (fds (idx / 8)) (idx % 8) (v (idx / 8)) j_small in
      let bits = λ (k : ℕ) (small : k < 8).
        bits_after (fds (idx / 8)) (idx % 8) k (v (idx / 8)) j_small small in
      (
        stored _ true s (λ k small. (bits k small).0),
        stored _ false c (λ k small. (bits k small).1),
      )
