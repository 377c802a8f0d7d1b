-- ===== src/Ring/Threads/Reserved.antt =====
-- What holds however the calls on the ring are interleaved: where the reservations lie.
use cmt_tcp.Prelude.{
  ℕ, ◌^◌, ◌+◌, ◌<◌, ◌≤◌, ◌≡◌, ◌≢◌, refl, ◌⊎◌, inl, inr, false, ◌==◌, arith, Bool-cases, ==_refl,
}
use cmt_tcp.Ring.Threads.{Local, headed, loaded, reserved, Shared, at}

pub at_cases :
    (s : Shared) (t : ℕ) (l : Local) (u : ℕ) (x : Local)
    → at s t l u ≡ x
    → ((t ≡ u) × (l ≡ x)) ⊎ ((t ≢ u) × (s.threads u ≡ x))
at_cases s t l u x e = elim (Bool-cases (t == u)) [
  | inl same ↦ inl (ground (arith, same), rw same at e)
  | inr other ↦ inr (λ q. ground (arith, other, q), rw other at e)
]

pub reserved_same : (h n k m : ℕ) → reserved h n ≡ reserved k m → (h ≡ k) × (n ≡ m)
reserved_same h n k m e = (cc, cc)

-- The reservations of two producers do not meet.
abbrev pub Apart : ℕ → ℕ → ℕ → ℕ → Type 0
Apart h n k m = (h + n ≤ k) ⊎ (k + m ≤ h)

abbrev pub Covered : Shared → ℕ → Type 0
Covered s i = (t : ℕ) × (h : ℕ) × (n : ℕ) × (s.threads t ≡ reserved h n) × (h ≤ i) × (i < h + n)

pub record IsShared (s : Shared) : Type 0 where
  pub mask_word : s.mask < 2 ^ 32
  pub published : s.cons_tail ≤ s.prod_tail
  pub claimed : s.prod_tail ≤ s.prod_head
  pub room : s.prod_head ≤ s.cons_tail + s.mask
  pub early : (t want h : ℕ) → s.threads t ≡ headed want h → h ≤ s.cons_tail + s.mask
  pub stale :
      (t want h c : ℕ) → s.threads t ≡ loaded want h c → (h ≤ c + s.mask) × (c ≤ s.cons_tail)
  pub within : (t h n : ℕ) → s.threads t ≡ reserved h n → h + n ≤ s.prod_head
  pub ahead : (t h n : ℕ) → s.threads t ≡ reserved h n → 0 < n → s.prod_tail ≤ h
  pub apart :
      (t u h n k m : ℕ)
      → t ≢ u
      → s.threads t ≡ reserved h n
      → s.threads u ≡ reserved k m
      → 0 < n
      → 0 < m
      → Apart h n k m
  pub covered : (i : ℕ) → s.prod_tail ≤ i → i < s.prod_head → Covered s i

pub at_other : (s : Shared) (t : ℕ) (l : Local) (u : ℕ) → t ≢ u → at s t l u ≡ s.threads u
at_other s t l u q = let other : (t == u) ≡ false = ground (arith, q) in rw other refl

pub at_same : (s : Shared) (t : ℕ) (l : Local) → at s t l t ≡ l
at_same s t l = rw (==_refl t) refl
