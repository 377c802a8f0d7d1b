-- ===== src/Ring/Contents.antt =====
-- The objects that a ring holds, as a list.
use Prim.Native.Nat.{◌∣◌}
use native.Mathlib.Nat.{mod-lt, mod-eq_of_lt, mod-add-mod, mod-eq-sub-mod}
use cmt_tcp.Prelude.{
  ℕ, zero, suc, ◌+◌, ◌-◌, ◌%◌, ◌^◌, ◌<◌, ◌≤◌, ◌≡◌, ◌≢◌, refl, ap, sym, ◌∙◌, true, false, List, [],
  ◌∷◌, ◌++◌, ltb, ◌==◌, if◌then◌else◌, arith, sub32, Bool-cases, inl, inr,
}
use cmt_tcp.Ring.{Ring}

-- The `n` entries from index `h` on.
unfoldable pub items : (ℕ → ℕ) → ℕ → ℕ → ℕ → List ℕ
items slots size h zero = []
items slots size h (suc n) = slots (h % size) ∷ items slots size (h + 1) n

abbrev pub used : Ring → ℕ
used r = sub32 r.prod_tail r.cons_tail

-- The objects in the ring, the oldest first.
unfoldable pub contents : Ring → List ℕ
unfolding items
contents r = items r.slots r.size r.cons_tail (used r)

-- No enqueue or dequeue is under way, and no more than `mask` objects are in the ring.
pub record IsRing (r : Ring) : Type 0 where
  pub masked : r.size ≡ r.mask + 1
  pub power : r.size ∣ 2 ^ 32
  pub small : r.mask < 2 ^ 31
  pub prod : r.prod_head ≡ r.prod_tail
  pub cons : r.cons_head ≡ r.cons_tail
  pub prod_word : r.prod_tail < 2 ^ 32
  pub cons_word : r.cons_tail < 2 ^ 32
  pub held : used r ≤ r.mask

module _ (size : ℕ) (positive : 0 < size) where
  apart : (h n : ℕ) → 0 < n → n < size → h % size ≢ (h + n) % size
  apart h n low high e =
      let shifted = mod-add-mod h size n in
      let inside = mod-lt h positive in
      elim (Bool-cases (ltb (h % size + n) size)) [
        | inl lt ↦
            let here : (h % size + n) % size ≡ h % size + n = mod-eq_of_lt (ground arith) in
            omega (arith, e, shifted, here)
        | inr ge ↦
            let past : size ≤ h % size + n = ground arith in
            let back = mod-eq-sub-mod past in
            let here : (h % size + n - size) % size ≡ h % size + n - size =
              mod-eq_of_lt (omega (arith, inside)) in
            omega (arith, e, shifted, back, here, past)
      ]

  -- An entry that is written behind `n` others does not touch them.
  pub items-write :
      (slots : ℕ → ℕ) (x n h t : ℕ)
      → n < size
      → t ≡ (h + n) % size
      → items (λ i. if i == t then x else slots i) size h (suc n) ≡ items slots size h n ++ x ∷ []
  unfolding items
  items-write slots x zero h t room e =
      let here : (h % size == t) ≡ true =
        (let z : (h + 0) % size ≡ h % size = ap (λ k. k % size) (omega arith) in
          ground (arith, e, z)) in
      rw here refl
  items-write slots x (suc n) h t room e =
      let ne = apart h (suc n) (omega arith) room in
      let other : (h % size == t) ≡ false = ground (arith, e, ne) in
      let shift : (h + 1 + n) % size ≡ (h + suc n) % size = ap (λ k. k % size) (omega arith) in
      let rest = items-write slots x n (h + 1) t (omega arith) (e ∙ sym shift) in
      rw other (ap (λ (l : List ℕ). slots (h % size) ∷ l) rest)

  -- Only the places of the entries matter.
  pub items-cong :
      (slots : ℕ → ℕ) (n h k : ℕ)
      → h % size ≡ k % size
      → items slots size h n ≡ items slots size k n
  unfolding items
  items-cong slots zero h k e = refl
  items-cong slots (suc n) h k e =
      let next : (h + 1) % size ≡ (k + 1) % size =
        sym (mod-add-mod h size 1) ∙ ap (λ m. (m + 1) % size) e ∙ mod-add-mod k size 1 in
      let rest = items-cong slots n (h + 1) (k + 1) next in
      rw e (ap (λ (l : List ℕ). slots (k % size) ∷ l) rest)
