-- ===== src/HashTable/Lookup.antt =====
-- What the tables of src/tcp_stream_hash.c promise: a finite map up to `eq`.
use cmt_tcp.Prelude.{
  ℕ, ◌<◌, ◌≡◌, refl, Bool, true, false, Option, none, List, [], ◌∷◌, get_or, length, if◌then◌else◌,
  ◌==◌, arith, Bool-cases, inl, inr,
}
use cmt_tcp.HashTable.{HashTable, find, drop_first}

-- What the functions given to a table must obey.
pub record IsKeyed {A : Type 0} (bins : ℕ) (hash : A → ℕ) (eq : A → A → Bool) : Type 0 where
  pub in_range : (a : A) → hash a < bins
  pub same_bucket : (a b : A) → eq a b ≡ true → hash a ≡ hash b
  pub eq_comm : (a b : A) → eq a b ≡ eq b a
  pub eq_along : (a b c : A) → eq a b ≡ true → eq a c ≡ eq b c

module _ {A : Type 0} where
  -- No two entries of a bucket are equal.
  abbrev pub Distinct : (A → A → Bool) → List A → Type 0
  Distinct eq [] = Unit
  Distinct eq (w ∷ ws) = (find eq w ws ≡ none) × Distinct eq ws

  abbrev pub bucket : HashTable A → ℕ → List A
  bucket t i = get_or t.table i []

  pub record IsTable (t : HashTable A) : Type 0 where
    pub keyed : IsKeyed (length t.table) t.hash t.eq
    pub distinct : (i : ℕ) → Distinct t.eq (bucket t i)

  -- The table as a map.
  abbrev pub lookup : HashTable A → A → Option A
  lookup t it = find t.eq it (bucket t (t.hash it))

module _ {A : Type 0} {n : ℕ} {hash : A → ℕ} {eq : A → A → Bool} (k : IsKeyed n hash eq) where
  pub find_along : (a b : A) (ws : List A) → eq a b ≡ true → find eq a ws ≡ find eq b ws
  unfolding find
  find_along a b [] h = refl
  find_along a b (w ∷ ws) h = ground (arith, k.eq_along a b w h, find_along a b ws h)

  pub other_bucket : (a b : A) → (hash a == hash b) ≡ false → eq a b ≡ false
  other_bucket a b h = ground (arith, k.same_bucket a b)

  not_both : (a b w : A) → eq a b ≡ false → eq a w ≡ true → eq b w ≡ false
  not_both a b w h p = ground (arith, k.eq_along a w b p, k.eq_comm w b)

  find-drop_first_other :
      (a b : A) (ws : List A) → eq a b ≡ false → find eq a (drop_first eq b ws) ≡ find eq a ws
  unfolding find drop_first
  find-drop_first_other a b [] h = refl
  find-drop_first_other a b (w ∷ ws) h =
      ground (arith, not_both a b w h, find-drop_first_other a b ws h)

  find-drop_first_same :
      (a b : A) (ws : List A)
      → eq a b ≡ true
      → Distinct eq ws
      → find eq a (drop_first eq b ws) ≡ none
  unfolding find drop_first
  find-drop_first_same a b [] h d = refl
  find-drop_first_same a b (w ∷ ws) h d =
      ground (arith, k.eq_along a b w h, find_along a w ws, find-drop_first_same a b ws h d.1)

  pub find-drop_first :
      (a b : A) (ws : List A)
      → Distinct eq ws
      → find eq a (drop_first eq b ws) ≡ (if eq a b then none else find eq a ws)
  find-drop_first a b ws d = elim (Bool-cases (eq a b)) [
    | inl same ↦ rw same (find-drop_first_same a b ws same d)
    | inr other ↦ rw other (find-drop_first_other a b ws other)
  ]

  find-drop_first-none :
      (a b : A) (ws : List A) → find eq a ws ≡ none → find eq a (drop_first eq b ws) ≡ none
  unfolding find drop_first
  find-drop_first-none a b [] h = refl
  find-drop_first-none a b (w ∷ ws) h = ground (arith, find-drop_first-none a b ws)

  pub drop_first-Distinct :
      (b : A) (ws : List A) → Distinct eq ws → Distinct eq (drop_first eq b ws)
  unfolding drop_first
  drop_first-Distinct b [] d = tt
  drop_first-Distinct b (w ∷ ws) d =
      ground (arith, find-drop_first-none w b ws d.0, drop_first-Distinct b ws d.1)
