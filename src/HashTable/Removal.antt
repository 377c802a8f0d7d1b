-- ===== src/HashTable/Removal.antt =====
-- The typed operations of src/tcp_stream_hash.c, which compare the entry first, against those of
-- the general table.
use cmt_tcp.Prelude.{
  ℕ, ◌≡◌, refl, sym, ap, subst, ◌∙◌, Bool, false, Option, none, some, List, [], ◌∷◌, arith, set,
  Bool-cases, inl, inr, ◌≢◌,
}
use cmt_tcp.Run.{ok}
use cmt_tcp.HashTable.{
  HashTable, find, find_walker, drop_first, ht_remove, typed_search, unlink_next, unlink_after,
  unlink, remove_from, typed_remove,
}
use cmt_tcp.HashTable.Lookup.{IsKeyed, IsTable, Distinct, bucket, lookup, find_along}
use cmt_tcp.HashTable.Contents.{the_bucket}

-- The value is not an entry for the key.
abbrev pub Misses : {A : Type 0} → (A → A → Bool) → A → Option A → Type 0
Misses eq it none = Unit
Misses eq it (some w) = eq w it ≡ false

module _ {A : Type 0} {n : ℕ} {hash : A → ℕ} {eq : A → A → Bool} (k : IsKeyed n hash eq)
    (it : A) where
  find_walker-find : (ws : List A) → find_walker eq it ws ≡ find eq it ws
  unfolding find find_walker
  find_walker-find [] = refl
  find_walker-find (w ∷ ws) = rw (k.eq_comm w it, find_walker-find ws)

  unlink_next-drop_first :
      (walk : A) (ws : List A) → (unlink_next eq it walk ws).0 ≡ drop_first eq it ws
  unfolding unlink_next drop_first
  unlink_next-drop_first walk [] = refl
  unlink_next-drop_first walk (w ∷ ws) = ground (arith, k.eq_comm w it, unlink_next-drop_first w ws)

  unlink_next-Misses :
      (walk : A) (ws : List A) → eq walk it ≡ false → Misses eq it (unlink_next eq it walk ws).1
  unfolding unlink_next
  unlink_next-Misses walk [] h = tt
  unlink_next-Misses walk (w ∷ ws) h = ground (arith, unlink_next-Misses w ws)

  absent : (walk : A) (ws : List A) → find eq it ws ≡ none → unlink_next eq it walk ws ≡ (ws, none)
  unfolding unlink_next find
  absent walk [] h = refl
  absent walk (w ∷ ws) h = ground (arith, k.eq_comm w it, absent w ws)

  after_absent :
      (walk : A) (ws : List A) → find eq it ws ≡ none → unlink_after eq it walk ws ≡ (ws, none)
  unfolding unlink_after find
  after_absent walk [] h = refl
  after_absent walk (w ∷ ws) h = ground (arith, k.eq_comm w it, absent w ws)

  unlink_lem :
      (walk : A) (ws : List A)
      → Distinct eq (walk ∷ ws)
      → ((unlink eq it walk ws).0 ≡ drop_first eq it (walk ∷ ws))
        × Misses eq it (unlink eq it walk ws).1
  unfolding unlink drop_first
  unlink_lem walk ws d = elim (Bool-cases (eq walk it)) [
    | inl same ↦
        rw
          (
            same,
            k.eq_comm it walk,
            same,
            after_absent walk ws (sym (find_along k walk it ws same) ∙ d.0),
          )
          (refl, tt)
    | inr other ↦
        rw (other, k.eq_comm it walk, other)
          (
            ap (λ (r : List A). walk ∷ r) (unlink_next-drop_first walk ws),
            unlink_next-Misses walk ws other,
          )
  ]

module _ {A : Type 0} (t : HashTable A) (v : IsTable t) where
  pub typed_search-lookup : (x : A) → typed_search x t ≡ ok (lookup t x, t)
  unfolding typed_search
  typed_search-lookup x = rw (the_bucket t v x, find_walker-find v.keyed x (bucket t (t.hash x)))

  remove_from-ht_remove :
      (x : A) (b : List A)
      → b ≢ []
      → bucket t (t.hash x) ≡ b
      → (t' : HashTable A) × (o : Option A) × (remove_from x b t ≡ ok (o, t'))
        × (ht_remove x t ≡ ok (lookup t x, t'))
        × Misses t.eq x o
  unfolding remove_from ht_remove
  remove_from-ht_remove x [] h e = absurd (h refl)
  remove_from-ht_remove x (w ∷ ws) h e =
      let lem = unlink_lem v.keyed x w ws (subst (Distinct t.eq) e (v.distinct (t.hash x))) in
      (
        record t { table = set t.table (t.hash x) (unlink t.eq x w ws).0 },
        (unlink t.eq x w ws).1,
        refl,
        rw (the_bucket t v x, e) (rw (lem.0) refl),
        lem.1,
      )

  -- In a valid table whose bucket for the key is not empty, the typed removal leaves the table that
  -- the general removal leaves, but returns no entry for the key: NULL, or the entry before it.
  pub typed_remove-Misses :
      (x : A)
      → bucket t (t.hash x) ≢ []
      → (t' : HashTable A) × (o : Option A) × (typed_remove x t ≡ ok (o, t'))
        × (ht_remove x t ≡ ok (lookup t x, t'))
        × Misses t.eq x o
  unfolding typed_remove
  typed_remove-Misses x h =
      rw (the_bucket t v x) (remove_from-ht_remove x (bucket t (t.hash x)) h refl)
