-- ===== src/HashTable/Contents.antt =====
-- The operations on the tables of src/tcp_stream_hash.c, against the map that a table holds.
use cmt_tcp.Prelude.{
  ℕ, ◌+◌, ◌%◌, ◌≡◌, refl, Bool, false, Option, none, some, List, [], ◌∷◌, get_elem?, set, length,
  if◌then◌else◌, ◌==◌, arith, get_elem?-get_or, length-set, get_or-set_self, get_or-set_other,
  length-replicate, get_or-replicate, Bool-cases, inl, inr, ==_iff,
}
use cmt_tcp.Run.{ok}
use cmt_tcp.HashTable.{HashTable, empty_table, find, drop_first, ht_search, ht_insert, ht_remove}
use cmt_tcp.HashTable.Lookup.{
  IsKeyed, IsTable, Distinct, bucket, lookup, other_bucket, find-drop_first, drop_first-Distinct,
}

module _ {A : Type 0} where
  -- A new table is valid and empty, whatever its number of bins, for a hash and a comparison that
  -- obey their laws.
  pub empty_table-lookup :
      (hash : A → ℕ) (eq : A → A → Bool) (bins : ℕ)
      → IsKeyed bins hash eq
      → IsTable (empty_table hash eq bins) × ((y : A) → lookup (empty_table hash eq bins) y ≡ none)
  unfolding empty_table find
  empty_table-lookup hash eq bins k = (
    record {
      keyed = rw (length-replicate {A = List A} bins []) k;
      distinct = λ i. rw (get_or-replicate {A = List A} bins i []) tt;
    },
    λ y. rw (get_or-replicate {A = List A} bins (hash y) []),
  )

  -- `t'` is valid, and holds `o` for the keys equal to `x` and what `t` holds for the others.
  abbrev pub Holds : HashTable A → HashTable A → A → Option A → Type 0
  Holds t t' x o = IsTable t' × ((y : A) → lookup t' y ≡ (if t.eq y x then o else lookup t y))

  module _ (t : HashTable A) (v : IsTable t) where
    pub the_bucket : (x : A) → get_elem? t.table (t.hash x) ≡ some (bucket t (t.hash x))
    the_bucket x = get_elem?-get_or t.table (t.hash x) [] (v.keyed.in_range x)

    -- A search of a valid table gives what the table holds for the key, and changes nothing.
    pub ht_search-lookup : (x : A) → ht_search x t ≡ ok (lookup t x, t)
    unfolding ht_search
    ht_search-lookup x = rw (the_bucket x)

    abbrev with_bucket : ℕ → List A → HashTable A
    with_bucket i b = record t { table = set t.table i b }

    bucket_self : (x : A) (b : List A) → bucket (with_bucket (t.hash x) b) (t.hash x) ≡ b
    bucket_self x b = get_or-set_self t.table (t.hash x) b [] (v.keyed.in_range x)

    bucket_other :
        (i j : ℕ) (b : List A) → (i == j) ≡ false → bucket (with_bucket i b) j ≡ bucket t j
    bucket_other i j b h = get_or-set_other t.table i j b [] h

    with_bucket-IsKeyed : (i : ℕ) (b : List A) → IsKeyed (length (set t.table i b)) t.hash t.eq
    with_bucket-IsKeyed i b = rw (length-set t.table i b) v.keyed

    with_bucket-Distinct :
        (x : A) (b : List A)
        → Distinct t.eq b
        → (j : ℕ) → Distinct t.eq (bucket (with_bucket (t.hash x) b) j)
    with_bucket-Distinct x b d j = elim (Bool-cases (t.hash x == j)) [
      | inl e ↦ rw (← (==_iff (t.hash x) j).0 e) (rw (bucket_self x b) d)
      | inr e ↦ rw (bucket_other (t.hash x) j b e) (v.distinct j)
    ]

    with_bucket-lookup :
        (x : A) (b : List A) (y : A) (o : Option A)
        → (find t.eq y b ≡ (if t.eq y x then o else find t.eq y (bucket t (t.hash x))))
        → lookup (with_bucket (t.hash x) b) y ≡ (if t.eq y x then o else lookup t y)
    with_bucket-lookup x b y o h = elim (Bool-cases (t.hash x == t.hash y)) [
      | inl e ↦
          let same : t.hash x ≡ t.hash y = (==_iff (t.hash x) (t.hash y)).0 e in
          rw (← same) (rw (bucket_self x b) h)
      | inr e ↦
          rw (bucket_other (t.hash x) (t.hash y) b e)
            (rw (other_bucket v.keyed y x (ground (arith, e))) refl)
    ]

    holds :
        (x : A) (b : List A) (n : ℕ) (o : Option A)
        → Distinct t.eq b
        → ((y : A) → find t.eq y b ≡ (if t.eq y x then o else find t.eq y (bucket t (t.hash x))))
        → Holds t (record (with_bucket (t.hash x) b) { ht_count = n }) x o
    holds x b n o d h = (
      record { keyed = with_bucket-IsKeyed (t.hash x) b; distinct = with_bucket-Distinct x b d },
      λ y. with_bucket-lookup x b y o (h y),
    )

    -- Inserting a key that a valid table does not hold returns 0; the table stays valid, holds it
    -- for all keys equal to it and what it held for the others, and counts one entry more, in eight
    -- bits.
    pub ht_insert-lookup :
        (x : A)
        → lookup t x ≡ none
        → (t' : HashTable A) × (ht_insert x t ≡ ok (0, t'))
          × Holds t t' x (some x)
          × (t'.ht_count ≡ (t.ht_count + 1) % 256)
    unfolding ht_insert find
    ht_insert-lookup x h = (
      record (with_bucket (t.hash x) (x ∷ bucket t (t.hash x))) {
        ht_count = (t.ht_count + 1) % 256;
      },
      rw (the_bucket x),
      holds x (x ∷ bucket t (t.hash x)) ((t.ht_count + 1) % 256) (some x) (h, v.distinct (t.hash x))
          (λ y. refl),
      refl,
    )

    -- Removing a key from a valid table returns the entry that the table held for it; the table
    -- stays valid, holds nothing for the keys equal to it and what it held for the others, and
    -- counts as many entries as before.
    pub ht_remove-lookup :
        (x : A)
        → (t' : HashTable A) × (ht_remove x t ≡ ok (lookup t x, t'))
          × Holds t t' x none
          × (t'.ht_count ≡ t.ht_count)
    unfolding ht_remove
    ht_remove-lookup x =
        let b = bucket t (t.hash x) in
        (
          with_bucket (t.hash x) (drop_first t.eq x b),
          rw (the_bucket x),
          holds x (drop_first t.eq x b) t.ht_count none
              (drop_first-Distinct v.keyed x b (v.distinct (t.hash x)))
              (λ y. find-drop_first v.keyed y x b (v.distinct (t.hash x))),
          refl,
        )
