-- ===== src/Flows/Tables.antt =====
-- The flow table and the listener table hold what was put in.
use cmt_tcp.Prelude.{ℕ, ◌≡◌, refl, ap, ◌∙◌, Bool, Option, none, some, if◌then◌else◌, ◌==◌, arith}
use cmt_tcp.Run.{ok}
use cmt_tcp.Stream.{Stream}
use cmt_tcp.HashTable.{HashTable, ht_insert}
use cmt_tcp.HashTable.Lookup.{IsTable, lookup}
use cmt_tcp.HashTable.Contents.{ht_insert-lookup}
use cmt_tcp.HashTable.Removal.{typed_search-lookup}
use cmt_tcp.Flows.{
  stream_ht_insert, Bound, equal_listener, listen_ht_insert, listener_key, listen_ht_search,
}

-- On flows the typed insertion is the general one.
pub stream_ht_insert-ht_insert :
    (x : Stream) (t : HashTable Stream) → stream_ht_insert x t ≡ ht_insert x t
unfolding stream_ht_insert ht_insert
stream_ht_insert-ht_insert x t = refl

inserted :
    (l : Bound) (t t' : HashTable Bound)
    → ht_insert l t ≡ ok (0, t')
    → listen_ht_insert l t ≡ ok (tt, t')
unfolding ht_insert listen_ht_insert
inserted l t t' h = ground arith

module _ (t : HashTable Bound) (v : IsTable t) (ports : t.eq ≡ equal_listener) where
  -- A listener on a port that no listener of a valid table has is found by that port once it is
  -- inserted, and the others as before.
  pub listen_ht_search-insert :
      (l : Bound)
      → lookup t l ≡ none
      → (t' : HashTable Bound) × (listen_ht_insert l t ≡ ok (tt, t'))
        × IsTable t'
        × ((port : ℕ)
            → listen_ht_search port t'
              ≡ ok (if port == l.s_addr.sin_port then some l else lookup t (listener_key port), t'))
  unfolding listen_ht_search equal_listener
  listen_ht_search-insert l free =
      let (t', done, held, counted) = ht_insert-lookup t v l free in
      (
        t',
        inserted l t t' done,
        held.0,
        λ port.
            typed_search-lookup t' held.0 (listener_key port)
            ∙ ap (λ (o : Option Bound). ok (o, t'))
                (held.1 (listener_key port)
                  ∙ ap
                      (λ (f : Bound → Bound → Bool).
                        if f (listener_key port) l then some l else lookup t (listener_key port))
                      ports),
      )
