-- ===== src/ObjectPool/Handed.antt =====
-- The free nodes of an object pool: what getting and freeing do to them.
use cmt_tcp.Prelude.{
  ℕ, ◌+◌, ◌-◌, ◌≡◌, refl, subst, sym, Bool, true, false, Option, none, some, List, [], ◌∷◌, ◌++◌,
  ◌==◌, arith, count, count-cons, ==_refl,
}
use cmt_tcp.Run.{Run, ok, pure, branch, gets, modify, deref, ◌>>=◌, ◌>>◌}
use cmt_tcp.Links.{Chain, nil, cons, relink, Chain-relink, Chain-push}
use cmt_tcp.ObjectPool.Stock.{IsStock, Fresh, Once-cons, resize-IsStock}
use cmt_tcp.ObjectPool.{ObjectPool, resize, object_get, object_free}

-- The pool after `a` is freed.
abbrev pub freed : ObjectPool → ℕ → ObjectPool
freed p a = record p {
  obj_queue = some a;
  next = relink p.next a p.obj_queue;
  free_count = p.free_count + 1;
}

module _ (enough : ℕ → ℕ → Bool) (pmemalign : ℕ → Option ℕ) where
  module _ (p : ObjectPool) (xs : List ℕ) (v : IsStock p xs) (f : Fresh pmemalign xs) where
    -- What is handed out of the free nodes `ys`, and what stays.
    abbrev pub Handed : List ℕ → ObjectPool → Type 0
    Handed [] p' = (object_get enough pmemalign p ≡ ok (none, p')) × IsStock p' []
    Handed (a ∷ ys) p' = (object_get enough pmemalign p ≡ ok (some a, p')) × IsStock p' ys

    handed :
        (q : ObjectPool) (ys : List ℕ)
        → resize enough pmemalign p ≡ ok (tt, q)
        → IsStock q ys
        → (o : Option ℕ) → q.obj_queue ≡ o
        → Chain q.next o ys
        → (p' : ObjectPool) × Handed ys p'
    unfolding object_get deref ◌>>=◌ pure branch gets modify
    handed q [] e w o there nil =
        let none_left : (q.free_count == 0) ≡ true = ground (arith, w.counted) in
        (q, (rw (e, none_left) refl, w))
    handed q (a ∷ ys) e w o there (cons c) =
        let some_left : (q.free_count == 0) ≡ false = ground (arith, w.counted) in
        let q' : ObjectPool = record q { obj_queue = q.next a; free_count = q.free_count - 1 } in
        (
          q',
          (
            rw (e, some_left, there) refl,
            record {
              linked = c;
              counted = omega (arith, w.counted);
              once = λ b. omega (arith, w.once b, count-cons b a ys);
            },
          ),
        )

    -- In a pool whose free nodes are `xs`, each once and counted, and an allocator that gives out
    -- fresh nodes: getting an object puts `news` before the free nodes, which may be none, and hands
    -- out the first node there is then, or returns none if there is none; the others stay, each once
    -- and counted.
    pub object_get-Handed : (news : List ℕ) × (p' : ObjectPool) × Handed (news ++ xs) p'
    object_get-Handed =
        let (news, q, e, w) = resize-IsStock enough pmemalign p xs v f in
        let (p', h) = handed q (news ++ xs) e w q.obj_queue refl w.linked in (news, p', h)

  module _ (p : ObjectPool) (xs : List ℕ) (v : IsStock p xs) (a : ℕ) where
    -- Freeing an object that is not free puts it before the free nodes, and where the pool has
    -- enough of them, the next object that is got is that one, and the free nodes are those before.
    pub object_get-object_free :
        count a xs ≡ 0
        → enough p.element_count (p.free_count + 1) ≡ true
        → (object_free a p ≡ ok (tt, (freed p a)))
          × IsStock (freed p a) (a ∷ xs)
          × ((p' : ObjectPool) × (object_get enough pmemalign (freed p a) ≡ ok (some a, p'))
              × IsStock p' xs)
    unfolding object_free object_get resize deref ◌>>=◌ pure branch gets modify
    object_get-object_free out plenty =
        let w : IsStock (freed p a) (a ∷ xs) = record {
          linked = Chain-push a out v.linked;
          counted = omega (arith, v.counted);
          once = Once-cons a xs out v.once;
        } in
        let some_left : (p.free_count + 1 == 0) ≡ false = ground arith in
        let link : relink p.next a p.obj_queue a ≡ p.obj_queue = rw (==_refl a) refl in
        (
          refl,
          w,
          (
            record (freed p a) {
              obj_queue = relink p.next a p.obj_queue a;
              free_count = p.free_count + 1 - 1;
            },
            rw (plenty, some_left) refl,
            record {
              linked =
                  subst (λ o. Chain (freed p a).next o xs) (sym link)
                    (Chain-relink a p.obj_queue out v.linked);
              counted = omega (arith, v.counted);
              once = v.once;
            },
          ),
        )

abbrev pub free_twice :
    (ℕ → ℕ → Bool) → (ℕ → Option ℕ) → ℕ → Run ObjectPool ((Option ℕ) × (Option ℕ))
free_twice enough pmemalign a = do
  object_free a
  object_free a
  x ← object_get enough pmemalign
  y ← object_get enough pmemalign
  pure (x, y)

-- Freeing an object twice makes a pool that has enough free nodes hand it out twice, with no free in
-- between: no hypothesis on the pool is needed.
pub object_free_twice :
    (enough : ℕ → ℕ → Bool) (pmemalign : ℕ → Option ℕ) (p : ObjectPool) (a : ℕ)
    → enough p.element_count (p.free_count + 2) ≡ true
    → enough p.element_count (p.free_count + 1) ≡ true
    → (p' : ObjectPool) × (free_twice enough pmemalign a p ≡ ok ((some a, some a), p'))
unfolding object_free object_get resize deref ◌>>=◌ pure branch gets modify
object_free_twice enough pmemalign p a two one =
    let sum : p.free_count + 1 + 1 ≡ p.free_count + 2 = omega arith in
    let back : p.free_count + 2 - 1 ≡ p.free_count + 1 = omega arith in
    let first_left : (p.free_count + 2 == 0) ≡ false = ground arith in
    let then_left : (p.free_count + 1 == 0) ≡ false = ground arith in
    let link : relink (relink p.next a p.obj_queue) a (some a) a ≡ some a = rw (==_refl a) refl in
    let p' : ObjectPool = record p {
      obj_queue = some a;
      next = relink (relink p.next a p.obj_queue) a (some a);
      free_count = p.free_count + 1 - 1;
    } in
    (p', rw (sum, two, first_left, back, link, one, then_left, link) refl)
