-- ===== src/ObjectPool/Stock.antt =====
-- The free nodes of an object pool as a list, each once: what the growth of the pool does to it.
use cmt_tcp.Prelude.{
  ℕ, zero, suc, ◌+◌, ◌≤◌, ◌≡◌, refl, ap, subst, sym, ◌∙◌, Bool, true, false, Option, some, List, [],
  ◌∷◌, ◌++◌, ◌==◌, leb, if◌then◌else◌, arith, length, length-append, count, count-cons,
  append_assoc, Bool-cases, Option-cases, inl, inr,
}
use cmt_tcp.Run.{ok}
use cmt_tcp.Links.{Chain, relink, Chain-relink, Chain-push}
use cmt_tcp.ObjectPool.{ObjectPool, default_min_size, peek, grow, resize}

abbrev pub Once : List ℕ → Type 0
Once xs = (a : ℕ) → count a xs ≤ 1

-- The free nodes are `xs`, each once, and are counted.
pub record IsStock (p : ObjectPool) (xs : List ℕ) : Type 0 where
  pub linked : Chain p.next p.obj_queue xs
  pub counted : p.free_count ≡ length xs
  pub once : Once xs

-- The allocator hands out no node of `xs`, and none twice.
pub record Fresh (pmemalign : ℕ → Option ℕ) (xs : List ℕ) : Type 0 where
  pub outside : (i a : ℕ) → pmemalign i ≡ some a → count a xs ≡ 0
  pub distinct : (i j a : ℕ) → pmemalign i ≡ some a → pmemalign j ≡ some a → i ≡ j

pub Once-cons : (a : ℕ) (xs : List ℕ) → count a xs ≡ 0 → Once xs → Once (a ∷ xs)
Once-cons a xs out once b = elim (Bool-cases (a == b)) [
  | inl same ↦
      let e : a ≡ b = ground (arith, same) in
      ground (arith, count-cons b a xs, subst (λ w. count w xs ≡ 0) e out)
  | inr other ↦ ground (arith, count-cons b a xs, once b)
]

module _ (enough : ℕ → ℕ → Bool) (pmemalign : ℕ → Option ℕ) where
  abbrev Grown : ℕ → List ℕ → Bool × (Option ℕ) × (ℕ → Option ℕ) → Type 0
  Grown n ys (true, head, next) =
      (news : List ℕ) × (length news ≡ n) × Chain next head (news ++ ys) × Once (news ++ ys)
  Grown n ys (false, head, next) = Unit {0}

  Grown-more :
      (n a : ℕ) (ys : List ℕ) (g : Bool × (Option ℕ) × (ℕ → Option ℕ))
      → Grown n (a ∷ ys) g
      → Grown (suc n) ys g
  Grown-more n a ys (false, head, next) h = tt
  Grown-more n a ys (true, head, next) (news, long, c, once) =
      let e : (news ++ a ∷ []) ++ ys ≡ news ++ a ∷ ys = append_assoc news (a ∷ []) ys in
      (
        news ++ a ∷ [],
        omega (arith, length-append news (a ∷ []), long),
        subst (Chain next head) (sym e) c,
        subst Once (sym e) once,
      )

  grow-Grown :
      (n i : ℕ) (head : Option ℕ) (next : ℕ → Option ℕ) (ys : List ℕ)
      → Chain next head ys
      → Once ys
      → ((j a : ℕ) → i ≤ j → pmemalign j ≡ some a → count a ys ≡ 0)
      → ((j k a : ℕ) → pmemalign j ≡ some a → pmemalign k ≡ some a → j ≡ k)
      → Grown n ys (grow enough pmemalign n i head next)
  unfolding grow
  grow-Grown zero i head next ys c once out distinct = ([], refl, c, once)
  grow-Grown (suc n) i head next ys c once out distinct = elim (Option-cases (pmemalign i)) [
    | inl e ↦
        let stop : grow enough pmemalign (suc n) i head next ≡ (false, head, next) =
          rw (grow, e) refl in
        subst (Grown (suc n) ys) (sym stop) tt
    | inr (a, e) ↦
        let a_out = out i a (omega arith) e in
        let step : grow enough pmemalign (suc n) i head next
            ≡ grow enough pmemalign n (i + 1) (some a) (relink next a head) =
          rw (grow, e) refl in
        let later : (j b : ℕ) → i + 1 ≤ j → pmemalign j ≡ some b → count b (a ∷ ys) ≡ 0 =
          λ j b low f.
            let apart : (a == b) ≡ false = elim (Bool-cases (a == b)) [
              | inl same ↦
                  let q : a ≡ b = ground (arith, same) in
                  absurd (omega (arith, low, distinct i j b (e ∙ ap (λ w. some w) q) f))
              | inr other ↦ other
            ] in
            ground (arith, count-cons b a ys, apart, out j b (omega (arith, low)) f) in
        subst (Grown (suc n) ys) (sym step) (
          Grown-more n a ys _ (
            grow-Grown n (i + 1) (some a) (relink next a head) (a ∷ ys) (Chain-push a a_out c)
              (Once-cons a ys a_out once) later distinct))
  ]

  abbrev links : Bool × (Option ℕ) × (ℕ → Option ℕ) → ℕ → Option ℕ
  links (done, head, next) = next

  grow-Chain :
      (n i : ℕ) (head : Option ℕ) (next : ℕ → Option ℕ) (q : Option ℕ) (ys : List ℕ)
      → Chain next q ys
      → ((j a : ℕ) → pmemalign j ≡ some a → count a ys ≡ 0)
      → Chain (links (grow enough pmemalign n i head next)) q ys
  unfolding grow
  grow-Chain zero i head next q ys c out = c
  grow-Chain (suc n) i head next q ys c out = elim (Option-cases (pmemalign i)) [
    | inl e ↦
        let stop : grow enough pmemalign (suc n) i head next ≡ (false, head, next) =
          rw (grow, e) refl in
        subst (λ g. Chain (links g) q ys) (sym stop) c
    | inr (a, e) ↦
        let step : grow enough pmemalign (suc n) i head next
            ≡ grow enough pmemalign n (i + 1) (some a) (relink next a head) =
          rw (grow, e) refl in
        subst (λ g. Chain (links g) q ys) (sym step)
          (grow-Chain n (i + 1) (some a) (relink next a head) q ys
            (Chain-relink a head (out i a e) c) out)
  ]

  module _ (p : ObjectPool) (xs : List ℕ) (v : IsStock p xs) (f : Fresh pmemalign xs) where
    abbrev pub Resized : Type 0
    Resized =
        (news : List ℕ) × (p' : ObjectPool) × (resize enough pmemalign p ≡ ok (tt, p'))
        × IsStock p' (news ++ xs)

    abbrev update_size : ℕ
    update_size = if leb peek p.element_count then default_min_size else p.element_count

    resized :
        enough p.element_count p.free_count ≡ false
        → (g : Bool × (Option ℕ) × (ℕ → Option ℕ)) → Grown update_size xs g
        → Chain (links g) p.obj_queue xs
        → grow enough pmemalign update_size 0 p.obj_queue p.next ≡ g
        → Resized
    unfolding resize
    resized low (true, head, next) (news, long, c, once) kept e = (
      news,
      record p {
        obj_queue = head;
        next = next;
        element_count = p.element_count + update_size;
        free_count = p.free_count + update_size;
      },
      rw (low, e) refl,
      record {
        linked = c;
        counted = omega (arith, v.counted, long, length-append news xs);
        once = once;
      },
    )
    resized low (false, head, next) t kept e = (
      [],
      record p { next = next },
      rw (low, e) refl,
      record { linked = kept; counted = v.counted; once = v.once },
    )

    pub resize-IsStock : Resized
    unfolding resize
    resize-IsStock = elim (Bool-cases (enough p.element_count p.free_count)) [
      | inl plenty ↦ ([], p, rw plenty refl, v)
      | inr low ↦
          resized low _
            (grow-Grown update_size 0 p.obj_queue p.next xs v.linked v.once
              (λ j a from. f.outside j a) f.distinct)
            (grow-Chain update_size 0 p.obj_queue p.next p.obj_queue xs v.linked f.outside) refl
    ]
