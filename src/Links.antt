-- ===== src/Links.antt =====
-- Singly linked chains in memory: a head, and the link of each node.
use cmt_tcp.Prelude.{
  ℕ, ◌≡◌, refl, subst, false, Option, none, some, List, [], ◌∷◌, ◌==◌, if◌then◌else◌, arith, count,
  count-cons, ==_refl,
}

-- From `p` the links lead through the nodes `xs` to the end.
pub data Chain (link : ℕ → Option ℕ) : Option ℕ → List ℕ → Type 0 where
  nil : Chain link none []
  cons : {k : ℕ} {xs : List ℕ} → Chain link (link k) xs → Chain link (some k) (k ∷ xs)

-- `node->next = p`
abbrev pub relink : (ℕ → Option ℕ) → ℕ → Option ℕ → ℕ → Option ℕ
relink link a p k = if k == a then p else link k

-- A chain does not feel a change of a node that is not in it.
pub Chain-relink :
    {link : ℕ → Option ℕ} {p : Option ℕ} {xs : List ℕ} (a : ℕ) (q : Option ℕ)
    → count a xs ≡ 0
    → Chain link p xs
    → Chain (relink link a q) p xs
Chain-relink a q out nil = nil
Chain-relink {link} {xs = k ∷ xs} a q out (cons c) =
    let apart : (k == a) ≡ false = ground (arith, out, count-cons a k xs) in
    let rest = Chain-relink a q (ground (arith, out, count-cons a k xs)) c in
    cons (subst (λ w. Chain (relink link a q) w xs) (rw apart refl) rest)

-- A node before the first one.
pub Chain-push :
    {link : ℕ → Option ℕ} {p : Option ℕ} {xs : List ℕ} (a : ℕ)
    → count a xs ≡ 0
    → Chain link p xs
    → Chain (relink link a p) (some a) (a ∷ xs)
Chain-push {link} {p} {xs} a out c =
    cons (subst (λ w. Chain (relink link a p) w xs) (rw (==_refl a) refl) (Chain-relink a p out c))
