-- ===== src/Expiry/Sweep.antt =====
-- What a loop over a list of streams does that takes some of them off and closes them, until one
-- makes it stop.
use cmt_tcp.Prelude.{
  ℕ, ◌+◌, ◌<◌, ◌≤◌, ◌≡◌, refl, ap, sym, ◌∙◌, Bool, true, false, ◌&&◌, List, [], ◌∷◌, ◌++◌, ltb,
  ◌==◌, if◌then◌else◌, append_assoc, Bool-cases, inl, inr, arith, length, count, erase, count-cons,
  count-nil, erase-middle, count-append, ==_refl,
}
use cmt_tcp.Run.{Run, ok, ◌>>=◌}
use cmt_tcp.Stream.{Stream, Manager}
use cmt_tcp.Expiry.{World, update, walk_list}

-- The entries that are not due, and that none is.
abbrev pub kept : (Stream → Bool) → (ℕ → Stream) → List ℕ → List ℕ
kept due f [] = []
kept due f (x ∷ xs) = if due (f x) then kept due f xs else x ∷ kept due f xs

abbrev pub NoneDue : (Stream → Bool) → (ℕ → Stream) → List ℕ → Type 0
NoneDue due f [] = Unit
NoneDue due f (x ∷ xs) = (due (f x) ≡ false) × NoneDue due f xs

-- From an entry that makes the loop stop on, none is due.
abbrev pub InOrder : (Stream → Bool) → (Stream → Bool) → (ℕ → Stream) → List ℕ → Type 0
InOrder halts due f [] = Unit
InOrder halts due f (x ∷ xs) =
    (halts (f x) ≡ true → NoneDue due f (x ∷ xs)) × InOrder halts due f xs

module _ (due : Stream → Bool) (f : ℕ → Stream) where
  kept-NoneDue : (xs : List ℕ) → NoneDue due f xs → kept due f xs ≡ xs
  kept-NoneDue [] h = refl
  kept-NoneDue (x ∷ xs) h = rw (h.0, kept-NoneDue xs h.1)

  not-due : (id : ℕ) (xs : List ℕ) → NoneDue due f xs → (due (f id) && ltb 0 (count id xs)) ≡ false
  not-due id [] h = ground (arith, count-nil id)
  not-due id (x ∷ xs) h = elim (Bool-cases (x == id)) [
    | inl same ↦ let e : x ≡ id = ground arith in rw (← e) (rw (h.0) refl)
    | inr other ↦ ground (arith, count-cons id x xs, not-due id xs h.1)
  ]

module _ (the_list : Manager → List ℕ) (halts due : Stream → Bool) (close : Stream → Stream)
    (retire : ℕ → Stream → Manager → Manager) where
  abbrev pub retired : ℕ → World → World
  retired x w = record {
    tcp = retire x (w.streams x) w.tcp;
    streams = update w.streams x (close (w.streams x));
  }

  -- The body looks at one stream, and takes it off the list where it is due.
  pub record Handles (body : ℕ → Run World Bool) : Type 0 where
    pub taken_off :
        (x : ℕ) (s : Stream) (t : Manager) → the_list (retire x s t) ≡ erase x (the_list t)
    pub does :
        (x : ℕ) (w : World)
        → body x w
          ≡ ok (
            halts (w.streams x),
            if halts (w.streams x) then w else (if due (w.streams x) then retired x w else w),
          )

  module _ (f : ℕ → Stream) (body : ℕ → Run World Bool) (h : Handles body) where
    pub record Swept (pre ws : List ℕ) (s s' : World) : Type 0 where
      pub listed : the_list s'.tcp ≡ pre ++ kept due f ws
      pub closes :
          (id : ℕ)
          → s'.streams id
            ≡ (if due (f id) && ltb 0 (count id ws) then close (f id) else s.streams id)

    pub record Ready (pre ws : List ℕ) (s : World) : Type 0 where
      pub listed : the_list s.tcp ≡ pre ++ ws
      pub once : (id : ℕ) → count id (pre ++ ws) ≤ 1
      pub agree : (id : ℕ) → 0 < count id ws → s.streams id ≡ f id
      pub ordered : InOrder halts due f ws

    skip-Ready :
        (pre xs : List ℕ) (x : ℕ) (s : World) → Ready pre (x ∷ xs) s → Ready (pre ++ x ∷ []) xs s
    skip-Ready pre xs x s r = record {
      listed = r.listed ∙ sym (append_assoc pre (x ∷ []) xs);
      once = λ id. rw (append_assoc pre (x ∷ []) xs) (r.once id);
      agree = λ id m. r.agree id (omega (arith, m, count-cons id x xs));
      ordered = r.ordered.1;
    }

    absent-after :
        (pre xs : List ℕ) (x : ℕ)
        → ((id : ℕ) → count id (pre ++ x ∷ xs) ≤ 1)
        → (count x pre ≡ 0) × (count x xs ≡ 0)
    absent-after pre xs x once =
        ground (arith, once x, count-append x pre (x ∷ xs), count-cons x x xs)

    retire-Ready :
        (pre xs : List ℕ) (x : ℕ) (s : World) → Ready pre (x ∷ xs) s → Ready pre xs (retired x s)
    retire-Ready pre xs x s r =
        let (before, behind) = absent-after pre xs x r.once in
        record {
          listed =
              h.taken_off x (s.streams x) s.tcp
              ∙ ap (erase x) r.listed
              ∙ erase-middle x pre xs before;
          once = λ id. ground (
            arith,
            r.once id,
            count-append id pre (x ∷ xs),
            count-append id pre xs,
            count-cons id x xs,
          );
          agree = λ id m. elim (Bool-cases (x == id)) [
            | inl same ↦
                let e : x ≡ id = ground arith in
                absurd (omega (arith, m, behind, ap (λ (k : ℕ). count k xs) e))
            | inr other ↦ rw other (r.agree id (omega (arith, m, count-cons id x xs)))
          ];
          ordered = r.ordered.1;
        }

    halt-Swept :
        (pre ws : List ℕ) (s : World) → Ready pre ws s → NoneDue due f ws → Swept pre ws s s
    halt-Swept pre ws s r none_due = record {
      listed = rw (kept-NoneDue due f ws none_due) r.listed;
      closes = λ id. rw (not-due due f id ws none_due) refl;
    }

    pass-Swept :
        (pre xs : List ℕ) (x : ℕ) (s s' : World)
        → due (f x) ≡ false
        → Swept (pre ++ x ∷ []) xs s s'
        → Swept pre (x ∷ xs) s s'
    pass-Swept pre xs x s s' keep v = record {
      listed = rw keep (v.listed ∙ append_assoc pre (x ∷ []) (kept due f xs));
      closes = λ id. elim (Bool-cases (x == id)) [
        | inl same ↦ let e : x ≡ id = ground arith in v.closes id ∙ rw (← e) (rw keep refl)
        | inr other ↦ v.closes id ∙ ground (arith, count-cons id x xs)
      ];
    }

    close-Swept :
        (pre xs : List ℕ) (x : ℕ) (s s' : World)
        → s.streams x ≡ f x
        → count x xs ≡ 0
        → due (f x) ≡ true
        → Swept pre xs (retired x s) s'
        → Swept pre (x ∷ xs) s s'
    close-Swept pre xs x s s' e behind fire v =
        let seen : ltb 0 (count x (x ∷ xs)) ≡ true = ground (arith, count-cons x x xs) in
        let unseen : ltb 0 (count x xs) ≡ false = ground arith in
        let closed_here : (if due (f x) && ltb 0 (count x xs)
              then close (f x)
              else (retired x s).streams x)
            ≡ (if due (f x) && ltb 0 (count x (x ∷ xs)) then close (f x) else s.streams x) =
          rw (fire, seen, unseen, ==_refl x, e) refl in
        record {
          listed = rw fire v.listed;
          closes = λ id. elim (Bool-cases (x == id)) [
            | inl same ↦ let i : x ≡ id = ground arith in rw (← i) (v.closes x ∙ closed_here)
            | inr other ↦ v.closes id ∙ ground (arith, count-cons id x xs)
          ];
        }

    pub sweep :
        (ws pre : List ℕ) (cnt thresh : ℕ) (s : World)
        → Ready pre ws s
        → cnt + length ws ≤ thresh
        → (s' : World) × (walk_list body thresh cnt ws s ≡ ok (tt, s')) × Swept pre ws s s'
    unfolding walk_list ◌>>=◌
    sweep [] pre cnt thresh s r room = (s, refl, halt-Swept pre [] s r tt)
    sweep (x ∷ xs) pre cnt thresh s r room =
        let in_budget : ltb thresh (cnt + 1) ≡ false = ground arith in
        let e = r.agree x (ground (arith, count-cons x x xs)) in
        elim (Bool-cases (halts (f x))) [
          | inl halt ↦ (
            s,
            rw (in_budget, h.does x s, ap halts e ∙ halt) refl,
            halt-Swept pre (x ∷ xs) s r (r.ordered.0 halt),
          )
          | inr go ↦ elim (Bool-cases (due (f x))) [
            | inl fire ↦
                let (s', done, v) =
                  sweep xs pre (cnt + 1) thresh (retired x s) (retire-Ready pre xs x s r)
                    (omega arith) in
                (
                  s',
                  rw (in_budget, h.does x s, ap halts e ∙ go, ap due e ∙ fire) done,
                  close-Swept pre xs x s s' e (absent-after pre xs x r.once).1 fire v,
                )
            | inr keep ↦
                let (s', done, v) =
                  sweep xs (pre ++ x ∷ []) (cnt + 1) thresh s (skip-Ready pre xs x s r)
                    (omega arith) in
                (
                  s',
                  rw (in_budget, h.does x s, ap halts e ∙ go, ap due e ∙ keep) done,
                  pass-Swept pre xs x s s' keep v,
                )
          ]
        ]
