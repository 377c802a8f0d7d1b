-- ===== src/Run/Keeps.antt =====
-- What holds after a run that was not stopped: a rule for each way to build an action.
use cmt_tcp.Prelude.{◌≡◌, refl, Bool, true, false, Option, none, some}
use cmt_tcp.Run.{
  Fault, Outcome, ok, fault, Run, pure, stop, gets, modify, branch, deref, resume, ◌>>=◌,
}

abbrev pub Ends : {S A : Type 0} → (S → Type 0) → Outcome (A × S) → Type 0
Ends Q (ok (a, s)) = Q s
Ends Q (fault e) = Unit

-- The run was not stopped, and ended in a state with `Q`.
abbrev pub Returns : {S A : Type 0} → (S → Type 0) → Outcome (A × S) → Type 0
Returns Q (ok (a, s)) = Q s
Returns Q (fault e) = ⊥

-- From a state with `P`, a run of `m` stops the process or ends in a state with `Q`.
pub record Triple {S A : Type 0} (P : S → Type 0) (m : Run S A) (Q : S → Type 0) : Type 0 where
  pub at : (s : S) → P s → Ends Q (m s)

-- From a state with `P`, a run of `m` does not stop the process and ends in a state with `Q`.
pub record Total {S A : Type 0} (P : S → Type 0) (m : Run S A) (Q : S → Type 0) : Type 0 where
  pub at : (s : S) → P s → Returns Q (m s)

abbrev pub Keeps : {S A : Type 0} → (S → Type 0) → Run S A → Type 0
Keeps P m = Triple P m P

module _ {S A : Type 0} {P Q : S → Type 0} where
  pub Triple-pure : (a : A) → ((s : S) → P s → Q s) → Triple P (pure a) Q
  unfolding pure
  Triple-pure a h = record { at = h }

  pub Triple-stop : (f : Fault) → Triple P (stop {A = A} f) Q
  unfolding stop
  Triple-stop f = record { at = λ s h. tt }

  pub Triple-gets : (f : S → A) → ((s : S) → P s → Q s) → Triple P (gets f) Q
  unfolding gets
  Triple-gets f h = record { at = h }

  pub Triple-branch :
      (b : Bool) (m n : Run S A)
      → (b ≡ true → Triple P m Q)
      → (b ≡ false → Triple P n Q)
      → Triple P (branch b m n) Q
  unfolding branch
  Triple-branch true m n km kn = record { at = (km refl).at }
  Triple-branch false m n km kn = record { at = (kn refl).at }

module _ {S : Type 0} {P Q : S → Type 0} where
  pub Triple-modify : (f : S → S) → ((s : S) → P s → Q (f s)) → Triple P (modify f) Q
  unfolding modify
  Triple-modify f h = record { at = h }

module _ {S A : Type 0} {Q : S → Type 0} where
  pub Ends-always : (o : Outcome (A × S)) → ((s : S) → Q s) → Ends Q o
  Ends-always (ok (a, s)) h = h s
  Ends-always (fault e) h = tt

module _ {S A : Type 0} {Q R : S → Type 0} where
  weaken-Ends : (o : Outcome (A × S)) → ((s : S) → R s → Q s) → Ends R o → Ends Q o
  weaken-Ends (ok (a, s)) f h = f s h
  weaken-Ends (fault e) f h = tt

  weaken-Returns : (o : Outcome (A × S)) → ((s : S) → R s → Q s) → Returns R o → Returns Q o
  weaken-Returns (ok (a, s)) f h = f s h
  weaken-Returns (fault e) f h = h

module _ {S A : Type 0} {P Q R : S → Type 0} {m : Run S A} where
  pub Total-weaken : ((s : S) → R s → Q s) → Total P m R → Total P m Q
  Total-weaken f t = record { at = λ s h. weaken-Returns (m s) f (t.at s h) }

  pub Triple-weaken : ((s : S) → R s → Q s) → Triple P m R → Triple P m Q
  Triple-weaken f t = record { at = λ s h. weaken-Ends (m s) f (t.at s h) }

  pub Triple-strengthen : ((s : S) → P s → R s) → Triple R m Q → Triple P m Q
  Triple-strengthen f t = record { at = λ s h. t.at s (f s h) }

module _ {S A B : Type 0} {R Q : S → Type 0} where
  resume-Triple :
      (o : Outcome (A × S)) (f : A → Run S B)
      → Ends R o
      → ((a : A) → Triple R (f a) Q)
      → Ends Q (resume o f)
  resume-Triple (ok (a, s)) f h kf = (kf a).at s h
  resume-Triple (fault e) f h kf = tt

module _ {S A B : Type 0} {P R Q : S → Type 0} where
  pub Triple-bind :
      (m : Run S A) (f : A → Run S B)
      → Triple P m R
      → ((a : A) → Triple R (f a) Q)
      → Triple P (m >>= f) Q
  unfolding ◌>>=◌
  Triple-bind m f km kf = record { at = λ s h. resume-Triple (m s) f (km.at s h) kf }

module _ {S A B : Type 0} {P Q : S → Type 0} where
  -- A value read from the state is the state's until it changes.
  pub Triple-read :
      (g : S → A) (f : A → Run S B)
      → ((a : A) → Triple (λ s. P s × (g s ≡ a)) (f a) Q)
      → Triple P (gets g >>= f) Q
  unfolding ◌>>=◌
  Triple-read g f kf = record { at = λ s h. (kf (g s)).at s (h, refl) }

-- The rules at one invariant, which leave nothing to guess.
module _ {S A : Type 0} {P : S → Type 0} where
  pub Keeps-pure : (a : A) → Keeps P (pure a)
  Keeps-pure a = Triple-pure a (λ s h. h)

  pub Keeps-deref : (f : Fault) (o : Option A) → Keeps P (deref {S = S} f o)
  unfolding deref
  Keeps-deref f none = record { at = λ s h. tt }
  Keeps-deref f (some a) = record { at = λ s h. h }

  pub Keeps-gets : (f : S → A) → Keeps P (gets f)
  Keeps-gets f = Triple-gets f (λ s h. h)

module _ {S A B : Type 0} {P Q : S → Type 0} where
  pub Keeps-bind :
      (m : Run S A) (f : A → Run S B)
      → Keeps P m
      → ((a : A) → Triple P (f a) Q)
      → Triple P (m >>= f) Q
  Keeps-bind = Triple-bind

pub ruleset keeps_rules =
    (Keeps-pure, Keeps-gets, Keeps-deref, Keeps-bind, Triple-stop, Triple-branch, Triple-modify)
