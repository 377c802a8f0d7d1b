-- ===== src/Run.antt =====
-- Code that changes a state and may stop the process: `assert`, `exit`, a null pointer, a division
-- by zero, a loop that does not end, and an index outside its array.
pub mod Keeps
use cmt_tcp.Prelude.{Bool, if◌then◌else◌, Option, none, some}

pub data Fault : Type 0 where
  assertion exited null_pointer division diverges out_of_bounds : Fault

pub data Outcome (A : Type 0) : Type 0 where
  ok : A → Outcome A
  fault : Fault → Outcome A

abbrev pub Run : Type 0 → Type 0 → Type 0
Run S A = S → Outcome (A × S)

module _ {S A : Type 0} where
  unfoldable pub pure : A → Run S A
  pure a s = ok (a, s)

  unfoldable pub stop : Fault → Run S A
  stop f s = fault f

  unfoldable pub gets : (S → A) → Run S A
  gets f s = ok (f s, s)

  -- A value that is absent stops the process.
  unfoldable pub deref : Fault → Option A → Run S A
  deref f none s = fault f
  deref f (some a) s = ok (a, s)

  -- `if (b) m else n`
  unfoldable pub branch : Bool → Run S A → Run S A → Run S A
  branch b m n s = if b then m s else n s

module _ {S : Type 0} where
  unfoldable pub modify : (S → S) → Run S (Unit {0})
  modify f s = ok (tt, f s)

module _ {S A B : Type 0} where
  abbrev pub resume : Outcome (A × S) → (A → Run S B) → Outcome (B × S)
  resume (ok (a, s)) f = f a s
  resume (fault e) f = fault e

  infixl 10 ◌>>=◌ ◌>>◌
  unfoldable pub ◌>>=◌ : Run S A → (A → Run S B) → Run S B
  unfolding pure stop gets modify branch deref
  ◌>>=◌ m f s = resume (m s) f

  abbrev pub ◌>>◌ : Run S A → Run S B → Run S B
  m >> n = m >>= λ _. n
