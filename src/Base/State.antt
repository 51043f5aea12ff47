-- ===== src/Base/State.antt =====
-- Code that changes a state of type `S` and can fail.

-- An access out of bounds, a read through a pointer where no intact struct of the type stands, a
-- loop or recursion that has not ended within its fuel, `exit`,
-- and a call that never returns.
pub data Fault : Type 0 where
  out_of_bounds bad_read out_of_fuel exited no_return : Fault

pub data Outcome (S A : Type 0) : Type 0 where
  ok : A → S → Outcome S A
  fault : Fault → Outcome S A

module _ {S : Type 0} where
  abbrev pub pure : {A : Type 0} → A → S → Outcome S A
  pure a s = ok a s

  abbrev pub fail : {A : Type 0} → Fault → S → Outcome S A
  fail f s = fault f

  abbrev pub and_then : {A B : Type 0} → Outcome S A → (A → S → Outcome S B) → Outcome S B
  and_then (ok a s) k = k a s
  and_then (fault f) k = fault f

  infixl 5 ◌>>=◌ ◌>>◌
  abbrev pub ◌>>=◌ : {A B : Type 0} → (S → Outcome S A) → (A → S → Outcome S B) → S → Outcome S B
  ◌>>=◌ c k s = and_then (c s) k

  abbrev pub ◌>>◌ : {B : Type 0} → (S → Outcome S (Unit {0})) → (S → Outcome S B) → S → Outcome S B
  ◌>>◌ c d s = and_then (c s) λ _. d
