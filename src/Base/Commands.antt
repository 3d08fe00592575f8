-- ===== src/Base/Commands.antt =====
-- Commands over a state: a run returns a value and the new state, or stops at a fault.
use mathlib.Core.Path.{◌≡◌, refl}

-- What the C code does not survive, and what the model's fuel does not cover.
pub data Fault : Type 0 where
  out_of_fuel null_pointer out_of_bounds deadlock bad_unlock bug_on div_by_zero atomic_sleep : Fault

pub data Run (S : Type 0) (A : Type 0) : Type 0 where
  ok : A → S → Run S A
  fault : Fault → Run S A

abbrev pub Cmd : Type 0 → Type 0 → Type 0
Cmd S A = S → Run S A

module _ {S A B : Type 0} where
  abbrev pub and_then : Run S A → (A → Cmd S B) → Run S B
  and_then (ok a s) k = k a s
  and_then (fault f) k = fault f

-- Total correctness: the run returns, and its value and state satisfy `P`.
abbrev pub Returns : {S A : Type 0} → (A → S → Type 0) → Run S A → Type 0
Returns P (ok a s) = P a s
Returns P (fault f) = ⊥

module _ {S A B : Type 0} (P : A → S → Type 0) (Q : B → S → Type 0) where
  pub Returns-bind :
      (r : Run S A) (k : A → Cmd S B)
      → Returns P r
      → ((a : A) (s : S) → P a s → Returns Q (k a s))
      → Returns Q (and_then r k)
  Returns-bind (ok a s) k p next = next a s p
  Returns-bind (fault f) k p next = absurd p

module _ {S A : Type 0} (P Q : A → S → Type 0) where
  pub Returns-mono : (r : Run S A) → Returns P r → ((a : A) (s : S) → P a s → Q a s) → Returns Q r
  Returns-mono (ok a s) p weaken = weaken a s p
  Returns-mono (fault f) p weaken = absurd p

-- A run that returns is its value and its state.
pub Returns-ok :
    {S A : Type 0} (P : A → S → Type 0) (r : Run S A)
    → Returns P r
    → (a : A) × (s : S) × (r ≡ ok a s) × P a s
Returns-ok P (ok a s) p = (a, s, refl, p)
Returns-ok P (fault f) p = absurd p
