-- ===== src/Base/Commands.antt =====
-- Commands over a state, which end in a value or in a fault of the C++ program.
use mathlib.Core.Path.{◌≡◌, refl, subst}

-- What ends the process, or is undefined behaviour.
pub data Fault : Type 0 where
  null_pointer dangling uninitialised out_of_range deadlock uncaught overflow : Fault

pub data Run (S A : Type 0) : Type 0 where
  ok : A → S → Run S A
  fault : Fault → Run S A

abbrev pub Cmd : Type 0 → Type 0 → Type 0
Cmd S A = S → Run S A

module _ {S A : Type 0} where
  abbrev pub pure : A → Cmd S A
  pure = ok

  abbrev pub fail : Fault → Cmd S A
  fail e = λ _. fault e

  module _ {B : Type 0} where
    abbrev pub and_then : Run S A → (A → Cmd S B) → Run S B
    and_then (ok a s) k = k a s
    and_then (fault e) k = fault e

    infixl 5 ◌>>=◌ ◌>>◌
    abbrev pub ◌>>=◌ : Cmd S A → (A → Cmd S B) → Cmd S B
    m >>= k = λ s. and_then (m s) k

    abbrev pub ◌>>◌ : Cmd S A → Cmd S B → Cmd S B
    m >> k = m >>= λ _. k

  -- Total correctness of a run: it ends without a fault, and the result satisfies `P`.
  pub data Returns (P : A → S → Type 0) : Run S A → Type 0 where
    returns : {a : A} {s : S} → P a s → Returns P (ok a s)

-- A command over a part of the state.
module _ {S T A : Type 0} where
  abbrev pub put_back : (T → S → S) → S → Run T A → Run S A
  put_back put s (ok a t) = ok a (put t s)
  put_back put s (fault e) = fault e

  abbrev pub on_part : (S → T) → (T → S → S) → Cmd T A → Cmd S A
  on_part get put m = λ s. put_back put s (m (get s))

-- The rules for a bind and for a weaker postcondition.
module _ {S A : Type 0} {P : A → S → Type 0} where
  pub Returns-bind :
      {B : Type 0} {Q : B → S → Type 0} {r : Run S A} {k : A → Cmd S B}
      → Returns P r
      → ((a : A) (s : S) → P a s → Returns Q (k a s))
      → Returns Q (and_then r k)
  Returns-bind (returns p) next = next _ _ p

  pub Returns-mono :
      {Q : A → S → Type 0} {r : Run S A}
      → Returns P r
      → ((a : A) (s : S) → P a s → Q a s)
      → Returns Q r
  Returns-mono (returns p) weaken = returns (weaken _ _ p)

  pub Returns-part :
      {T : Type 0} {Q : A → T → Type 0} (put : S → T → T) (w : T) {r : Run S A}
      → Returns P r
      → ((a : A) (s : S) → P a s → Q a (put s w))
      → Returns Q (put_back put w r)
  Returns-part put w (returns p) weaken = returns (weaken _ _ p)

  -- A run that returns gives its value and its state.
  pub returned : {r : Run S A} → Returns P r → (a : A) × (s : S) × (r ≡ ok a s) × P a s
  returned (returns {a} {s} p) = (a, s, refl, p)

-- What a run that returns has to satisfy.
abbrev Holds : {S A : Type 0} → (A → S → Type 0) → Run S A → Type 0
Holds P (ok a s) = P a s
Holds P (fault e) = ⊥

holds : {S A : Type 0} {Q : A → S → Type 0} {r : Run S A} → Returns Q r → Holds Q r
holds (returns q) = q

-- What a run that returns ends in satisfies its postcondition.
pub ended :
    {S A : Type 0} {P : A → S → Type 0} {r : Run S A} {a : A} {s : S}
    → Returns P r
    → r ≡ ok a s
    → P a s
ended {P = P} h e = subst (Holds P) e (holds h)

-- Two postconditions of one run.
pub Returns-both :
    {S A : Type 0} {P Q : A → S → Type 0} {r : Run S A}
    → Returns P r
    → Returns Q r
    → Returns (λ a s. P a s × Q a s) r
Returns-both (returns p) k = returns (p, holds k)
