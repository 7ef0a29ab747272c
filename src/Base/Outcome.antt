-- ===== src/Base/Outcome.antt =====
-- `Result` of the source, and the actions of code that draws identifiers, reads the clock, or calls
-- the wallet, the ledger and the anoncreds library: functions of a state of the outside world.

use mathlib.Core.Bool.{Bool, true, false}
use mathlib.Core.Option.{Option, none, some}

pub data Result {ℓ κ} (E : Type ℓ) (A : Type κ) : Type (ℓ ⊔ κ) where
  ok : A → Result E A
  err : E → Result E A

module _ {ℓ κ} {E : Type ℓ} {A : Type κ} where
  -- `o.ok_or(e)`
  abbrev pub ok_or : Option A → E → Result E A
  ok_or none e = err e
  ok_or (some a) e = ok a

module _ {E F A : Type 0} where
  -- `r.map_err(f)`
  abbrev pub map_err : (E → F) → Result E A → Result F A
  map_err f (ok a) = ok a
  map_err f (err e) = err (f e)

-- `r?` in code without effects.
module _ {E A B : Type 0} where
  abbrev pub and_then : Result E A → (A → Result E B) → Result E B
  and_then (ok a) f = f a
  and_then (err e) f = err e

-- An action that cannot fail.
abbrev pub Effect : Type 0 → Type 0 → Type 0
Effect W A = W → A × W

-- An action that can fail; what it did before the failure stays done.
abbrev pub Action : Type 0 → Type 0 → Type 0 → Type 0
Action W E A = W → Result E A × W

module _ {W E A : Type 0} where
  abbrev pub pure : A → Action W E A
  pure a w = (ok a, w)

  abbrev pub throw : E → Action W E A
  throw e w = (err e, w)

  abbrev pub lift : Result E A → Action W E A
  lift r w = (r, w)

  abbrev pub perform : Effect W A → Action W E A
  perform m w = let (a, w') = m w in (ok a, w')

module _ {W E A B : Type 0} where
  abbrev pub continue : Result E A → (A → Action W E B) → Action W E B
  continue (ok a) f w = f a w
  continue (err e) f w = (err e, w)

  infixl 5 ◌>>=◌ ◌>>◌
  abbrev pub ◌>>=◌ : Action W E A → (A → Action W E B) → Action W E B
  ◌>>=◌ m f w = let (r, w') = m w in continue r f w'

  abbrev pub ◌>>◌ : Action W E A → Action W E B → Action W E B
  ◌>>◌ m k w = let (r, w') = m w in continue r (λ _. k) w'

-- `match m.await { Ok(..) => .., Err(..) => .. }`
module _ {W E F A B : Type 0} where
  abbrev pub branch : Result E A → (A → Action W F B) → (E → Action W F B) → Action W F B
  branch (ok a) f g = f a
  branch (err e) f g = g e

  abbrev pub on_result : Action W E A → (A → Action W F B) → (E → Action W F B) → Action W F B
  on_result m f g w = let (r, w') = m w in branch r f g w'

module _ {E A : Type 0} where
  -- Every successful result satisfies `P`.
  abbrev pub Ensures : (A → Type 0) → Result E A → Type 0
  Ensures P (ok a) = P a
  Ensures P (err e) = Unit

  -- There is a result, and it satisfies `P`.
  abbrev pub Returns : (A → Type 0) → Result E A → Type 0
  Returns P (ok a) = P a
  Returns P (err e) = ⊥

  -- There is an error, and it satisfies `P`.
  abbrev pub Fails : (E → Type 0) → Result E A → Type 0
  Fails P (ok a) = ⊥
  Fails P (err e) = P e

module _ {ℓ κ} {E : Type ℓ} {A : Type κ} where
  abbrev pub is_ok : Result E A → Bool
  is_ok (ok _) = true
  is_ok (err _) = false
