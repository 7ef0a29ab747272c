-- ===== src/Base/Loops.antt =====
-- Loops whose steps can fail, and what holds of their results.
use mathlib.Core.Path.{◌≡◌, refl}
use mathlib.Core.Bool.{Bool, false, ◌||◌}
use mathlib.Core.List.{List, [], ◌∷◌}
use native.Mathlib.Omega.{arith}
use Prim.Native.String.{String}
use instnt_aries_vcx.Base.Outcome.{Result, ok, err, Action, pure, continue, ◌>>=◌, Ensures, Returns}
use instnt_aries_vcx.Base.Maps.{Map, contains_key}

-- `for a in as { .. }` over a state
module _ {W E A S : Type 0} where
  unfoldable pub for_each : (A → S → Action W E S) → List A → S → Action W E S
  for_each step [] s = pure s
  for_each step (a ∷ as_) s = step a s >>= λ s'. for_each step as_ s'

module _ {E A : Type 0} where
  pub weaken-Ensures :
      (P Q : A → Type 0) (r : Result E A) → Ensures P r → ((a : A) → P a → Q a) → Ensures Q r
  weaken-Ensures P Q (ok a) p f = f a p
  weaken-Ensures P Q (err e) p f = tt

  pub weaken-Returns :
      (P Q : A → Type 0) (r : Result E A) → Returns P r → ((a : A) → P a → Q a) → Returns Q r
  weaken-Returns P Q (ok a) p f = f a p
  weaken-Returns P Q (err e) p f = elim p [ ]

module _ {E A P : Type 0} where
  pub const-Ensures : (r : Result E A) → P → Ensures (λ _. P) r
  const-Ensures (ok a) p = p
  const-Ensures (err e) p = tt

module _ {W E A B : Type 0} (P : A → Type 0) (Q : B → Type 0) where
  continue-Ensures :
      (r : Result E A) (f : A → Action W E B) (w : W)
      → Ensures P r
      → ((a : A) → P a → Ensures Q (f a w).0)
      → Ensures Q (continue r f w).0
  continue-Ensures (ok a) f w p step = step a p
  continue-Ensures (err e) f w p step = tt

  -- What every result of a step brings about holds for what follows it.
  pub next-Ensures :
      (m : Action W E A) (f : A → Action W E B) (w : W)
      → Ensures P (m w).0
      → ((a : A) (w' : W) → P a → Ensures Q (f a w').0)
      → Ensures Q ((m >>= f) w).0
  next-Ensures m f w p step = continue-Ensures (m w).0 f (m w).1 p (λ a. step a (m w).1)

module _ {A : Type 0} (names : A → String → Bool) where
  unfoldable pub any_names : List A → String → Bool
  any_names [] i = false
  any_names (a ∷ as_) i = names a i || any_names as_ i

then_more : (x a b c y : Bool) → x ≡ (b || y) → y ≡ (a || c) → x ≡ ((a || b) || c)
then_more x a b c y p q = ground (arith, p, q)

or_false : (x a : Bool) → x ≡ (a || false) → x ≡ a
or_false x a p = ground (arith, p)

-- A loop that adds to a map, at each step, what the thing of the step names.
module _ {B : Type 0} (i : String) where
  abbrev Adds : Map B → Bool → Map B → Type 0
  Adds m named m' = contains_key i m' ≡ (named || contains_key i m)

module _ {W E A B : Type 0} (names : A → String → Bool) (i : String) where
  -- The loop adds what all its things name, and nothing else.
  pub for_each-names :
      (step : A → Map B → Action W E (Map B))
      → ((a : A) (m : Map B) (w : W) → Ensures (Adds i m (names a i)) (step a m w).0)
      → (as_ : List A) (m : Map B) (w : W)
      → Ensures (Adds i m (any_names names as_ i)) (for_each step as_ m w).0
  unfolding for_each any_names
  for_each-names step h [] m w = refl
  for_each-names step h (a ∷ as_) m w =
      next-Ensures (Adds i m (names a i)) (Adds i m (names a i || any_names names as_ i)) (step a m)
        (λ s. for_each step as_ s) w (h a m w)
        (λ s w' p.
          weaken-Ensures (Adds i s (any_names names as_ i))
            (Adds i m (names a i || any_names names as_ i)) (for_each step as_ s w').0
            (for_each-names step h as_ s w')
            (λ m' q.
              then_more (contains_key i m') (names a i) (any_names names as_ i) (contains_key i m)
                (contains_key i s) q p))

  pub for_each-all_names :
      (step : A → Map B → Action W E (Map B))
      → ((a : A) (m : Map B) (w : W) → Ensures (Adds i m (names a i)) (step a m w).0)
      → (as_ : List A) (w : W)
      → Ensures (λ m. contains_key i m ≡ any_names names as_ i) (for_each step as_ [] w).0
  unfolding contains_key
  for_each-all_names step h as_ w =
      weaken-Ensures (Adds i [] (any_names names as_ i))
        (λ m. contains_key i m ≡ any_names names as_ i) (for_each step as_ [] w).0
        (for_each-names step h as_ [] w)
        (λ m p. or_false (contains_key i m) (any_names names as_ i) p)
