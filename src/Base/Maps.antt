-- ===== src/Base/Maps.antt =====
-- Maps from texts, as association lists in the order in which the map iterates.
use mathlib.Core.Path.{◌≡◌, refl}
use mathlib.Core.Bool.{Bool, true, false, ◌||◌}
use mathlib.Core.Option.{Option, none, some}
use mathlib.Core.List.{List, [], ◌∷◌}
use native.Mathlib.Omega.{arith}
use text.Mathlib.TextEquality.{eq_iff}
use text.Mathlib.TextPositions.{eq_refl}
use Prim.Native.String.{String}
use instnt_aries_vcx.Base.Tests.{◌==◌, if◌then◌else◌, is_some}

abbrev pub Map : Type 0 → Type 0
Map A = List (String × A)

same_key : (j k i : String) → (j == k) ≡ true → (j == i) ≡ (k == i)
same_key j k i h = rw ((eq_iff j k).0 h) refl

same_right : (j k i : String) → (k == i) ≡ true → (j == k) ≡ (j == i)
same_right j k i h = rw ((eq_iff k i).0 h) refl

module _ {A : Type 0} where
  unfoldable pub lookup : String → Map A → Option A
  lookup k [] = none
  lookup k ((j, a) ∷ m) = let rest = lookup k m in if j == k then some a else rest

  unfoldable pub contains_key : String → Map A → Bool
  contains_key k [] = false
  contains_key k ((j, a) ∷ m) = (j == k) || contains_key k m

  -- The value of a key that is there is replaced.
  unfoldable pub insert : String → A → Map A → Map A
  insert k a [] = (k, a) ∷ []
  insert k a ((j, b) ∷ m) = let rest = insert k a m in if j == k then (k, a) ∷ m else (j, b) ∷ rest

  pub contains_key-lookup : (k : String) (m : Map A) → contains_key k m ≡ is_some (lookup k m)
  unfolding lookup contains_key
  contains_key-lookup k [] = refl
  contains_key-lookup k ((j, a) ∷ m) = ground (arith, contains_key-lookup k m)

  pub lookup-insert : (k : String) (a : A) (m : Map A) → lookup k (insert k a m) ≡ some a
  unfolding lookup insert
  lookup-insert k a [] = ground (arith, eq_refl k)
  lookup-insert k a ((j, b) ∷ m) = ground (arith, eq_refl k, lookup-insert k a m)

  pub lookup-inserted :
      (i k : String) (a : A) (m : Map A)
      → lookup i (insert k a m) ≡ (if k == i then some a else lookup i m)
  unfolding lookup insert
  lookup-inserted i k a [] = refl
  lookup-inserted i k a ((j, b) ∷ m) =
      ground (arith, lookup-inserted i k a m, same_key j k i, same_right j k i)

  pub contains_key-insert :
      (i k : String) (a : A) (m : Map A)
      → contains_key i (insert k a m) ≡ ((k == i) || contains_key i m)
  unfolding contains_key insert
  contains_key-insert i k a [] = refl
  contains_key-insert i k a ((j, b) ∷ m) =
      ground (arith, contains_key-insert i k a m, same_key j k i)

  pub contains_key-equal :
      (i k : String) (m : Map A) → (k == i) ≡ true → contains_key k m ≡ contains_key i m
  contains_key-equal i k m h = rw ((eq_iff k i).0 h) refl

  pub contains_same :
      (i k : String) (m : Map A)
      → contains_key k m ≡ true
      → contains_key i m ≡ ((k == i) || contains_key i m)
  unfolding contains_key
  contains_same i k [] h = ground (arith, h)
  contains_same i k ((j, a) ∷ m) h =
      ground (arith, contains_same i k m, same_key j k i, same_key k i j, eq_refl i)

  -- Keys that are there keep their values when another is added.
  pub lookup-insert_new :
      (i k : String) (a b : A) (m : Map A)
      → contains_key k m ≡ false
      → lookup i m ≡ some b
      → lookup i (insert k a m) ≡ some b
  unfolding lookup contains_key insert
  lookup-insert_new i k a b [] h found = ground (arith, found)
  lookup-insert_new i k a b ((j, c) ∷ m) h found = ground (arith, lookup-insert_new i k a b m)
