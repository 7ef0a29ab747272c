-- ===== src/Samples/Decode.antt =====
-- The way back from the numbers of a text's characters to the text.
use Prim.Native.Nat.{Ordering, compare}
use Prim.Native.Char.{Char, char, code, IsLt, IsScalar}
use instnt_aries_vcx.Base.{ℕ, String, ◌≡◌, refl, Option, none, some, List, [], ◌∷◌}

abbrev is_lt : (o : Ordering) → Option (IsLt o)
is_lt Ordering.lt = some tt
is_lt _ = none

-- `IsScalar n` is a shape of three comparisons.
abbrev BothLt : Ordering → Ordering → Type 0
BothLt Ordering.lt o = IsLt o
BothLt Ordering.eq _ = ⊥
BothLt Ordering.gt _ = ⊥

abbrev Shape : Ordering → Ordering → Ordering → Type 0
Shape Ordering.lt _ _ = Unit
Shape Ordering.eq o p = BothLt o p
Shape Ordering.gt o p = BothLt o p

abbrev both_lt : (o p : Ordering) → Option (BothLt o p)
both_lt Ordering.lt p = is_lt p
both_lt Ordering.eq p = none
both_lt Ordering.gt p = none

abbrev shape : (o p q : Ordering) → Option (Shape o p q)
shape Ordering.lt p q = some tt
shape Ordering.eq p q = both_lt p q
shape Ordering.gt p q = both_lt p q

abbrev char_with : (n : ℕ) → Option (IsScalar n) → Option Char
char_with n none = none
char_with n (some p) = some (char n p)

abbrev char_of : ℕ → Option Char
char_of n = char_with n (shape (compare n 55296) (compare 57343 n) (compare n 1114112))

lt-IsLt : (o : Ordering) (p : IsLt o) → is_lt o ≡ some p
lt-IsLt Ordering.lt p = refl
lt-IsLt Ordering.eq p = elim p [ ]
lt-IsLt Ordering.gt p = elim p [ ]

both_lt-BothLt : (o q : Ordering) (p : BothLt o q) → both_lt o q ≡ some p
both_lt-BothLt Ordering.lt q p = lt-IsLt q p
both_lt-BothLt Ordering.eq q p = elim p [ ]
both_lt-BothLt Ordering.gt q p = elim p [ ]

shape-Shape : (o q r : Ordering) (p : Shape o q r) → shape o q r ≡ some p
shape-Shape Ordering.lt q r p = refl
shape-Shape Ordering.eq q r p = both_lt-BothLt q r p
shape-Shape Ordering.gt q r p = both_lt-BothLt q r p

char_of-code : (c : Char) → char_of (code c) ≡ some c
char_of-code (char n p) =
    let h = shape-Shape (compare n 55296) (compare 57343 n) (compare n 1114112) p in
    λ i. char_with n (h i)

abbrev pub as_bytes : String → List ℕ
as_bytes String.[] = []
as_bytes (String.◌∷◌ c s) = code c ∷ as_bytes s

abbrev cons_text : Option Char → Option String → Option String
cons_text (some c) (some s) = some (String.◌∷◌ c s)
cons_text _ _ = none

abbrev pub from_utf8 : List ℕ → Option String
from_utf8 [] = some ""
from_utf8 (n ∷ ns) = cons_text (char_of n) (from_utf8 ns)

pub from_utf8-as_bytes : (text : String) → from_utf8 (as_bytes text) ≡ some text
from_utf8-as_bytes String.[] = refl
from_utf8-as_bytes (String.◌∷◌ c s) = rw (char_of-code c) (rw (from_utf8-as_bytes s))
