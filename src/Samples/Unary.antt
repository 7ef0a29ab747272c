-- ===== src/Samples/Unary.antt =====
-- Lists of numbers as texts: each number in unary, with a mark behind it.
use Prim.Native.Nat.{zero, suc}
use Prim.Native.Char.{Char, char, code}
use instnt_aries_vcx.Base.{
  ℕ, String, ◌≡◌, refl, Option, none, some, List, [], ◌∷◌, nat_eq, if◌then◌else◌,
}

abbrev stroke : Char
stroke = char 97 tt

abbrev mark : Char
mark = char 98 tt

abbrev pub before : ℕ → String → String
before zero rest = String.◌∷◌ mark rest
before (suc n) rest = String.◌∷◌ stroke (before n rest)

abbrev pub encode : List ℕ → String
encode [] = ""
encode (n ∷ ns) = before n (encode ns)

abbrev bump : Option (List ℕ) → Option (List ℕ)
bump (some (n ∷ ns)) = some (suc n ∷ ns)
bump _ = none

abbrev push : Option (List ℕ) → Option (List ℕ)
push (some ns) = some (zero ∷ ns)
push none = none

abbrev pub decode : String → Option (List ℕ)
decode String.[] = some []
decode (String.◌∷◌ c s) = let rest = decode s in if nat_eq (code c) 97 then bump rest else push rest

decode-before :
    (n : ℕ) (s : String) (ns : List ℕ) → decode s ≡ some ns → decode (before n s) ≡ some (n ∷ ns)
decode-before zero s ns h = rw h
decode-before (suc n) s ns h = rw (decode-before n s ns h)

pub decode-encode : (ns : List ℕ) → decode (encode ns) ≡ some ns
decode-encode [] = refl
decode-encode (n ∷ ns) = decode-before n (encode ns) ns (decode-encode ns)
