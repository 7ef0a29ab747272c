-- ===== src/Samples/Split.antt =====
-- Splitting a text at each "::", as `str::split` does.
use Prim.Native.Char.{Char, char, code}
use Prim.Native.String.{◌++◌}
use Prim.Native.String.append.{nil, cons}
use instnt_aries_vcx.Base.{
  ℕ, zero, suc, String, ◌≡◌, refl, sym, ap, ◌∙◌, Bool, true, false, ◌&&◌, List, [], ◌∷◌, nat_eq,
  arith,
}
use instnt_aries_vcx.Samples.Unary.{before}

abbrev is_colon : Char → Bool
is_colon c = nat_eq (code c) 58

abbrev push : Char → List String → List String
push c [] = []
push c (t ∷ ts) = String.◌∷◌ c t ∷ ts

abbrev pub cut : String → List String
cut String.[] = "" ∷ []
cut (String.◌∷◌ c String.[]) = String.◌∷◌ c "" ∷ []
cut (String.◌∷◌ c (String.◌∷◌ d s)) = elim (is_colon c && is_colon d) [
  | true ↦ "" ∷ cut s
  | false ↦ push c (cut (String.◌∷◌ d s))
]

push-inverse :
    (c : Char) (t : String) (ts : List String) → push c ts ≡ String.◌∷◌ c t ∷ [] → ts ≡ t ∷ []
push-inverse c t [] h = ground arith
push-inverse c t (u ∷ us) h = ground (arith, h)

abbrev colon : Char
colon = char 58 tt

cons_append : (c : Char) (s t : String) → String.◌∷◌ c s ++ t ≡ String.◌∷◌ c (s ++ t)
cons_append c s t = λ i. cons c s t i

nil_append : (t : String) → "" ++ t ≡ t
nil_append t = λ i. nil t i

colons_append : (b : String) → "::" ++ b ≡ String.◌∷◌ colon (String.◌∷◌ colon b)
colons_append b =
    cons_append colon ":" b
    ∙ ap (String.◌∷◌ colon) (cons_append colon "" b ∙ ap (String.◌∷◌ colon) (nil_append b))

abbrev starts_empty : List String → Bool
starts_empty (String.[] ∷ _) = true
starts_empty _ = false

cut_step :
    (t : Bool) (c d : Char) (p q s b : String)
    → elim t [ true ↦ "" ∷ cut p | false ↦ push c (cut (String.◌∷◌ d p)) ]
      ≡ String.◌∷◌ c (String.◌∷◌ d p) ∷ []
    → (cut (String.◌∷◌ d p) ≡ String.◌∷◌ d p ∷ [] → cut (String.◌∷◌ d q) ≡ String.◌∷◌ d s ∷ cut b)
    → elim t [ true ↦ "" ∷ cut q | false ↦ push c (cut (String.◌∷◌ d q)) ]
      ≡ String.◌∷◌ c (String.◌∷◌ d s) ∷ cut b
cut_step true c d p q s b h more = let e : true ≡ false = ap starts_empty h in cc
cut_step false c d p q s b h more =
    ap (push c) (more (push-inverse c (String.◌∷◌ d p) (cut (String.◌∷◌ d p)) h))

-- An equation about the pieces of a text, at another writing of the text.
rewritten : {s t : String} → s ≡ t → cut s ≡ s ∷ [] → cut t ≡ t ∷ []
rewritten e h = sym (ap cut e) ∙ h ∙ ap (λ t. t ∷ []) e

two_append :
    (c d : Char) (s t : String)
    → String.◌∷◌ c (String.◌∷◌ d s) ++ t ≡ String.◌∷◌ c (String.◌∷◌ d (s ++ t))
two_append c d s t = cons_append c (String.◌∷◌ d s) t ∙ ap (String.◌∷◌ c) (cons_append d s t)

-- The law, where the colons are written out.
cut_lem :
    (a b : String)
    → cut (a ++ ":") ≡ (a ++ ":") ∷ []
    → cut (a ++ String.◌∷◌ colon (String.◌∷◌ colon b)) ≡ a ∷ cut b
cut_lem String.[] b h = rw (nil_append (String.◌∷◌ colon (String.◌∷◌ colon b))) refl
cut_lem (String.◌∷◌ c String.[]) b h = ground (
  arith,
  h,
  cons_append c "" ":",
  nil_append ":",
  cons_append c "" (String.◌∷◌ colon (String.◌∷◌ colon b)),
  nil_append (String.◌∷◌ colon (String.◌∷◌ colon b)),
)
cut_lem (String.◌∷◌ c (String.◌∷◌ d s)) b h =
    let tail = String.◌∷◌ colon (String.◌∷◌ colon b) in
    ap cut (two_append c d s tail)
    ∙ cut_step (is_colon c && is_colon d) c d (s ++ ":") (s ++ tail) s b
        (rewritten (two_append c d s ":") h)
        (λ k.
          ap cut (sym (cons_append d s tail))
          ∙ cut_lem (String.◌∷◌ d s) b (rewritten (sym (cons_append d s ":")) k))

pub cut-append :
    (a b : String) → cut (a ++ ":") ≡ (a ++ ":") ∷ [] → cut (a ++ ("::" ++ b)) ≡ a ∷ cut b
cut-append a b h = ap (λ t. cut (a ++ t)) (colons_append b) ∙ cut_lem a b h

pub cut-before : (n : ℕ) → cut (before n "") ≡ before n "" ∷ []
cut-before zero = refl
cut-before (suc zero) = refl
cut-before (suc (suc n)) = rw (cut-before (suc n)) refl
