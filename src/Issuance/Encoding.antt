-- ===== src/Issuance/Encoding.antt =====
-- aries/aries_vcx/src/common/credentials/encoding.rs, and `encode` of utils/openssl.rs: the values
-- of a credential with the numbers that are signed. The dictionary, a `HashMap`, is an association list;
-- the order in which it iterates is drawn when it is printed. The `raw` of a JSON string is its text.
use Prim.Native.String.{◌++◌}
use instnt_aries_vcx.Base.{
  Map, insert, ℕ, String, ◌≡◌, refl, ◌<◌, Option, none, some, List, [], ◌∷◌, first, ok_or, map_err,
  and_then, Result, ok, err, lift, throw, on_result, ◌>>=◌, arith,
}
use Prim.Native.Nat.{◌^◌}
use instnt_aries_vcx.Errors.{VcxResult, from_msg, fail, invalid_json, invalid_attributes_structure}
use instnt_aries_vcx.Runtime.{Runtime, Vcx, Decimal, AttributeValues}

abbrev pub Dictionary : Type 0
Dictionary = Map AttributeValues

module _ (R : Runtime) where
  open R use {World, Value, Fault}

  abbrev encoded_as : String → Result Fault ℕ → VcxResult String
  encoded_as s (ok n) = ok (R.u32_to_string n)
  encoded_as s (err e) = ok (R.decimal_of_bytes (R.sha256 (R.as_bytes s)))

  unfoldable pub encode : String → VcxResult String
  encode s = encoded_as s (R.parse_u32 s)

  -- `array_type.first().and_then(Value::as_str)`
  abbrev first_text : Option Value → Option String
  first_text none = none
  first_text (some v) = R.value_as_str v

  abbrev in_array : Option (List Value) → VcxResult String
  in_array (some values) =
      ok_or (first_text (first values))
        (from_msg invalid_attributes_structure "Attribute value not found")
  in_array none = fail invalid_json "Invalid Json for Attribute data"

  -- `match attr_data { String(..) => .., Array(..) => .., _ => .. }`
  abbrev first_attr : Option String → Option (List Value) → VcxResult String
  first_attr (some text) _ = ok text
  first_attr none values = in_array values

  -- The loop over a map.
  unfoldable pub encode_map : List (String × Value) → Dictionary → VcxResult Dictionary
  encode_map [] d = ok d
  encode_map ((attr, v) ∷ rest) d =
      and_then (first_attr (R.value_as_str v) (R.value_as_array v)) λ text.
        and_then (encode text)
          λ encoded. encode_map rest (insert attr (record { raw = text; encoded = encoded }) d)

  abbrev field : Value → String → VcxResult Value
  field cred_value name = ok_or (R.value_get cred_value name) (
      from_msg invalid_attributes_structure
        ("No '" ++ (name ++ ("' field in cred_value: " ++ R.debug_value cred_value))))

  abbrev text_or : Option String → String → VcxResult String
  text_or text msg = ok_or text (from_msg invalid_attributes_structure msg)

  -- The loop over a list of objects with a `name` and a `value`.
  unfoldable pub encode_values : List Value → Dictionary → VcxResult Dictionary
  encode_values [] d = ok d
  encode_values (c ∷ rest) d = and_then (field c "name") λ name. and_then (field c "value") λ value.
      and_then
        (text_or (R.value_as_str value)
          ("Failed to convert value " ++ (R.debug_value value ++ " to string")))
        λ text. and_then (encode text) λ encoded.
          and_then
            (text_or (R.value_as_str name)
              ("Failed to convert attribute name " ++ (R.debug_value c ++ " to string")))
            λ key. encode_values rest (insert key (record { raw = text; encoded = encoded }) d)

  abbrev pub printed : VcxResult Dictionary → Vcx R String
  printed made = lift made >>= λ d. λ w.
      let (r, w') = R.dictionary_to_string d w in
      (
        map_err (λ e. from_msg invalid_json ("Invalid Json for Attribute data: " ++ R.display e)) r,
        w',
      )

  abbrev encode_list : Result Fault (List Value) → Vcx R String
  encode_list (ok values) = printed (encode_values values [])
  encode_list (err e) =
      throw
        (from_msg invalid_attributes_structure ("Attribute value not found: " ++ R.debug_fault e))

  unfoldable pub encode_attributes : String → Vcx R String
  encode_attributes attributes =
      on_result (R.map_from_str attributes) (λ pairs. printed (encode_map pairs []))
        (λ _. encode_list (R.vec_from_str attributes))

  -- A map whose values are texts, and a list of objects with the same names and texts in its order.
  pub data SameTexts : List (String × Value) → List Value → Type 0 where
    none_left : SameTexts [] []
    same :
        {k t : String} {v c n v' : Value} {m : List (String × Value)} {cs : List Value}
        → R.value_as_str v ≡ some t
        → R.value_get c "name" ≡ some n
        → R.value_as_str n ≡ some k
        → R.value_get c "value" ≡ some v'
        → R.value_as_str v' ≡ some t
        → SameTexts m cs
        → SameTexts ((k, v) ∷ m) (c ∷ cs)

  encode_map-encode_values :
      {m : List (String × Value)} {cs : List Value} (d : Dictionary)
      → SameTexts m cs
      → encode_map m d ≡ encode_values cs d
  unfolding encode_map encode_values encode
  encode_map-encode_values d none_left = refl
  encode_map-encode_values d (same {k} {t} {v} a b e f g s) =
      grind (arith, a, b, e, f, g, λ (d' : Dictionary). encode_map-encode_values d' s)

  -- Both encodings print one dictionary, each in an order of its own, or both give one error.
  abbrev pub PrintSame : String × World → String × World → World × World → Type 0
  PrintSame (as_map, w) (as_list, v) (w', v') =
      (made : VcxResult Dictionary) × (encode_attributes as_map w ≡ printed made w')
      × (encode_attributes as_list v ≡ printed made v')

  -- The two ways to write the attributes of a credential, as a map from names to texts or as a list
  -- of objects with a name and a value, where the list has the same names and texts in the order in
  -- which the map iterates: both runs make the same dictionary and print it, each in an order of its
  -- own, or they fail with the same error.
  pub styles_agree :
      (as_map as_list : String) (m : List (String × Value)) (cs : List Value) (e : Fault)
      (w w' v v' : World)
      → R.map_from_str as_map w ≡ (ok m, w')
      → R.map_from_str as_list v ≡ (err e, v')
      → R.vec_from_str as_list ≡ ok cs
      → SameTexts m cs
      → PrintSame (as_map, w) (as_list, v) (w', v')
  unfolding encode_attributes
  styles_agree as_map as_list m cs e w w' v v' is_map no_map is_list s =
      (encode_map m [], rw is_map refl, rw (no_map, is_list, encode_map-encode_values [] s) refl)

  -- A number that is written as `to_string` writes it is its own encoding.
  pub encode_number :
      (dec : Decimal R) (n : ℕ) → n < 2 ^ 32 → encode (R.u32_to_string n) ≡ ok (R.u32_to_string n)
  unfolding encode
  encode_number dec n small = rw (dec.parse-to_string n small) refl
