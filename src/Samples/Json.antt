-- ===== src/Samples/Json.antt =====
-- JSON values with which the examples compute, and the two presentations that they read: one whose
-- revealed attribute has its encoding, and one whose attribute has another.
use instnt_aries_vcx.Base.{String, Option, none, some, List, [], ◌∷◌, ◌==◌, if◌then◌else◌, Map}
use instnt_aries_vcx.Query.Json.{
  JsonValue, null, string, array, object, Items, last, item, Fields, end, field,
}

abbrev find : String → Fields → Option JsonValue
find k end = none
find k (field j v rest) = if j == k then some v else find k rest

abbrev pub get : JsonValue → String → Option JsonValue
get (object fields) k = find k fields
get _ k = none

abbrev pub index : JsonValue → String → JsonValue
index v k = elim (get v k) [ none ↦ null | some w ↦ w ]

abbrev pub as_str : JsonValue → Option String
as_str (string t) = some t
as_str _ = none

abbrev items : Items → List JsonValue
items last = []
items (item v rest) = v ∷ items rest

abbrev pub as_array : JsonValue → Option (List JsonValue)
as_array (array vs) = some (items vs)
as_array _ = none

abbrev entries : Fields → Map JsonValue
entries end = []
entries (field k v rest) = (k, v) ∷ entries rest

abbrev pub as_object : JsonValue → Option (Map JsonValue)
as_object (object fields) = some (entries fields)
as_object _ = none

abbrev fields_of : Map JsonValue → Fields
fields_of [] = end
fields_of ((k, v) ∷ rest) = field k v (fields_of rest)

abbrev pub object_of : Map JsonValue → JsonValue
object_of m = object (fields_of m)

abbrev pub text_of : JsonValue → String
text_of (string t) = t
text_of _ = "{}"

abbrev identifier : JsonValue
identifier = object (
    field "schema_id" (string "s")
      (field "cred_def_id" (string "d") (field "rev_reg_id" (string "g") end)))

abbrev revealing : String → JsonValue
revealing encoded = object (field "raw" (string "1") (field "encoded" (string encoded) end))

abbrev presentation : JsonValue → JsonValue
presentation info = object (
    field "requested_proof" (object (field "revealed_attrs" (object (field "a" info end)) end))
      (field "identifiers" (array (item identifier last)) end))

abbrev pub revealed : String → Map JsonValue
revealed encoded = ("a", revealing encoded) ∷ []

abbrev pub parse : String → JsonValue
parse text =
    if text == "p"
    then presentation (revealing "b")
    else if text == "x"
    then presentation (revealing "2")
    else string text
