-- ===== src/Query/Json.antt =====
-- How a query is written as JSON and read back: `to_value`, the `parse_` functions and
-- `Deserialize for Query`. An object is its fields in the order of the map.
use instnt_aries_vcx.Base.{
  String, Bool, true, false, ◌==◌, if◌then◌else◌, Option, none, some, List, [], ◌∷◌, Result, ok,
  err, and_then,
}
use instnt_aries_vcx.Query.Defs.{
  AbstractQuery, and, or, eq, neq, gt, gte, lt, lte, like, in_, exist, Query, Queries, nil, cons,
}

mutual
  pub data JsonValue : Type 0 where
    null : JsonValue
    bool : Bool → JsonValue
    number : String → JsonValue
    string : String → JsonValue
    array : Items → JsonValue
    object : Fields → JsonValue

  pub data Items : Type 0 where
    last : Items
    item : JsonValue → Items → Items

  pub data Fields : Type 0 where
    end : Fields
    field : String → JsonValue → Fields → Fields

abbrev pub strings : List String → Items
strings [] = last
strings (s ∷ ss) = item (string s) (strings ss)

abbrev pub test : String → String → JsonValue → Fields
test key name value = field key (object (field name value end)) end

-- The fields of `to_value`, for text keys and values.
unfoldable mutual
  pub to_fields : Query → Fields
  to_fields (eq k v) = field k (string v) end
  to_fields (neq k v) = test k "$neq" (string v)
  to_fields (gt k v) = test k "$gt" (string v)
  to_fields (gte k v) = test k "$gte" (string v)
  to_fields (lt k v) = test k "$lt" (string v)
  to_fields (lte k v) = test k "$lte" (string v)
  to_fields (like k v) = test k "$like" (string v)
  to_fields (in_ k vs) = test k "$in" (array (strings vs))
  to_fields (exist ks) = field "$exist" (array (strings ks)) end
  to_fields (and nil) = end
  to_fields (and qs) = field "$and" (array (to_values qs)) end
  to_fields (or nil) = end
  to_fields (or qs) = field "$or" (array (to_values qs)) end
  to_fields (AbstractQuery.not q) = field "$not" (object (to_fields q)) end

  pub to_values : Queries String String → Items
  to_values nil = last
  to_values (cons q qs) = item (object (to_fields q)) (to_values qs)

abbrev pub to_value : Query → JsonValue
to_value q = object (to_fields q)

-- The keys that the first `match` of `parse_operator` knows.
pub data Key : Type 0 where
  and_key or_key not_key exist_key name_key : Key

abbrev pub key_of : String → Key
key_of k =
    if k == "$and"
    then and_key
    else if k == "$or"
    then or_key
    else if k == "$not"
    then not_key
    else if k == "$exist"
    then exist_key
    else name_key

abbrev pub Parsed : Type 0 → Type 0
Parsed A = Result String A

-- The loop over an array that must hold texts.
abbrev pub texts_or : String → Items → Parsed (List String)
texts_or e last = ok []
texts_or e (item (string s) rest) = and_then (texts_or e rest) λ ss. ok (s ∷ ss)
texts_or e (item _ rest) = err e

-- The operators that `parse_single_operator` knows.
pub data Operator : Type 0 where
  neq_op gt_op gte_op lt_op lte_op like_op in_op unknown_op : Operator

abbrev pub operator_of : String → Operator
operator_of k =
    if k == "$neq"
    then neq_op
    else if k == "$gt"
    then gt_op
    else if k == "$gte"
    then gte_op
    else if k == "$lt"
    then lt_op
    else if k == "$lte"
    then lte_op
    else if k == "$like"
    then like_op
    else if k == "$in"
    then in_op
    else unknown_op

abbrev single : Operator → String → JsonValue → Parsed Query
single neq_op k (string v) = ok (neq k v)
single neq_op k _ = err "$neq must be used with string"
single gt_op k (string v) = ok (gt k v)
single gt_op k _ = err "$gt must be used with string"
single gte_op k (string v) = ok (gte k v)
single gte_op k _ = err "$gte must be used with string"
single lt_op k (string v) = ok (lt k v)
single lt_op k _ = err "$lt must be used with string"
single lte_op k (string v) = ok (lte k v)
single lte_op k _ = err "$lte must be used with string"
single like_op k (string v) = ok (like k v)
single like_op k _ = err "$like must be used with string"
single in_op k (array vs) =
    and_then (texts_or "$in must be used with array of strings" vs) λ ts. ok (in_ k ts)
single in_op k _ = err "$in must be used with array of strings"
single unknown_op k _ = err "Unknown operator"

unfoldable pub parse_single_operator : String → String → JsonValue → Parsed Query
parse_single_operator name key value = single (operator_of name) key value

abbrev exist_error : String
exist_error = "$exist must be used with a string or array of strings"

-- `if operators.len() == 1 { operators.remove(0) } else { And(operators) }`
abbrev pub one_or_and : Queries String String → Query
one_or_and (cons q nil) = q
one_or_and qs = and qs

abbrev push : Option Query → Queries String String → Queries String String
push none qs = qs
push (some q) qs = cons q qs

abbrev some_of : Parsed Query → Parsed (Option Query)
some_of r = and_then r λ q. ok (some q)

-- `map.len() == 1`
abbrev one_field : Fields → String → Parsed Query
one_field (field name value end) key = parse_single_operator name key value
one_field _ key = err "value must be JSON object of length 1"

-- What each kind of key makes of an array: the queries in it, or the texts.
abbrev in_array : Key → Items → Parsed (Queries String String) → Parsed (Option Query)
in_array and_key last qs = ok none
in_array and_key _ qs = and_then qs λ l. ok (some (and l))
in_array or_key last qs = ok none
in_array or_key _ qs = and_then qs λ l. ok (some (or l))
in_array not_key _ qs = err "$not must be JSON object"
in_array exist_key last qs = ok none
in_array exist_key values qs = and_then (texts_or exist_error values) λ ks. ok (some (exist ks))
in_array name_key _ qs = err "Unsupported value"

abbrev in_object : Key → String → Fields → Parsed Query → Parsed (Option Query)
in_object and_key k fs q = err "$and must be array of JSON objects"
in_object or_key k fs q = err "$or must be array of JSON objects"
in_object not_key k fs q = and_then q λ inner. ok (some (AbstractQuery.not inner))
in_object exist_key k fs q = err exist_error
in_object name_key k fs q = some_of (one_field fs k)

abbrev in_string : Key → String → String → Parsed (Option Query)
in_string and_key k v = err "$and must be array of JSON objects"
in_string or_key k v = err "$or must be array of JSON objects"
in_string not_key k v = err "$not must be JSON object"
in_string exist_key k v = ok (some (exist (v ∷ [])))
in_string name_key k v = ok (some (eq k v))

abbrev in_other : Key → Parsed (Option Query)
in_other and_key = err "$and must be array of JSON objects"
in_other or_key = err "$or must be array of JSON objects"
in_other not_key = err "$not must be JSON object"
in_other exist_key = err exist_error
in_other name_key = err "Unsupported value"

unfoldable mutual
  -- The loop over the fields of the map.
  pub parse_operators : Fields → Parsed (Queries String String)
  parse_operators end = ok nil
  parse_operators (field k v fs) =
      and_then (parse_operator k v) λ o. and_then (parse_operators fs) λ qs. ok (push o qs)

  pub parse_operator : String → JsonValue → Parsed (Option Query)
  parse_operator k (array values) = in_array (key_of k) values (parse_list_operators values)
  parse_operator k (object fs) =
      in_object (key_of k) k fs (and_then (parse_operators fs) λ qs. ok (one_or_and qs))
  parse_operator k (string v) = in_string (key_of k) k v
  parse_operator k _ = in_other (key_of k)

  pub parse_list_operators : Items → Parsed (Queries String String)
  parse_list_operators last = ok nil
  parse_list_operators (item (object fs) rest) =
      and_then (and_then (parse_operators fs) λ qs. ok (one_or_and qs))
        λ q. and_then (parse_list_operators rest) λ qs. ok (cons q qs)
  parse_list_operators (item _ rest) = err "operator must be array of JSON objects"

unfoldable pub parse_query : Fields → Parsed Query
parse_query fs = and_then (parse_operators fs) λ qs. ok (one_or_and qs)

-- `filter(|(_, v)| !v.is_null())`
abbrev is_null : JsonValue → Bool
is_null null = true
is_null _ = false

abbrev without_nulls : Fields → Fields
without_nulls end = end
without_nulls (field k v fs) =
    let rest = without_nulls fs in if is_null v then rest else field k v rest

abbrev pushed : Fields → Items → Items
pushed end rest = rest
pushed fs rest = item (object fs) rest

-- The loop over the restrictions of the old format.
abbrev pub restrictions : Items → Parsed Items
restrictions last = ok last
restrictions (item (object fs) rest) =
    and_then (restrictions rest) λ more. ok (pushed (without_nulls fs) more)
restrictions (item _ rest) = err "Restriction is invalid"

unfoldable pub deserialize : JsonValue → Parsed Query
deserialize (object fs) = parse_query fs
deserialize (array values) =
    and_then (restrictions values) λ res. parse_query (field "$or" (array res) end)
deserialize _ = err "Restriction must be either object or array"
