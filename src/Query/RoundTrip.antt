-- ===== src/Query/RoundTrip.antt =====
-- A query that is written as JSON and read back.
use instnt_aries_vcx.Base.{String, ◌≡◌, refl, some, List, [], ◌∷◌, ok, arith}
use instnt_aries_vcx.Query.Defs.{
  AbstractQuery, and, or, eq, neq, gt, gte, lt, lte, like, in_, exist, Query, Queries, nil, cons,
}
use instnt_aries_vcx.Query.Json.{
  JsonValue, array, string, field, end, strings, test, to_value, to_fields, to_values, key_of,
  name_key, texts_or, parse_single_operator, parse_operators, parse_operator, parse_list_operators,
  parse_query, one_or_and, deserialize,
}

-- A key that is the name of a field, not one of the operators.
abbrev pub IsName : String → Type 0
IsName k = key_of k ≡ name_key

-- What JSON can hold: field names that are no operators, and no empty disjunction or `Exist`, which
-- would be read back as something else.
abbrev mutual
  pub IsWritable : Query → Type 0
  IsWritable (and qs) = AllWritable qs
  IsWritable (or nil) = ⊥
  IsWritable (or qs) = AllWritable qs
  IsWritable (AbstractQuery.not q) = IsWritable q
  IsWritable (exist []) = ⊥
  IsWritable (exist ks) = Unit
  IsWritable (eq k v) = IsName k
  IsWritable (neq k v) = IsName k
  IsWritable (gt k v) = IsName k
  IsWritable (gte k v) = IsName k
  IsWritable (lt k v) = IsName k
  IsWritable (lte k v) = IsName k
  IsWritable (like k v) = IsName k
  IsWritable (in_ k vs) = IsName k

  pub AllWritable : Queries String String → Type 0
  AllWritable nil = Unit
  AllWritable (cons q qs) = IsWritable q × AllWritable qs

texts_or-strings : (e : String) (ss : List String) → texts_or e (strings ss) ≡ ok ss
texts_or-strings e [] = refl
texts_or-strings e (s ∷ ss) = rw (texts_or-strings e ss) refl

-- The queries of an object with one field.
parse_one :
    (k : String) (v : JsonValue) (q : Query)
    → parse_operator k v ≡ ok (some q)
    → parse_operators (field k v end) ≡ ok (cons q nil)
unfolding parse_operators
parse_one k v q h = rw h refl

parse_eq :
    (k v : String) → IsName k → parse_operators (field k (string v) end) ≡ ok (cons (eq k v) nil)
unfolding parse_operators
parse_eq k v n = rw n refl

parse_test :
    (k name : String) (v : JsonValue) (q : Query)
    → IsName k
    → parse_single_operator name k v ≡ ok q
    → parse_operators (test k name v) ≡ ok (cons q nil)
unfolding parse_operators
parse_test k name v q n h = rw n (rw h refl)

-- What the fields of a query are read back as: the query alone, but nothing for the empty
-- conjunction.
abbrev read : Query → Queries String String
read (and nil) = nil
read q = cons q nil

one_or_and-read : (q : Query) → one_or_and (read q) ≡ q
one_or_and-read q = ground arith

mutual
  unfolding to_fields parse_operators parse_single_operator

  read_back : (q : Query) → IsWritable q → parse_operators (to_fields q) ≡ ok (read q)
  read_back (eq k v) n = parse_eq k v n
  read_back (neq k v) n = parse_test k "$neq" (string v) (neq k v) n refl
  read_back (gt k v) n = parse_test k "$gt" (string v) (gt k v) n refl
  read_back (gte k v) n = parse_test k "$gte" (string v) (gte k v) n refl
  read_back (lt k v) n = parse_test k "$lt" (string v) (lt k v) n refl
  read_back (lte k v) n = parse_test k "$lte" (string v) (lte k v) n refl
  read_back (like k v) n = parse_test k "$like" (string v) (like k v) n refl
  read_back (in_ k vs) n =
      parse_test k "$in" (array (strings vs)) (in_ k vs) n
        (rw (texts_or-strings "$in must be used with array of strings" vs) refl)
  read_back (exist []) n = elim n [ ]
  read_back (exist (k ∷ ks)) n =
      rw (texts_or-strings "$exist must be used with a string or array of strings" ks) refl
  read_back (and nil) n = refl
  read_back (and (cons q qs)) n = rw (read_all_back (cons q qs) n) refl
  read_back (or nil) n = elim n [ ]
  read_back (or (cons q qs)) n = rw (read_all_back (cons q qs) n) refl
  read_back (AbstractQuery.not q) n = rw (read_back q n) (rw (one_or_and-read q) refl)

  read_all_back :
      (qs : Queries String String) → AllWritable qs → parse_list_operators (to_values qs) ≡ ok qs
  read_all_back nil n = refl
  read_all_back (cons q qs) n =
      rw (read_back q n.0, read_all_back qs n.1) (rw (one_or_and-read q) refl)

-- A query whose field names are no operators, and with no empty disjunction or `Exist` in it, is
-- read back from the JSON that it is written as.
pub deserialize-to_value : (q : Query) → IsWritable q → deserialize (to_value q) ≡ ok q
unfolding deserialize parse_query
deserialize-to_value q n = rw (read_back q n) (rw (one_or_and-read q) refl)
