-- ===== src/Anoncreds/Request.antt =====
-- pres_request.rs: presentation requests. A nonce stands for its decimal text, and a `HashMap` for
-- the list of its entries.
use instnt_aries_vcx.Base.{
  ℕ, String, Bool, ◌||◌, Option, none, some, List, Result, ok, err, Map, ltb, unwrap_or,
  if◌then◌else◌,
}
use instnt_aries_vcx.Query.Defs.{Query}

pub record NonRevokedInterval : Type 0 where
  pub from : Option ℕ
  pub to : Option ℕ

pub record AttributeInfo : Type 0 where
  pub name : Option String
  pub names : Option (List String)
  pub restrictions : Option Query
  pub non_revoked : Option NonRevokedInterval
  pub self_attest_allowed : Option Bool

pub data PredicateTypes : Type 0 where
  ge le gt lt : PredicateTypes

-- The value, an `i32`, stands for its decimal text.
pub record PredicateInfo : Type 0 where
  pub name : String
  pub p_type : PredicateTypes
  pub p_value : String
  pub restrictions : Option Query
  pub non_revoked : Option NonRevokedInterval

pub record PresentationRequestPayload : Type 0 where
  pub nonce : String
  pub name : String
  pub version : String
  pub requested_attributes : Map AttributeInfo
  pub requested_predicates : Map PredicateInfo
  pub non_revoked : Option NonRevokedInterval

pub data PresentationRequest : Type 0 where
  request_v1 request_v2 : PresentationRequestPayload → PresentationRequest

abbrev pub value : PresentationRequest → PresentationRequestPayload
value (request_v1 req) = req
value (request_v2 req) = req

-- The later of two starts, and the earlier of two ends, where one is missing the other.
abbrev pub later : Option ℕ → Option ℕ → Option ℕ
later (some old) (some new) = if ltb old new then some new else some old
later none (some new) = some new
later old none = old

abbrev pub earlier : Option ℕ → Option ℕ → Option ℕ
earlier (some old) (some new) = if ltb new old then some new else some old
earlier none (some new) = some new
earlier old none = old

unfoldable pub compare_and_set : NonRevokedInterval → NonRevokedInterval → NonRevokedInterval
compare_and_set self to_compare = record {
  from = later self.from to_compare.from;
  to = earlier self.to to_compare.to;
}

-- The start alone is replaced, where the map has it.
unfoldable pub update_with_override : (ℕ → Option ℕ) → NonRevokedInterval → NonRevokedInterval
update_with_override override_map self = elim self.from [
  | none ↦ self
  | some from ↦ elim (override_map from) [
    | none ↦ self
    | some override_timestamp ↦ record self { from = some override_timestamp }
  ]
]

abbrev pub max_u64 : ℕ
max_u64 = 18446744073709551615

unfoldable pub is_valid : NonRevokedInterval → ℕ → Result String (Unit {0})
is_valid self timestamp =
    if ltb timestamp (unwrap_or self.from 0) || ltb (unwrap_or self.to max_u64) timestamp
    then err "Invalid timestamp"
    else ok tt
