-- ===== src/Anoncreds/Validation.antt =====
-- pres_request.rs: `validate` of a presentation request. The texts of errors are kept, their kind is
-- always `ConversionError`. The parameters are the URI regex of utils/validation.rs, and the `Debug`
-- texts of attributes and predicates.
use Prim.Native.String.{◌++◌}
use instnt_aries_vcx.Base.{
  String, Bool, true, false, not, ◌&&◌, ◌||◌, Option, none, some, List, [], ◌∷◌, Result, ok, err,
  and_then, Map, ◌==◌, if◌then◌else◌,
}
use instnt_aries_vcx.Query.Defs.{
  AbstractQuery, and, or, eq, neq, gt, gte, lt, lte, like, in_, exist, Query, Queries, nil, cons,
}
use instnt_aries_vcx.Anoncreds.Request.{
  AttributeInfo, PredicateInfo, PresentationRequest, request_v1, request_v2, value,
}

pub data PresentationRequestVersion : Type 0 where
  v1 v2 : PresentationRequestVersion

abbrev pub version : PresentationRequest → PresentationRequestVersion
version (request_v1 _) = v1
version (request_v2 _) = v2

abbrev is_v1 : PresentationRequestVersion → Bool
is_v1 v1 = true
is_v1 v2 = false

-- `Credential::QUALIFIABLE_TAGS.contains(&tag_name)`
abbrev is_qualifiable : String → Bool
is_qualifiable t =
    (t == "issuer_did")
    || ((t == "cred_def_id")
        || ((t == "schema_id") || ((t == "schema_issuer_did") || (t == "rev_reg_id"))))

abbrev Checked : Type 0
Checked = Result String (Unit {0})

-- `iter.map(f).collect::<Result<Vec<()>, _>>()`
module _ {A : Type 0} where
  unfoldable pub check_each : (A → Checked) → List A → Checked
  check_each f [] = ok tt
  check_each f (a ∷ rest) = and_then (f a) λ _. check_each f rest

-- `map_or(true, is_empty)`, negated
abbrev pub has_name : Option String → Bool
has_name none = false
has_name (some t) = not (t == "")

abbrev pub has_names : Option (List String) → Bool
has_names none = false
has_names (some []) = false
has_names (some (_ ∷ _)) = true

abbrev pub both_empty : Map AttributeInfo → Map PredicateInfo → Bool
both_empty [] [] = true
both_empty _ _ = false

module _ (is_uri_identifier : String → Bool) where
  abbrev pub check_restriction : PresentationRequestVersion → String → String → Checked
  check_restriction ver tag_name tag_value =
      if is_v1 ver && (is_qualifiable tag_name && is_uri_identifier tag_value)
      then err
          "Presentation request validation failed: fully qualified identifiers can not be used for presentation request of the first version. Please, set \"ver\":\"2.0\" to use fully qualified identifiers."
      else ok tt

  unfoldable mutual
    pub process_operator : PresentationRequestVersion → Query → Checked
    process_operator ver (eq k v) = check_restriction ver k v
    process_operator ver (neq k v) = check_restriction ver k v
    process_operator ver (gt k v) = check_restriction ver k v
    process_operator ver (gte k v) = check_restriction ver k v
    process_operator ver (lt k v) = check_restriction ver k v
    process_operator ver (lte k v) = check_restriction ver k v
    process_operator ver (like k v) = check_restriction ver k v
    process_operator ver (in_ k vs) = check_each (check_restriction ver k) vs
    process_operator ver (exist ks) = check_each (λ k. check_restriction ver k "") ks
    process_operator ver (and qs) = process_all ver qs
    process_operator ver (or qs) = process_all ver qs
    process_operator ver (AbstractQuery.not q) = process_operator ver q

    pub process_all : PresentationRequestVersion → Queries String String → Checked
    process_all ver nil = ok tt
    process_all ver (cons q qs) = and_then (process_operator ver q) λ _. process_all ver qs

  abbrev pub process_restrictions : PresentationRequestVersion → Option Query → Checked
  process_restrictions ver none = ok tt
  process_restrictions ver (some q) = process_operator ver q

  module _ (debug_attribute : AttributeInfo → String)
      (debug_predicate : PredicateInfo → String) where
    abbrev pub check_attribute : PresentationRequestVersion → String × AttributeInfo → Checked
    check_attribute ver (_, a) =
        if not (has_name a.name) && not (has_names a.names)
        then err (
            "Presentation request validation failed: there is empty requested attribute: "
            ++ debug_attribute a)
        else if has_name a.name && has_names a.names
        then err (
            "Presentation request validation failed: there is a requested attribute with both name and names: "
            ++ debug_attribute a)
        else process_restrictions ver a.restrictions

    abbrev pub check_predicate : PresentationRequestVersion → String × PredicateInfo → Checked
    check_predicate ver (_, p) =
        if p.name == ""
        then err (
            "Presentation request validation failed: there is empty requested attribute: "
            ++ debug_predicate p)
        else process_restrictions ver p.restrictions

    unfoldable pub validate : PresentationRequest → Checked
    validate self =
        if both_empty (value self).requested_attributes (value self).requested_predicates
        then err
            "Presentation request validation failed: both `requested_attributes` and `requested_predicates` are empty"
        else and_then
            (check_each (check_attribute (version self)) (value self).requested_attributes)
            (λ _. check_each (check_predicate (version self)) (value self).requested_predicates)
