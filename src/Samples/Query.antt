-- ===== src/Samples/Query.antt =====
-- The theorems on queries and on intervals, at concrete ones.
use instnt_aries_vcx.Base.{
  not, arith, ◌≡◌, refl, String, true, false, none, some, [], ◌∷◌, ok, is_ok, ◌==◌, ◌&&◌,
}
use instnt_aries_vcx.Query.Defs.{
  AbstractQuery, and, or, eq, gt, in_, exist, Query, nil, cons, optimise,
}
use instnt_aries_vcx.Query.Json.{to_value, deserialize}
use instnt_aries_vcx.Query.Meaning.{Matcher, meaning, meaning_opt, meaning-optimise}
use instnt_aries_vcx.Query.Optimised.{is_optimal, optimise_idem}
use instnt_aries_vcx.Query.RoundTrip.{deserialize-to_value}
use instnt_aries_vcx.Anoncreds.Request.{
  PresentationRequestPayload, request_v2, NonRevokedInterval, compare_and_set, is_valid,
}
use instnt_aries_vcx.Anoncreds.Validation.{validate, both_empty}
use instnt_aries_vcx.Anoncreds.Accepted.{
  attributes_named, predicates_named, second_version_accepted,
}
use instnt_aries_vcx.Anoncreds.Intervals.{compare_and_set-is_valid}

abbrev record_of_alice : Matcher String String
record_of_alice = record {
  is_eq = λ k v. (k == "name") && (v == "Alice");
  is_neq = λ k v. false;
  is_gt = λ k v. (k == "age") && (v == "18");
  is_gte = λ k v. true;
  is_lt = λ k v. false;
  is_lte = λ k v. false;
  is_like = λ k v. false;
  has = λ k. k == "name";
}

abbrev nested : Query
nested = and (
    cons (AbstractQuery.not (AbstractQuery.not (in_ "name" ("Alice" ∷ []))))
      (cons (or nil) (cons (gt "age" "18") nil)))

abbrev flat : Query
flat = and (cons (eq "name" "Alice") (cons (gt "age" "18") nil))

meaning-optimise_example :
    meaning_opt record_of_alice (optimise nested) ≡ meaning record_of_alice nested
meaning-optimise_example = meaning-optimise record_of_alice nested

optimise_idem_example : (is_optimal flat ≡ true) × (optimise flat ≡ some flat)
unfolding optimise
optimise_idem_example = optimise_idem nested flat refl

abbrev written : Query
written = or (cons flat (cons (exist ("age" ∷ [])) nil))

deserialize-to_value_example : deserialize (to_value written) ≡ ok written
deserialize-to_value_example = deserialize-to_value written ((refl, (refl, tt)), (tt, tt))

abbrev until : NonRevokedInterval
until = record { from = none; to = some 20 }

abbrev within : NonRevokedInterval
within = record { from = some 10; to = some 30 }

compare_and_set-is_valid_example :
    is_ok (is_valid (compare_and_set until within) 15)
    ≡ (is_ok (is_valid until 15) && is_ok (is_valid within 15))
compare_and_set-is_valid_example = compare_and_set-is_valid until within 15 (ground arith)

abbrev ages : PresentationRequestPayload
ages = record {
  nonce = "1";
  name = "n";
  version = "1.0";
  requested_attributes =
      (
        "a",
        record {
          name = some "age";
          names = none;
          restrictions = some (eq "schema_id" "did:x");
          non_revoked = none;
          self_attest_allowed = none;
        },
      )
      ∷ [];
  requested_predicates = [];
  non_revoked = none;
}

second_version_accepted_example :
    is_ok (validate (λ _. true) (λ _. "") (λ _. "") (request_v2 ages)) ≡ (
      not (both_empty ages.requested_attributes ages.requested_predicates)
      && (attributes_named ages.requested_attributes && predicates_named ages.requested_predicates))
second_version_accepted_example = second_version_accepted (λ _. true) (λ _. "") (λ _. "") ages
