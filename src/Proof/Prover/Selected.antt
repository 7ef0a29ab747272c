-- ===== src/Proof/Prover/Selected.antt =====
-- What the anoncreds library is asked to show, and with which schemas and definitions.
use instnt_aries_vcx.Base.{
  String, ◌≡◌, refl, Bool, true, ◌&&◌, ◌||◌, List, [], ◌∷◌, is_ok, Ensures, Map, contains_key,
  contains_key-insert, contains_key-lookup, contains_same, any_names, for_each-all_names, ◌==◌,
  arith,
}
use instnt_aries_vcx.Anoncreds.Request.{PresentationRequest, value}
use instnt_aries_vcx.Anoncreds.Selection.{SelectedCredentials, SelectedCredentialForReferent}
use instnt_aries_vcx.Runtime.{Runtime}
use instnt_aries_vcx.Proof.Prover.Build.{
  CredInfoProver, get_revocation_interval, infos_of, credential_def_identifiers, fetch_schema,
  fetch_cred_def, build_schemas_json_prover, build_cred_defs_json_prover,
}

-- The request names the referent, as an attribute or as a predicate.
abbrev pub asks_for : PresentationRequest → String → Bool
asks_for req i =
    contains_key i (value req).requested_attributes
    || contains_key i (value req).requested_predicates

unfoldable pub asks_for_all : PresentationRequest → Map SelectedCredentialForReferent → Bool
asks_for_all req [] = true
asks_for_all req ((i, _) ∷ rest) = asks_for req i && asks_for_all req rest

interval_known :
    (i : String) (req : PresentationRequest)
    → is_ok (get_revocation_interval i req) ≡ asks_for req i
unfolding get_revocation_interval
interval_known i req = ground (
  arith,
  contains_key-lookup i (value req).requested_attributes,
  contains_key-lookup i (value req).requested_predicates,
)

infos_accepted :
    (m : Map SelectedCredentialForReferent) (req : PresentationRequest)
    → is_ok (infos_of m req) ≡ asks_for_all req m
unfolding infos_of asks_for_all
infos_accepted [] req = refl
infos_accepted ((i, sel) ∷ rest) req = ground (arith, interval_known i req, infos_accepted rest req)

-- The credentials that were chosen are accepted exactly if the request names every referent that
-- they are chosen for.
pub selection_accepted :
    (credentials : SelectedCredentials) (req : PresentationRequest)
    → is_ok (credential_def_identifiers credentials req)
      ≡ asks_for_all req credentials.credential_for_referent
unfolding credential_def_identifiers
selection_accepted credentials req = infos_accepted credentials.credential_for_referent req

abbrev pub refers : CredInfoProver → String → Bool
refers info i = info.referent == i

abbrev pub of_schema : CredInfoProver → String → Bool
of_schema info i = info.schema_id == i

abbrev pub of_cred_def : CredInfoProver → String → Bool
of_cred_def info i = info.cred_def_id == i

module _ (R : Runtime) where
  open R use {World, Schema, CredentialDefinition}

  schema_added :
      (i : String) (info : CredInfoProver) (m : Map Schema) (w : World)
      → Ensures
          (λ m'. contains_key i m' ≡ (of_schema info i || contains_key i m))
          (fetch_schema R info m w).0
  unfolding fetch_schema
  schema_added i info m w = grind (
    arith,
    contains_same i info.schema_id m,
    λ (v : Schema). contains_key-insert i info.schema_id v m,
  )

  cred_def_added :
      (i : String) (info : CredInfoProver) (m : Map CredentialDefinition) (w : World)
      → Ensures
          (λ m'. contains_key i m' ≡ (of_cred_def info i || contains_key i m))
          (fetch_cred_def R info m w).0
  unfolding fetch_cred_def
  cred_def_added i info m w = grind (
    arith,
    contains_same i info.cred_def_id m,
    λ (v : CredentialDefinition). contains_key-insert i info.cred_def_id v m,
  )

  -- What the prover fetches for its credentials, where this succeeds: the schemas and the
  -- credential definitions that they name, all of them and no others.
  pub definitions_fetched :
      (infos : List CredInfoProver) (i : String) (w : World)
      → Ensures
          (λ m. contains_key i m ≡ any_names of_schema infos i)
          (build_schemas_json_prover R infos w).0
        × Ensures
            (λ m. contains_key i m ≡ any_names of_cred_def infos i)
            (build_cred_defs_json_prover R infos w).0
  unfolding build_schemas_json_prover build_cred_defs_json_prover
  definitions_fetched infos i w = (
    for_each-all_names of_schema i (fetch_schema R) (schema_added i) infos w,
    for_each-all_names of_cred_def i (fetch_cred_def R) (cred_def_added i) infos w,
  )
