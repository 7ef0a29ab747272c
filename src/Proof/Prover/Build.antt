-- ===== src/Proof/Prover/Build.antt =====
-- common/proofs/prover/prover_internal.rs and mod.rs: what the anoncreds library is given to make a
-- presentation. A loop that changes the list that it runs over returns the changed list.
use Prim.Native.String.{◌++◌}
use instnt_aries_vcx.Base.{
  ℕ, String, Bool, true, Option, none, some, List, [], ◌∷◌, ok, map_err, and_then, pure, lift,
  perform, ◌>>=◌, Map, lookup, insert, contains_key, for_each, unwrap_or, if◌then◌else◌,
}
use instnt_aries_vcx.Errors.{
  VcxResult, from_msg, fail, invalid_schema, invalid_proof_credential_data,
}
use instnt_aries_vcx.Anoncreds.Request.{NonRevokedInterval, PresentationRequest, value}
use instnt_aries_vcx.Anoncreds.Selection.{
  SelectedCredentials, SelectedCredentialForReferent, RequestedAttribute, RequestedPredicate,
  RequestedCredentials,
}
use instnt_aries_vcx.Runtime.{Runtime, Vcx, converted, call}

pub record CredInfoProver : Type 0 where
  pub referent : String
  pub credential_referent : String
  pub schema_id : String
  pub cred_def_id : String
  pub rev_reg_id : Option String
  pub cred_rev_id : Option ℕ
  pub revocation_interval : Option NonRevokedInterval
  pub tails_dir : Option String
  pub timestamp : Option ℕ
  pub revealed : Option Bool

-- `a.or(b)`
abbrev or_else : Option NonRevokedInterval → Option NonRevokedInterval → Option NonRevokedInterval
or_else none b = b
or_else (some a) b = some a

unfoldable pub get_revocation_interval :
    String → PresentationRequest → VcxResult (Option NonRevokedInterval)
get_revocation_interval attr_name proof_req =
    elim (lookup attr_name (value proof_req).requested_attributes) [
      | some attr ↦ ok (or_else attr.non_revoked (value proof_req).non_revoked)
      | none ↦ elim (lookup attr_name (value proof_req).requested_predicates) [
        | some attr ↦ ok (or_else attr.non_revoked (value proof_req).non_revoked)
        | none ↦ fail invalid_proof_credential_data ("Attribute not found for: " ++ attr_name)
      ]
    ]

abbrev pub info_of :
    String → SelectedCredentialForReferent → Option NonRevokedInterval → CredInfoProver
info_of referent selected_cred interval =
    let cred_info = selected_cred.credential.cred_info in
    record {
      referent = referent;
      credential_referent = cred_info.referent;
      schema_id = cred_info.schema_id;
      cred_def_id = cred_info.cred_def_id;
      rev_reg_id = cred_info.rev_reg_id;
      cred_rev_id = cred_info.cred_rev_id;
      revocation_interval = interval;
      tails_dir = selected_cred.tails_dir;
      timestamp = none;
      revealed = cred_info.revealed;
    }

unfoldable pub infos_of :
    Map SelectedCredentialForReferent → PresentationRequest → VcxResult (List CredInfoProver)
infos_of [] proof_req = ok []
infos_of ((referent, selected_cred) ∷ rest) proof_req =
    and_then (get_revocation_interval referent proof_req) λ interval.
      and_then (infos_of rest proof_req)
        λ infos. ok (info_of referent selected_cred interval ∷ infos)

unfoldable pub credential_def_identifiers :
    SelectedCredentials → PresentationRequest → VcxResult (List CredInfoProver)
credential_def_identifiers credentials proof_req =
    infos_of credentials.credential_for_referent proof_req

abbrev pub requested_attribute : CredInfoProver → RequestedAttribute
requested_attribute info = record {
  cred_id = info.credential_referent;
  timestamp = info.timestamp;
  revealed = unwrap_or info.revealed true;
}

abbrev pub requested_predicate : CredInfoProver → RequestedPredicate
requested_predicate info = record { cred_id = info.credential_referent; timestamp = info.timestamp }

-- The loops over the credentials: those whose referent the request has are inserted.
module _ {A B : Type 0} (asked : Map A) (made : CredInfoProver → B) where
  unfoldable pub requested : List CredInfoProver → Map B → Map B
  requested [] m = m
  requested (info ∷ rest) m =
      requested rest
        (if contains_key info.referent asked then insert info.referent (made info) m else m)

unfoldable pub build_requested_credentials_json :
    List CredInfoProver → Map String → PresentationRequest → VcxResult RequestedCredentials
build_requested_credentials_json infos self_attested_attrs proof_req = ok (record {
  self_attested_attributes = self_attested_attrs;
  requested_attributes =
      requested (value proof_req).requested_attributes requested_attribute infos [];
  requested_predicates =
      requested (value proof_req).requested_predicates requested_predicate infos [];
})

-- `cred_info.revocation_interval`'s end
abbrev end_of : Option NonRevokedInterval → Option ℕ
end_of none = none
end_of (some interval) = interval.to

-- The registry, the index and the tails of a credential that has all three.
abbrev pub revocable : Option String → Option ℕ → Option String → Option (String × ℕ × String)
revocable (some rev_reg_id) (some cred_rev_id) (some tails_dir) =
    some (rev_reg_id, cred_rev_id, tails_dir)
revocable _ _ _ = none

abbrev pub revocation_of : CredInfoProver → Option (String × ℕ × String)
revocation_of info = revocable info.rev_reg_id info.cred_rev_id info.tails_dir

abbrev pub timed : CredInfoProver → Option ℕ → CredInfoProver
timed info t = record info { timestamp = t }

-- `if cred_info.timestamp.is_none() { cred_info.timestamp = timestamps.get(..).cloned() }`
abbrev pub with_timestamp : CredInfoProver → Option ℕ → CredInfoProver
with_timestamp info cached = elim info.timestamp [ none ↦ timed info cached | some _ ↦ info ]

module _ (R : Runtime) where
  open R use {World, Presentation, Schema, CredentialDefinition, CredentialRevocationState}

  unfoldable pub fetch_schema : CredInfoProver → Map Schema → Vcx R (Map Schema)
  fetch_schema info known = if contains_key info.schema_id known then pure known else (do
    schema ← λ w.
        let (r, w') = R.get_schema info.schema_id w in
        (
          map_err
              (λ e.
                from_msg invalid_schema
                  ("Cannot get schema id " ++ (info.schema_id ++ ("; " ++ R.display e))))
              r,
          w',
        )
    pure (insert info.schema_id schema known))

  unfoldable pub build_schemas_json_prover : List CredInfoProver → Vcx R (Map Schema)
  build_schemas_json_prover infos = for_each fetch_schema infos []

  unfoldable pub fetch_cred_def :
      CredInfoProver → Map CredentialDefinition → Vcx R (Map CredentialDefinition)
  fetch_cred_def info known = if contains_key info.cred_def_id known then pure known else (do
    cred_def ← λ w.
        let (r, w') = R.get_cred_def info.cred_def_id w in
        (
          map_err (λ _. from_msg invalid_proof_credential_data "Cannot get credential definition")
              r,
          w',
        )
    pure (insert info.cred_def_id cred_def known))

  unfoldable pub build_cred_defs_json_prover :
      List CredInfoProver → Vcx R (Map CredentialDefinition)
  build_cred_defs_json_prover infos = for_each fetch_cred_def infos []

  abbrev pub RevocationStates : Type 0
  RevocationStates = Map (List (ℕ × CredentialRevocationState))

  -- The state of a credential at the end of its interval or now, with its time.
  unfoldable pub create_state :
      CredInfoProver → String → ℕ → String → Vcx R (ℕ × CredentialRevocationState)
  create_state info rev_reg_id cred_rev_id tails_dir = do
    parsed_id ← lift (converted R (R.rev_reg_id_try_from rev_reg_id))
    definition ← call R (R.get_rev_reg_def_json parsed_id)
    now ← perform R.utc_timestamp
    status ← call R (
        R.get_rev_status_list parsed_id (unwrap_or (end_of info.revocation_interval) now)
          (some definition.1))
    state ← call R (R.create_revocation_state tails_dir definition.0 status.0 cred_rev_id)
    pure (status.1, state)

  -- The body of the loop: the states and the times of their registries, and the credential.
  pub record Stepped : Type 0 where
    pub states : RevocationStates
    pub timestamps : Map ℕ
    pub info : CredInfoProver

  abbrev pub add_new :
      String → ℕ → String → CredInfoProver → RevocationStates → Map ℕ → Vcx R Stepped
  add_new rev_reg_id cred_rev_id tails_dir info states timestamps = do
    made ← create_state info rev_reg_id cred_rev_id tails_dir
    pure (record {
      states = insert rev_reg_id (made ∷ []) states;
      timestamps = insert rev_reg_id made.0 timestamps;
      info = timed info (some made.0);
    })

  abbrev pub add_for :
      Option (String × ℕ × String) → CredInfoProver → RevocationStates → Map ℕ → Vcx R Stepped
  add_for none info states timestamps =
      pure (record { states = states; timestamps = timestamps; info = info })
  add_for (some (rev_reg_id, cred_rev_id, tails_dir)) info states timestamps =
      if contains_key rev_reg_id states
      then pure (record {
        states = states;
        timestamps = timestamps;
        info = with_timestamp info (lookup rev_reg_id timestamps);
      })
      else add_new rev_reg_id cred_rev_id tails_dir info states timestamps

  unfoldable pub add_state : CredInfoProver → RevocationStates → Map ℕ → Vcx R Stepped
  add_state info states timestamps = add_for (revocation_of info) info states timestamps

  unfoldable pub add_states :
      List CredInfoProver
      → RevocationStates
      → Map ℕ
      → Vcx R (RevocationStates × List CredInfoProver)
  add_states [] states timestamps = pure (states, [])
  add_states (info ∷ rest) states timestamps = do
    s ← add_state info states timestamps
    all ← add_states rest s.states s.timestamps
    pure (all.0, s.info ∷ all.1)

  unfoldable pub build_rev_states_json :
      List CredInfoProver → Vcx R (RevocationStates × List CredInfoProver)
  build_rev_states_json infos = add_states infos [] []

  unfoldable pub generate_indy_proof :
      SelectedCredentials → Map String → PresentationRequest → Vcx R Presentation
  generate_indy_proof credentials self_attested_attrs proof_req_data_json = do
    infos ← lift (credential_def_identifiers credentials proof_req_data_json)
    built ← build_rev_states_json infos
    requested_credentials ←
        lift (build_requested_credentials_json built.1 self_attested_attrs proof_req_data_json)
    schemas ← build_schemas_json_prover built.1
    cred_defs ← build_cred_defs_json_prover built.1
    call R (
        R.prover_create_proof proof_req_data_json requested_credentials "main" schemas cred_defs
          (some built.0))
