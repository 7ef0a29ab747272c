-- ===== src/Proof/Verifier/Check.antt =====
-- common/proofs/verifier/verifier_internal.rs and mod.rs: what is read from a presentation, what is
-- fetched for it from the ledger, and the call of the anoncreds library.
use Prim.Native.String.{◌++◌}
use instnt_aries_vcx.Base.{
  ℕ, String, Bool, not, Option, none, some, List, [], ◌∷◌, ok, ok_or, map_err, and_then, pure,
  throw, lift, on_result, ◌>>=◌, Map, insert, contains_key, for_each, ◌==◌, if◌then◌else◌,
}
use instnt_aries_vcx.Errors.{
  VcxResult, from_msg, fail, invalid_json, invalid_proof, invalid_schema,
  invalid_proof_credential_data, invalid_revocation_timestamp,
}
use instnt_aries_vcx.Runtime.{Runtime, Vcx, converted, call}
use instnt_aries_vcx.Issuance.Encoding.{encode}
use instnt_aries_vcx.Proof.Requests.{presentation_request_from_str}

pub record CredInfoVerifier : Type 0 where
  pub schema_id : String
  pub cred_def_id : String
  pub rev_reg_id : Option String
  pub timestamp : Option ℕ

module _ (R : Runtime) where
  open R use {World, Value}

  abbrev pub parsed_proof : String → VcxResult Value
  parsed_proof proof =
      map_err (λ e. from_msg invalid_json ("Cannot deserialize libndy proof: " ++ R.display e))
        (R.value_from_str proof)

  abbrev identified :
      Option String → Option String → Option String → Option ℕ → VcxResult CredInfoVerifier
  identified (some schema_id) (some cred_def_id) rev_reg_id timestamp =
      and_then (converted R (R.schema_id_new schema_id)) λ id. ok (record {
        schema_id = id;
        cred_def_id = cred_def_id;
        rev_reg_id = rev_reg_id;
        timestamp = timestamp;
      })
  identified _ _ _ _ = fail invalid_proof_credential_data "Cannot get identifiers"

  abbrev cred_info_of : Value → VcxResult CredInfoVerifier
  cred_info_of identifier =
      identified (R.value_as_str (R.value_index identifier "schema_id"))
        (R.value_as_str (R.value_index identifier "cred_def_id"))
        (R.value_as_str (R.value_index identifier "rev_reg_id"))
        (R.value_as_u64 (R.value_index identifier "timestamp"))

  unfoldable pub cred_infos_of : List Value → VcxResult (List CredInfoVerifier)
  cred_infos_of [] = ok []
  cred_infos_of (identifier ∷ rest) =
      and_then (cred_info_of identifier)
        λ info. and_then (cred_infos_of rest) λ infos. ok (info ∷ infos)

  abbrev of_identifiers : Option (List Value) → VcxResult (List CredInfoVerifier)
  of_identifiers none = ok []
  of_identifiers (some identifiers) = cred_infos_of identifiers

  unfoldable pub get_credential_info : String → VcxResult (List CredInfoVerifier)
  get_credential_info proof =
      and_then (parsed_proof proof)
        (λ credentials. of_identifiers (R.value_as_array (R.value_index credentials "identifiers")))

  -- The body of the loop over the revealed attributes.
  unfoldable pub check_revealed : String × Value → VcxResult Unit
  check_revealed (referent, info) =
      and_then
        (ok_or (R.value_as_str (R.value_index info "raw"))
          (from_msg invalid_proof ("Cannot get raw value for \"" ++ (referent ++ "\" attribute"))))
        λ raw.
          and_then
            (ok_or (R.value_as_str (R.value_index info "encoded")) (
              from_msg invalid_proof
                ("Cannot get encoded value for \"" ++ (referent ++ "\" attribute"))))
            λ encoded. and_then (encode R raw) λ expected_encoded.
              if not (expected_encoded == encoded)
              then fail invalid_proof (
                  "Encoded values are different. Expected: "
                  ++ (expected_encoded ++ (". From Proof: " ++ encoded)))
              else ok tt

  unfoldable pub check_all_revealed : Map Value → VcxResult Unit
  check_all_revealed [] = ok tt
  check_all_revealed (entry ∷ rest) = and_then (check_revealed entry) λ _. check_all_revealed rest

  abbrev check_object : Option (Map Value) → VcxResult Unit
  check_object none = ok tt
  check_object (some revealed_attrs) = check_all_revealed revealed_attrs

  abbrev pub revealed_attrs_of : Value → Option (Map Value)
  revealed_attrs_of proof =
      R.value_as_object (R.value_index (R.value_index proof "requested_proof") "revealed_attrs")

  unfoldable pub validate_proof_revealed_attributes : String → VcxResult Unit
  validate_proof_revealed_attributes proof_json =
      and_then (parsed_proof proof_json) λ proof. check_object (revealed_attrs_of proof)

  -- `json.to_string()`
  abbrev object_text : Map Value → String
  object_text fields = R.value_to_string (R.object_of fields)

  unfoldable pub fetch_cred_def : CredInfoVerifier → Map Value → Vcx R (Map Value)
  fetch_cred_def info known = if contains_key info.cred_def_id known then pure known else (do
    id ← lift (converted R (R.cred_def_id_try_from info.cred_def_id))
    cred_def ← call R (R.get_cred_def id)
    parsed ← lift (
        map_err
          (λ e.
            from_msg invalid_proof_credential_data
              ("Cannot deserialize credential definition: " ++ R.display e))
          (R.cred_def_to_value cred_def))
    pure (insert info.cred_def_id parsed known))

  unfoldable pub build_cred_defs_json_verifier : List CredInfoVerifier → Vcx R String
  build_cred_defs_json_verifier credential_data = do
    fields ← for_each fetch_cred_def credential_data []
    pure (object_text fields)

  unfoldable pub fetch_schema : CredInfoVerifier → Map Value → Vcx R (Map Value)
  fetch_schema info known = if contains_key info.schema_id known then pure known else (do
    schema ← λ w.
        let (r, w') = R.get_schema info.schema_id w in
        (map_err (λ _. from_msg invalid_schema "Cannot get schema") r, w')
    parsed ← lift (
        map_err (λ e. from_msg invalid_schema ("Cannot deserialize schema: " ++ R.display e))
          (R.schema_to_value schema))
    pure (insert info.schema_id parsed known))

  unfoldable pub build_schemas_json_verifier : List CredInfoVerifier → Vcx R String
  build_schemas_json_verifier credential_data = do
    fields ← for_each fetch_schema credential_data []
    pure (object_text fields)

  -- The filter on `rev_reg_id.is_some()` and the test of it again come to one case.
  unfoldable pub fetch_rev_reg_def : CredInfoVerifier → Map Value → Vcx R (Map Value)
  fetch_rev_reg_def info known = elim info.rev_reg_id [
    | none ↦ pure known
    | some rev_reg_id ↦ if contains_key rev_reg_id known then pure known else (do
      id ← lift (converted R (R.rev_reg_id_try_from rev_reg_id))
      fetched ← call R (R.get_rev_reg_def_json id)
      parsed ← lift (
          map_err
            (λ _.
              from_msg invalid_json
                ("Failed to deserialize as json rev_reg_def: " ++ R.debug_rev_reg_def fetched.0))
            (R.rev_reg_def_to_value fetched.0))
      pure (insert rev_reg_id parsed known))
  ]

  unfoldable pub build_rev_reg_defs_json : List CredInfoVerifier → Vcx R String
  build_rev_reg_defs_json credential_data = do
    fields ← for_each fetch_rev_reg_def credential_data []
    pure (object_text fields)

  abbrev fetch_rev_reg_at : String → ℕ → Map Value → Vcx R (Map Value)
  fetch_rev_reg_at rev_reg_id timestamp known =
      if contains_key rev_reg_id known then pure known else (do
        id ← lift (converted R (R.rev_reg_id_try_from rev_reg_id))
        fetched ← call R (R.get_rev_reg id timestamp)
        parsed ← lift (
            map_err
              (λ _.
                from_msg invalid_json
                  ("Failed to deserialize as json: " ++ R.debug_rev_reg fetched.0))
              (R.rev_reg_to_value fetched.0))
        pure (insert rev_reg_id (R.object_of ((R.u64_to_string fetched.1, parsed) ∷ [])) known))

  unfoldable pub fetch_rev_reg : CredInfoVerifier → Map Value → Vcx R (Map Value)
  fetch_rev_reg info known = elim info.rev_reg_id [
    | none ↦ pure known
    | some rev_reg_id ↦ elim info.timestamp [
      | none ↦ throw (
          from_msg invalid_revocation_timestamp (
            "Revocation timestamp is missing on record "
            ++ R.debug_cred_info info.schema_id info.cred_def_id info.rev_reg_id info.timestamp))
      | some timestamp ↦ fetch_rev_reg_at rev_reg_id timestamp known
    ]
  ]

  unfoldable pub build_rev_reg_json : List CredInfoVerifier → Vcx R String
  build_rev_reg_json credential_data = do
    fields ← for_each fetch_rev_reg credential_data []
    pure (object_text fields)

  -- `m.await.unwrap_or(json!({}).to_string())`
  abbrev or_empty : Vcx R String → Vcx R String
  or_empty m = on_result m pure (λ _. pure (object_text []))

  -- `validate_indy_proof` after the check of the revealed attributes
  abbrev pub judge : String → String → Vcx R Bool
  judge proof_json proof_req_json = do
    credential_data ← lift (get_credential_info proof_json)
    credential_defs_json ← build_cred_defs_json_verifier credential_data
    schemas_json ← build_schemas_json_verifier credential_data
    rev_reg_defs_json ← or_empty (build_rev_reg_defs_json credential_data)
    rev_regs_json ← or_empty (build_rev_reg_json credential_data)
    request ← lift (converted R (presentation_request_from_str R proof_req_json))
    proof ← lift (converted R (R.presentation_from_str proof_json))
    schemas ← lift (converted R (R.schemas_from_str schemas_json))
    cred_defs ← lift (converted R (R.cred_defs_from_str credential_defs_json))
    rev_reg_defs ← lift (converted R (R.rev_reg_defs_from_str rev_reg_defs_json))
    rev_regs ← lift (converted R (R.rev_regs_from_str rev_regs_json))
    call R (R.verifier_verify_proof request proof schemas cred_defs rev_reg_defs rev_regs)

  unfoldable pub validate_indy_proof : String → String → Vcx R Bool
  validate_indy_proof proof_json proof_req_json = do
    _ ← lift (validate_proof_revealed_attributes proof_json)
    judge proof_json proof_req_json
