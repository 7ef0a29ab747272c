-- ===== src/Samples/Judged.antt =====
-- What the sample world makes and judges.
use instnt_aries_vcx.Base.{◌≡◌, refl, true, ok, [], for_each, contains_key}
use instnt_aries_vcx.Anoncreds.Request.{request_v1}
use instnt_aries_vcx.Anoncreds.Selection.{SelectedCredentials}
use instnt_aries_vcx.Issuance.Encoding.{encode}
use instnt_aries_vcx.Proof.Requests.{presentation_request_from_str}
use instnt_aries_vcx.Proof.Prover.Build.{
  generate_indy_proof, credential_def_identifiers, infos_of, build_rev_states_json, add_states,
  build_requested_credentials_json, build_schemas_json_prover, build_cred_defs_json_prover,
}
use instnt_aries_vcx.Proof.Verifier.Check.{
  validate_indy_proof, validate_proof_revealed_attributes, check_all_revealed, check_revealed,
  get_credential_info, cred_infos_of, build_cred_defs_json_verifier, fetch_cred_def,
  build_schemas_json_verifier, fetch_schema, build_rev_reg_defs_json, fetch_rev_reg_def,
  build_rev_reg_json, fetch_rev_reg,
}
use instnt_aries_vcx.Samples.World.{sample, payload}

abbrev pub chosen : SelectedCredentials
chosen = record { credential_for_referent = [] }

pub sample_judges : validate_indy_proof sample "p" "r" 0 ≡ (ok true, 0)
unfolding encode validate_indy_proof validate_proof_revealed_attributes check_all_revealed
    check_revealed get_credential_info cred_infos_of build_cred_defs_json_verifier fetch_cred_def
    build_schemas_json_verifier fetch_schema build_rev_reg_defs_json fetch_rev_reg_def
    build_rev_reg_json fetch_rev_reg for_each contains_key presentation_request_from_str
sample_judges = refl

pub sample_parses : presentation_request_from_str sample "r" ≡ ok (request_v1 payload)
unfolding presentation_request_from_str
sample_parses = refl

pub sample_proves : generate_indy_proof sample chosen [] (request_v1 payload) 0 ≡ (ok "p", 0)
unfolding generate_indy_proof credential_def_identifiers infos_of build_rev_states_json add_states
    build_requested_credentials_json build_schemas_json_prover build_cred_defs_json_prover for_each
sample_proves = refl
