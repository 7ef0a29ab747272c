-- ===== src/Issuance/Holder/Store.antt =====
-- Taking a received credential: `_parse_rev_reg_id_from_credential` and `_store_credential` of
-- holder/state_machine.rs.
use Prim.Native.String.{◌++◌}
use instnt_aries_vcx.Base.{String, Option, none, some, map_err, and_then, ok, pure, lift, ◌>>=◌}
use instnt_aries_vcx.Errors.{VcxResult, from_msg, invalid_json}
use instnt_aries_vcx.Messages.Issuance.{IssueCredentialV1}
use instnt_aries_vcx.Runtime.{Runtime, Vcx, converted, call}
use instnt_aries_vcx.Util.Attach.{get_attach_as_string}

module _ (R : Runtime) where
  open R use {RevocationRegistryDefinition}

  unfoldable pub parse_rev_reg_id_from_credential : String → VcxResult (Option String)
  parse_rev_reg_id_from_credential credential =
      and_then
        (map_err
          (λ e.
            from_msg invalid_json
              ("Invalid Credential Json: " ++ (credential ++ (", err: " ++ R.debug_fault e))))
          (R.value_from_str credential))
        (λ parsed. ok (R.value_as_str (R.value_index parsed "rev_reg_id")))

  -- `if let Some(rev_reg_id) = rev_reg_id { .. } else { None }`
  unfoldable pub fetch_rev_reg_def : Option String → Vcx R (Option RevocationRegistryDefinition)
  fetch_rev_reg_def none = pure none
  fetch_rev_reg_def (some rev_reg_id) = do
    id ← lift (converted R (R.rev_reg_id_try_from rev_reg_id))
    fetched ← call R (R.get_rev_reg_def_json id)
    pure (some fetched.0)

  -- `rev_reg_def_json.as_ref().map(serde_json::to_string).transpose()?`
  unfoldable pub rev_reg_def_text : Option RevocationRegistryDefinition → VcxResult (Option String)
  rev_reg_def_text none = ok none
  rev_reg_def_text (some d) = and_then (converted R (R.rev_reg_def_to_string d)) (λ t. ok (some t))

  unfoldable pub store_credential :
      IssueCredentialV1 → String → String → String → Vcx R (String × Option String)
  store_credential credential req_meta cred_def_json schema_json = do
    credential_json ← lift (get_attach_as_string R credential.content.credentials_attach)
    rev_reg_id ← lift (parse_rev_reg_id_from_credential credential_json)
    rev_reg_def ← fetch_rev_reg_def rev_reg_id
    metadata ← lift (converted R (R.metadata_from_str req_meta))
    unprocessed ← lift (converted R (R.credential_from_str credential_json))
    schema ← lift (converted R (R.schema_from_str schema_json))
    cred_def ← lift (converted R (R.cred_def_from_str cred_def_json))
    cred_id ← call R (R.prover_store_credential metadata unprocessed schema cred_def rev_reg_def)
    text ← lift (rev_reg_def_text rev_reg_def)
    pure (cred_id, text)
