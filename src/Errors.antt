-- ===== src/Errors.antt =====
-- aries/aries_vcx/src/errors/error.rs: the error of every fallible call of the crate.
use instnt_aries_vcx.Base.{String, Option, none, some, Result, err}
use Prim.Native.String.{◌++◌}

pub data AriesVcxErrorKind : Type 0 where
  invalid_state invalid_configuration authentication_error invalid_json : AriesVcxErrorKind
  invalid_option invalid_message_pack not_ready io_error : AriesVcxErrorKind
  libindy_invalid_structure invalid_libindy_param action_not_supported : AriesVcxErrorKind
  invalid_input unimplemented_feature cred_def_already_created : AriesVcxErrorKind
  rev_delta_not_found rev_delta_failed_to_clear create_rev_reg_def : AriesVcxErrorKind
  invalid_revocation_details invalid_revocation_entry : AriesVcxErrorKind
  invalid_revocation_timestamp rev_reg_def_not_found : AriesVcxErrorKind
  invalid_attributes_structure invalid_proof invalid_schema : AriesVcxErrorKind
  invalid_proof_credential_data invalid_proof_request proof_rejected : AriesVcxErrorKind
  invalid_schema_seq_no duplication_schema unknown_schema_rejection : AriesVcxErrorKind
  invalid_genesis_txn_path create_pool_config pool_ledger_connect : AriesVcxErrorKind
  invalid_ledger_response ledger_item_not_found no_pool_open : AriesVcxErrorKind
  post_message_failed wallet_create wallet_access_failed : AriesVcxErrorKind
  invalid_wallet_handle duplication_wallet wallet_record_not_found : AriesVcxErrorKind
  duplication_wallet_record wallet_not_found wallet_already_open : AriesVcxErrorKind
  duplication_master_secret duplication_did logging_error encode_error : AriesVcxErrorKind
  unknown_error invalid_did invalid_verkey invalid_nonce invalid_url : AriesVcxErrorKind
  serialization_error not_base58 parsing_error wallet_error : AriesVcxErrorKind
  invalid_http_response invalid_messages ursa_error no_agent_information : AriesVcxErrorKind
  invalid_message_format : AriesVcxErrorKind

pub record AriesVcxError : Type 0 where
  pub msg : String
  pub kind : AriesVcxErrorKind
  pub backtrace : Option String

abbrev pub VcxResult : Type 0 → Type 0
VcxResult A = Result AriesVcxError A

-- `AriesVcxError::from_msg`, built without the feature `backtrace_errors`.
abbrev pub from_msg : AriesVcxErrorKind → String → AriesVcxError
from_msg kind msg = record { msg = msg; kind = kind; backtrace = none }

-- `format_error`: the type has no `source`, so the loop over the causes writes nothing.
pub to_string : AriesVcxError → String
to_string e =
    let head = "Error: " ++ (e.msg ++ "\n") in
    elim e.backtrace [ none ↦ head | some b ↦ head ++ ("Backtrace: " ++ (b ++ "\n")) ]

-- `Err(AriesVcxError::from_msg(kind, msg))`
abbrev pub fail : {A : Type 0} → AriesVcxErrorKind → String → VcxResult A
fail kind msg = err (from_msg kind msg)
