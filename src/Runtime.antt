-- ===== src/Runtime.antt =====
-- What the modelled code calls and does not implement: the random identifiers and the clock, base64
-- and UTF-8, `serde_json`, and behind the traits `AnoncredsLedgerRead` and `BaseAnonCreds` the
-- ledger, the wallet and the anoncreds library. The whole is a parameter of the development.
use instnt_aries_vcx.Base.{
  ℕ, String, ◌≡◌, Option, some, List, [], ◌∷◌, Bool, Result, Effect, Action, map_err, ◌<◌, ok, Map,
}
use Prim.Native.Nat.{◌^◌}
use Prim.Native.String.{◌++◌}
use instnt_aries_vcx.Errors.{AriesVcxError, VcxResult}
use instnt_aries_vcx.Messages.Parts.{Attachment}
use instnt_aries_vcx.Messages.Proof.{PresentationPreview}
use instnt_aries_vcx.Anoncreds.Request.{PresentationRequestPayload, PresentationRequest}
use instnt_aries_vcx.Anoncreds.Selection.{RequestedCredentials, RetrievedCredentials}
use instnt_aries_vcx.DidDoc.Doc.{AriesService, AriesDidDoc}
use instnt_aries_vcx.Messages.Connection.{ConnectionData, Response}
use instnt_aries_vcx.Messages.Aries.{AriesMessage, OtherMessage, Undecorated}

-- `json!({"raw": .., "encoded": ..})`
pub record AttributeValues : Type 0 where
  pub raw : String
  pub encoded : String

pub record Runtime : Type 1 where
  -- The state of the outside world: the wallet, the ledger, the clock and the random source.
  pub World : Type 0
  -- `Uuid::new_v4().to_string()` and `Utc::now()`
  pub new_v4 : Effect World String
  pub utc_now : Effect World ℕ
  -- An error of a crate that is called, its `Display`, and its conversion by `?`.
  pub Fault : Type 0
  pub display : Fault → String
  pub into_error : Fault → AriesVcxError
  -- The derived `Debug` texts that stand in error messages.
  pub debug_text : String → String
  pub debug_optional_text : Option String → String
  pub debug_attachment : Option Attachment → String
  pub debug_message : AriesMessage → String
  pub debug_fault : Fault → String
  -- base64 (`general_purpose::STANDARD`), `str::as_bytes` and `String::from_utf8`
  pub base64_encode : List ℕ → String
  pub base64_decode : String → Option (List ℕ)
  pub as_bytes : String → List ℕ
  pub from_utf8 : List ℕ → Option String
  -- `str::parse::<u32>` and `u32::to_string`
  pub parse_u32 : String → Result Fault ℕ
  pub u32_to_string : ℕ → String
  -- `text.split(pattern)`
  pub split : String → String → List String
  -- `serde_json::Value`
  pub Value : Type 0
  pub value_from_str : String → Result Fault Value
  pub value_index : Value → String → Value
  pub value_as_str : Value → Option String
  pub value_as_object : Value → Option (List (String × Value))
  pub value_as_array : Value → Option (List Value)
  pub debug_value : Value → String
  pub value_get : Value → String → Option Value
  pub value_is_null : Value → Bool
  -- `from_str` at a `HashMap` of values, and at a list of values. A `HashMap` iterates in an order
  -- that it draws from the random source: the list is in this order.
  pub map_from_str : String → Action World Fault (List (String × Value))
  pub vec_from_str : String → Result Fault (List Value)
  -- `to_string_pretty` of a `HashMap` from names to objects with a `raw` and an `encoded` text, in
  -- the order that it has drawn.
  pub dictionary_to_string : List (String × AttributeValues) → Action World Fault String
  -- `Sha256`, and `BigUint::from_bytes_be(..).to_str_radix(10)`
  pub sha256 : List ℕ → List ℕ
  pub decimal_of_bytes : List ℕ → String
  -- The text of an object made by inserting the pairs, as JSON strings, one after the other.
  pub object_to_string : List (String × String) → String
  -- The `values` of a text that deserializes as `CredentialData`.
  pub credential_data_values : String → Result Fault Value
  -- The data types of anoncreds_types, which pass through unread but for two identifiers.
  pub CredentialOffer : Type 0
  pub CredentialRequest : Type 0
  pub CredentialRequestMetadata : Type 0
  pub Credential : Type 0
  pub CredentialValues : Type 0
  pub Schema : Type 0
  pub CredentialDefinition : Type 0
  pub RevocationRegistryDefinition : Type 0
  pub RevocationRegistryDelta : Type 0
  pub offer_schema_id : CredentialOffer → String
  pub offer_cred_def_id : CredentialOffer → String
  pub offer_from_str : String → Result Fault CredentialOffer
  pub offer_to_string : CredentialOffer → Result Fault String
  pub request_from_str : String → Result Fault CredentialRequest
  pub request_to_string : CredentialRequest → String
  pub metadata_from_str : String → Result Fault CredentialRequestMetadata
  pub metadata_to_string : CredentialRequestMetadata → String
  pub credential_from_str : String → Result Fault Credential
  pub credential_to_string : Credential → String
  pub values_from_str : String → Result Fault CredentialValues
  pub schema_from_str : String → Result Fault Schema
  pub schema_to_string : Schema → Result Fault String
  pub cred_def_from_str : String → Result Fault CredentialDefinition
  pub cred_def_to_string : CredentialDefinition → String
  pub cred_def_to_value : CredentialDefinition → Result Fault Value
  pub cred_def_try_clone : CredentialDefinition → Result Fault CredentialDefinition
  pub rev_reg_def_to_string : RevocationRegistryDefinition → Result Fault String
  -- `TryFrom<String>` of the identifier types, whose values are their texts.
  pub cred_def_id_try_from : String → Result Fault String
  pub rev_reg_id_try_from : String → Result Fault String
  -- `AnoncredsLedgerRead`, without a submitter; and of `get_rev_reg_delta_json` (from, to) the
  -- delta alone; then the indices in its `value.revoked`.
  pub get_schema : String → Action World Fault Schema
  pub get_cred_def : String → Action World Fault CredentialDefinition
  pub AdditionalMetadata : Type 0
  pub get_rev_reg_def_json :
      String → Action World Fault (RevocationRegistryDefinition × AdditionalMetadata)
  pub get_rev_reg_delta_json :
      String → Option ℕ → Option ℕ → Action World Fault RevocationRegistryDelta
  pub delta_revoked : RevocationRegistryDelta → List ℕ
  -- `OffsetDateTime::now_utc().unix_timestamp()`
  pub unix_timestamp : Effect World ℕ
  -- `BaseAnonCreds`, at the wallet that the world holds
  pub issuer_create_credential_offer : String → Action World Fault CredentialOffer
  pub issuer_create_credential :
      CredentialOffer
      → CredentialRequest
      → CredentialValues
      → Option String
      → Option String
      → Action World Fault (Credential × Option ℕ)
  pub prover_create_credential_req :
      String
      → CredentialOffer
      → CredentialDefinition
      → String
      → Action World Fault (CredentialRequest × CredentialRequestMetadata)
  pub prover_store_credential :
      CredentialRequestMetadata
      → Credential
      → Schema
      → CredentialDefinition
      → Option RevocationRegistryDefinition
      → Action World Fault String
  pub prover_delete_credential : String → Action World Fault (Unit {0})
  pub revoke_credential_local : String → ℕ → RevocationRegistryDelta → Action World Fault (Unit {0})
  -- the `cred_rev_id` of the credential that `prover_get_credential` returns
  pub prover_get_credential : String → Action World Fault (Option ℕ)
  -- base58, and the `Debug` text of a key reference, by its fields
  pub bs58_decode : String → Result Fault (List ℕ)
  pub debug_key_reference : Option String → String → String
  -- The connection protocol: what it signs, and the keys of the wallet. `u64::to_be_bytes`, the
  -- lenient base64 for URLs, JSON of connection data, and `Key::from_base58` for Ed25519.
  pub to_be_bytes : ℕ → List ℕ
  pub url_base64_encode : List ℕ → String
  pub url_base64_decode : String → Result Fault (List ℕ)
  pub connection_data_to_string : ConnectionData → String
  pub connection_data_from_slice : List ℕ → Result Fault ConnectionData
  pub Key : Type 0
  pub key_from_base58 : String → Result Fault Key
  pub sign : Key → List ℕ → Action World Fault (List ℕ)
  pub verify : Key → List ℕ → List ℕ → Action World Fault Bool
  -- the DID and the base58 key of `create_and_store_my_did(None, None)`
  pub create_and_store_my_did : Action World Fault (String × String)
  -- `get_service` and `oob_invitation_to_legacy_did_doc` of aries_vcx, which ask the ledger
  pub did_from_str : String → Result Fault String
  pub get_service : String → Action World AriesVcxError AriesService
  pub oob_invitation_to_legacy_did_doc :
      OtherMessage Undecorated → Action World AriesVcxError AriesDidDoc
  pub debug_response : Response → String
  -- `serde_json` objects, made by inserting the pairs one after the other, and their texts.
  pub object_of : Map Value → Value
  pub value_of_text : String → Value
  pub value_to_string : Value → String
  pub value_as_u64 : Value → Option ℕ
  pub u64_to_string : ℕ → String
  -- The optional text `ver` of an object, the derived `Deserialize` and `Serialize` of a request
  -- payload, and the error of a variant that there is not.
  pub ver_from_value : Value → Result Fault (Option String)
  pub payload_from_value : Value → Result Fault PresentationRequestPayload
  pub payload_to_object : PresentationRequestPayload → Map Value
  pub unknown_variant : String → Fault
  pub preview_from_str : String → Result Fault PresentationPreview
  -- What the ledger and the anoncreds library exchange to make and to check a proof.
  pub Presentation : Type 0
  pub presentation_from_str : String → Result Fault Presentation
  pub presentation_to_string : Presentation → Result Fault String
  pub RevocationRegistry : Type 0
  pub RevocationStatusList : Type 0
  pub CredentialRevocationState : Type 0
  pub schema_to_value : Schema → Result Fault Value
  pub rev_reg_def_to_value : RevocationRegistryDefinition → Result Fault Value
  -- of a `CredInfoVerifier`, by its fields
  pub debug_cred_info : String → String → Option String → Option ℕ → String
  pub debug_rev_reg_def : RevocationRegistryDefinition → String
  pub rev_reg_to_value : RevocationRegistry → Result Fault Value
  pub debug_rev_reg : RevocationRegistry → String
  pub schema_id_new : String → Result Fault String
  pub schemas_from_str : String → Result Fault (Map Schema)
  pub cred_defs_from_str : String → Result Fault (Map CredentialDefinition)
  pub rev_reg_defs_from_str : String → Result Fault (Map RevocationRegistryDefinition)
  pub rev_regs_from_str : String → Result Fault (Map (List (ℕ × RevocationRegistry)))
  -- `Utc::now().timestamp() as u64`
  pub utc_timestamp : Effect World ℕ
  pub get_rev_reg : String → ℕ → Action World Fault (RevocationRegistry × ℕ)
  pub get_rev_status_list :
      String → ℕ → Option AdditionalMetadata → Action World Fault (RevocationStatusList × ℕ)
  pub create_revocation_state :
      String
      → RevocationRegistryDefinition
      → RevocationStatusList
      → ℕ
      → Action World Fault CredentialRevocationState
  pub prover_create_proof :
      PresentationRequest
      → RequestedCredentials
      → String
      → Map Schema
      → Map CredentialDefinition
      → Option (Map (List (ℕ × CredentialRevocationState)))
      → Action World Fault Presentation
  pub verifier_verify_proof :
      PresentationRequest
      → Presentation
      → Map Schema
      → Map CredentialDefinition
      → Map RevocationRegistryDefinition
      → Map (List (ℕ × RevocationRegistry))
      → Action World Fault Bool
  pub prover_get_credentials_for_proof_req :
      PresentationRequest → Action World Fault RetrievedCredentials

-- Documented behaviour of base64 and of UTF-8: what was encoded decodes to itself.
pub record Codec (R : Runtime) : Type 0 where
  pub decode-encode : (bytes : List ℕ) → R.base64_decode (R.base64_encode bytes) ≡ some bytes
  pub from_utf8-as_bytes : (text : String) → R.from_utf8 (R.as_bytes text) ≡ some text

-- Documented behaviour of `to_string` and `parse` of a `u32`.
pub record Decimal (R : Runtime) : Type 0 where
  pub parse-to_string : (n : ℕ) → n < 2 ^ 32 → R.parse_u32 (R.u32_to_string n) ≡ ok n

-- Documented behaviour of `split` at "::": the search goes from left to right, so that a text cuts
-- off behind it if the two colons do not occur earlier; and a `u32` is printed without any.
pub record Splitting (R : Runtime) : Type 0 where
  pub split-append :
      (a b : String)
      → R.split (a ++ ":") "::" ≡ (a ++ ":") ∷ []
      → R.split (a ++ ("::" ++ b)) "::" ≡ a ∷ R.split b "::"
  pub split-u32 : (n : ℕ) → n < 2 ^ 32 → R.split (R.u32_to_string n) "::" ≡ R.u32_to_string n ∷ []

module _ (R : Runtime) where
  open R use {World, Fault, into_error}

  -- `VcxResult` of a function with effects.
  abbrev pub Vcx : Type 0 → Type 0
  Vcx A = Action World AriesVcxError A

  -- `r?`, where `r` has an error of another crate.
  abbrev pub converted : {A : Type 0} → Result Fault A → VcxResult A
  converted r = map_err into_error r

  -- `m.await?`
  abbrev pub call : {A : Type 0} → Action World Fault A → Vcx A
  call m w = let (r, w') = m w in (map_err into_error r, w')
