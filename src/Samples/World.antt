-- ===== src/Samples/World.antt =====
-- A small world outside: every library call succeeds, identifiers are drawn from a counter, and a
-- proof is valid if its text is "p".
use instnt_aries_vcx.Base.{
  true, ◌++◌, ℕ, String, Option, none, some, List, [], ◌∷◌, false, Result, ok, err, ◌==◌,
  if◌then◌else◌,
}
use Prim.Native.Nat.{zero, suc}
use instnt_aries_vcx.Errors.{from_msg, invalid_json}
use instnt_aries_vcx.Anoncreds.Request.{PresentationRequestPayload}
use instnt_aries_vcx.Runtime.{Runtime, Codec, Decimal, Splitting}
use instnt_aries_vcx.Query.Json.{JsonValue, string, object, field, end}
use instnt_aries_vcx.DidDoc.Doc.{default_doc, default_service}
use instnt_aries_vcx.Samples.Json.{
  parse, index, get, as_str, as_object, as_array, object_of, text_of,
}
use instnt_aries_vcx.Samples.Decode.{as_bytes, from_utf8, from_utf8-as_bytes}
use instnt_aries_vcx.Samples.Texts.{number, to_text, from_slice}
use instnt_aries_vcx.Samples.Split.{cut, cut-append, cut-before}
use instnt_aries_vcx.Samples.Unary.{encode, decode, decode-encode}

abbrev id_text : ℕ → String
id_text zero = "i"
id_text (suc zero) = "j"
id_text _ = "k"

abbrev first_number : Option (List ℕ) → Result String ℕ
first_number (some (n ∷ _)) = ok n
first_number _ = err "no number"

-- Every call answers with this text, and leaves the counter.
abbrev answer : {A : Type 0} → A → ℕ → Result String A × ℕ
answer a w = (ok a, w)

abbrev decoded : Option (List ℕ) → Result String (List ℕ)
decoded (some bytes) = ok bytes
decoded none = err "not base64"

-- Thirty-two bytes, for the keys of the samples.
abbrev key_bytes : String → List ℕ
key_bytes t =
    let four : List ℕ = 0 ∷ 0 ∷ 0 ∷ 0 ∷ [] in
    let sixteen : List ℕ = four ++ (four ++ (four ++ four)) in
    if t == "#" then [] else sixteen ++ sixteen

abbrev pub named : String → String → JsonValue
named name value = object (field "name" (string name) (field "value" (string value) end))

abbrev pub payload : PresentationRequestPayload
payload = record {
  nonce = "1";
  name = "n";
  version = "1.0";
  requested_attributes = [];
  requested_predicates = [];
  non_revoked = none;
}

abbrev pub sample : Runtime
sample = record {
  World = ℕ;
  new_v4 = λ w. (id_text w, suc w);
  utc_now = λ w. (w, w);
  Fault = String;
  display = λ e. e;
  into_error = λ e. from_msg invalid_json e;
  debug_text = λ t. t;
  debug_optional_text = λ _. "";
  debug_attachment = λ _. "";
  debug_message = λ _. "";
  debug_fault = λ e. e;
  base64_encode = encode;
  base64_decode = decode;
  as_bytes = as_bytes;
  from_utf8 = from_utf8;
  parse_u32 = λ t. first_number (decode t);
  u32_to_string = λ n. encode (n ∷ []);
  split = λ t pattern. if pattern == "::" then cut t else t ∷ [];
  Value = JsonValue;
  value_from_str = λ t. ok (parse t);
  value_index = index;
  value_as_str = as_str;
  value_as_object = as_object;
  value_as_array = as_array;
  map_from_str = λ t w. (if t == "m" then ok (("a", string "1") ∷ []) else err "no map", w);
  vec_from_str = λ t. if t == "v" then ok (named "a" "1" ∷ []) else err "no list";
  dictionary_to_string = λ _. answer "{}";
  sha256 = λ bytes. bytes;
  decimal_of_bytes = encode;
  debug_value = text_of;
  value_get = get;
  value_is_null = λ _. false;
  object_to_string = λ _. "{}";
  credential_data_values = λ t. ok (string t);
  CredentialOffer = String;
  CredentialRequest = String;
  CredentialRequestMetadata = String;
  Credential = String;
  CredentialValues = String;
  Schema = String;
  CredentialDefinition = String;
  RevocationRegistryDefinition = String;
  RevocationRegistryDelta = List ℕ;
  offer_schema_id = λ _. "s";
  offer_cred_def_id = λ _. "d";
  offer_from_str = λ t. ok t;
  offer_to_string = λ t. ok t;
  request_from_str = λ t. ok t;
  request_to_string = λ t. t;
  metadata_from_str = λ t. ok t;
  metadata_to_string = λ t. t;
  credential_from_str = λ t. ok t;
  credential_to_string = λ t. t;
  values_from_str = λ t. ok t;
  schema_from_str = λ t. ok t;
  schema_to_string = λ t. ok t;
  cred_def_from_str = λ t. ok t;
  cred_def_to_string = λ t. t;
  cred_def_to_value = λ t. ok (string t);
  cred_def_try_clone = λ t. ok t;
  rev_reg_def_to_string = λ t. ok t;
  cred_def_id_try_from = λ t. ok t;
  rev_reg_id_try_from = λ t. ok t;
  get_schema = λ _. answer "s";
  get_cred_def = λ _. answer "d";
  AdditionalMetadata = Unit;
  get_rev_reg_def_json = λ _. answer ("g", tt);
  get_rev_reg_delta_json = λ _ _ _. answer [];
  delta_revoked = λ d. d;
  revoke_credential_local = λ _ _ _. answer tt;
  unix_timestamp = λ w. (w, w);
  issuer_create_credential_offer = λ _. answer "o";
  issuer_create_credential = λ _ _ _ _ _. answer ("c", some 7);
  prover_create_credential_req = λ _ _ _ _. answer ("q", "m");
  prover_store_credential = λ _ _ _ _ _. answer "stored";
  prover_delete_credential = λ _. answer tt;
  prover_get_credential = λ _. answer (some 7);
  bs58_decode = λ t. ok (key_bytes t);
  debug_key_reference = λ _ t. t;
  to_be_bytes = λ _. 0 ∷ 0 ∷ 0 ∷ 0 ∷ 0 ∷ 0 ∷ 0 ∷ 0 ∷ [];
  url_base64_encode = encode;
  url_base64_decode = λ t. decoded (decode t);
  connection_data_to_string = to_text;
  connection_data_from_slice = from_slice;
  Key = String;
  key_from_base58 = λ t. ok t;
  sign = λ _ bytes. answer bytes;
  verify = λ _ data_ signature. answer true;
  create_and_store_my_did = answer ("n", "key_n");
  did_from_str = λ t. ok t;
  get_service = λ _ w. (ok default_service, w);
  oob_invitation_to_legacy_did_doc = λ _ w. (ok default_doc, w);
  debug_response = λ _. "";
  object_of = object_of;
  value_of_text = string;
  value_to_string = text_of;
  value_as_u64 = λ _. some 5;
  u64_to_string = number;
  ver_from_value = λ _. ok none;
  payload_from_value = λ _. ok payload;
  payload_to_object = λ _. [];
  unknown_variant = λ t. t;
  preview_from_str = λ _. ok (record { attributes = []; predicates = [] });
  Presentation = String;
  presentation_from_str = λ t. ok t;
  presentation_to_string = λ t. ok t;
  RevocationRegistry = String;
  RevocationStatusList = String;
  CredentialRevocationState = String;
  schema_to_value = λ t. ok (string t);
  rev_reg_def_to_value = λ t. ok (string t);
  debug_cred_info = λ t _ _ _. t;
  debug_rev_reg_def = λ t. t;
  rev_reg_to_value = λ t. ok (string t);
  debug_rev_reg = λ t. t;
  schema_id_new = λ t. ok t;
  schemas_from_str = λ _. ok [];
  cred_defs_from_str = λ _. ok [];
  rev_reg_defs_from_str = λ _. ok [];
  rev_regs_from_str = λ _. ok [];
  utc_timestamp = λ w. (w, w);
  get_rev_reg = λ _ t. answer ("r", t);
  get_rev_status_list = λ _ t _. answer ("l", t);
  create_revocation_state = λ _ _ _ _. answer "state";
  prover_create_proof = λ _ _ _ _ _ _. answer "p";
  verifier_verify_proof = λ _ proof _ _ _ _. answer (proof == "p");
  prover_get_credentials_for_proof_req = λ _. answer (record { credentials_by_referent = [] });
}

pub sample-Codec : Codec sample
sample-Codec = record { decode-encode = decode-encode; from_utf8-as_bytes = from_utf8-as_bytes }

pub sample-Decimal : Decimal sample
sample-Decimal = record { parse-to_string = λ n _. rw (decode-encode (n ∷ [])) }

pub sample-Splitting : Splitting sample
sample-Splitting = record { split-append = cut-append; split-u32 = λ n _. cut-before n }
