-- ===== src/Proof/Requests.antt =====
-- The hand-written `Deserialize` and `Serialize` of `PresentationRequest` in
-- aries/misc/anoncreds_types/src/data_types/messages/pres_request.rs.
use instnt_aries_vcx.Base.{
  String, Option, none, some, Result, ok, err, and_then, insert, ◌==◌, if◌then◌else◌,
}
use instnt_aries_vcx.Anoncreds.Request.{
  PresentationRequestPayload, PresentationRequest, request_v1, request_v2,
}
use instnt_aries_vcx.Runtime.{Runtime}

module _ (R : Runtime) where
  open R use {Value, Fault}

  abbrev read_as :
      (PresentationRequestPayload → PresentationRequest) → Value → Result Fault PresentationRequest
  read_as c v = and_then (R.payload_from_value v) λ request. ok (c request)

  abbrev with_ver : Option String → Value → Result Fault PresentationRequest
  with_ver none v = read_as request_v1 v
  with_ver (some version) v =
      if version == "1.0"
      then read_as request_v1 v
      else if version == "2.0"
      then read_as request_v2 v
      else err (R.unknown_variant version)

  -- `serde_json::from_str`
  unfoldable pub presentation_request_from_str : String → Result Fault PresentationRequest
  presentation_request_from_str text =
      and_then (R.value_from_str text) λ v. and_then (R.ver_from_value v) λ ver. with_ver ver v

  abbrev object_with_ver : PresentationRequestPayload → String → Value
  object_with_ver payload ver =
      R.object_of (insert "ver" (R.value_of_text ver) (R.payload_to_object payload))

  abbrev serialize : PresentationRequest → Value
  serialize (request_v1 payload) = object_with_ver payload "1.0"
  serialize (request_v2 payload) = object_with_ver payload "2.0"

  -- `json!(request).to_string()`
  unfoldable pub presentation_request_to_string : PresentationRequest → String
  presentation_request_to_string request = R.value_to_string (serialize request)
