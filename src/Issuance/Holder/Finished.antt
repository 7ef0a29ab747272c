-- ===== src/Issuance/Holder/Finished.antt =====
-- What a finished exchange offers: `FinishedHolderState` of holder/states/finished.rs.
use Prim.Native.String.{◌++◌}
use instnt_aries_vcx.Base.{
  String, Option, none, some, List, [], ◌∷◌, ok_or, map_err, and_then, ok, err, Map, lookup,
}
use instnt_aries_vcx.Errors.{
  VcxResult, from_msg, fail, invalid_json, invalid_state, serialization_error,
}
use instnt_aries_vcx.Runtime.{Runtime}
use instnt_aries_vcx.Util.Attach.{get_attach_as_string}
use instnt_aries_vcx.Issuance.Holder.States.{FinishedHolderState}

-- `get_cred_id`
unfoldable pub cred_id_of : FinishedHolderState → VcxResult String
cred_id_of self =
    ok_or self.cred_id
      (from_msg invalid_json "The field 'cred_id' not found on FinishedHolderState")

module _ (R : Runtime) where
  open R use {Value}

  -- `get_attachment`
  unfoldable pub attachment_of : FinishedHolderState → VcxResult String
  attachment_of self =
      and_then (ok_or self.credential (from_msg invalid_state "No credential found"))
        (λ c. get_attach_as_string R c.content.credentials_attach)

  -- The loop over the values: the `raw` of each, in the order of the object.
  raw_values : List (String × Value) → VcxResult (List (String × String))
  raw_values [] = ok []
  raw_values ((key, value) ∷ rest) =
      and_then
        (ok_or (R.value_as_str (R.value_index value "raw"))
          (from_msg invalid_json "Missing raw encoding on credential value"))
        (λ raw. and_then (raw_values rest) (λ more. ok ((key, raw) ∷ more)))

  -- `get_attributes`
  unfoldable pub attributes_of : FinishedHolderState → VcxResult String
  unfolding raw_values
  attributes_of self = and_then (attachment_of self) λ attach.
      and_then
        (map_err
          (λ e. from_msg invalid_json (
            "Cannot deserialize "
            ++ (R.debug_text attach ++ (", into CredentialData, err: " ++ R.debug_fault e))))
          (R.credential_data_values attach))
        λ values. elim (R.value_as_object values) [
          | some pairs ↦ and_then (raw_values pairs) (λ m. ok (R.object_to_string m))
          | none ↦ fail invalid_json ("Cannot convert " ++ (R.debug_text attach ++ " into object"))
        ]

  -- The head that `get_tails_location`, `get_tails_hash` and `get_rev_reg_id` share.
  rev_reg_def_value : FinishedHolderState → VcxResult (String × Value)
  rev_reg_def_value self =
      and_then
        (ok_or self.rev_reg_def_json (
          from_msg invalid_state
            "No revocation registry definition found - is this credential revokable?"))
        λ json.
          and_then
            (map_err
              (λ e. from_msg serialization_error (
                "Cannot deserialize "
                ++ (R.debug_text json ++ (" into Value, err: " ++ R.debug_fault e))))
              (R.value_from_str json))
            (λ v. ok (json, v))

  missing : String → String → String
  missing field shown = "The field '" ++ (field ++ ("' not found on rev_reg_def_json: " ++ shown))

  -- `rev_reg_def["value"]` must be an object.
  object_value : String × Value → VcxResult (Map Value)
  unfolding missing
  object_value (json, v) =
      ok_or (R.value_as_object (R.value_index v "value"))
        (from_msg invalid_json (missing "value" (R.debug_text json)))

  -- The text under a key; both callers name `tailsLocation` in the error.
  text_field : Option String → Value → VcxResult String
  unfolding missing
  text_field shown value =
      ok_or (R.value_as_str value)
        (from_msg invalid_json (missing "tailsLocation" (R.debug_optional_text shown)))

  -- A text field of that object. Indexing the map panics where it has no such key: this is `none`.
  tails_field : String → FinishedHolderState → Option (VcxResult String)
  unfolding rev_reg_def_value object_value text_field
  tails_field field self = elim (and_then (rev_reg_def_value self) object_value) [
    | err e ↦ some (err e)
    | ok fields ↦ elim (lookup field fields) [
      | none ↦ none
      | some value ↦ some (text_field self.rev_reg_def_json value)
    ]
  ]

  unfoldable pub tails_location_of : FinishedHolderState → Option (VcxResult String)
  unfolding tails_field
  tails_location_of self = tails_field "tailsLocation" self

  unfoldable pub tails_hash_of : FinishedHolderState → Option (VcxResult String)
  unfolding tails_field
  tails_hash_of self = tails_field "tailsHash" self

  unfoldable pub rev_reg_id_of : FinishedHolderState → VcxResult String
  unfolding rev_reg_def_value missing
  rev_reg_id_of self = and_then (rev_reg_def_value self) λ parsed.
      ok_or (R.value_as_str (R.value_index parsed.1 "id"))
        (from_msg invalid_json (missing "id" (R.debug_text parsed.0)))
