-- ===== src/Issuance/Issuer/Handler.antt =====
-- aries/aries_vcx/src/handlers/issuance/issuer.rs: the object `Issuer` that an agent keeps.
-- A `&mut self` method returns its result, the object after the call, and the world. Each runs the
-- machine on a copy and assigns only after the `?`, so an error leaves the object as it was.
use Prim.Native.String.{◌++◌}
use instnt_aries_vcx.Base.{
  String, Option, none, some, List, [], ◌∷◌, ok_or, map_err, and_then, ok, err, pure, lift, ◌>>=◌,
}
use instnt_aries_vcx.Errors.{
  VcxResult, from_msg, invalid_attributes_structure, invalid_json, invalid_option,
}
use instnt_aries_vcx.Messages.Parts.{MimeType}
use instnt_aries_vcx.Messages.Issuance.{
  CredentialAttr, CredentialPreviewV1, CredentialIssuanceV1, IssueCredentialV1,
}
use instnt_aries_vcx.Messages.Aries.{
  AriesMessage, CredentialIssuance, Notification, credential_issuance, report_problem, notification,
  general,
}
use instnt_aries_vcx.Runtime.{Runtime, Vcx, converted, call}
use instnt_aries_vcx.Issuance.Issuer.States.{IssuerSm, OfferInfo}
use instnt_aries_vcx.Issuance.Issuer.Machine
use instnt_aries_vcx.Issuance.Issuer.Machine.{
  receive_proposal, receive_request, receive_ack, receive_problem_report,
}
use instnt_aries_vcx.Issuance.Issuer.Queries

pub record Issuer : Type 0 where
  pub issuer_sm : IssuerSm

abbrev attr : String → String → CredentialAttr
attr name value = record { name = name; value = value; mime_type = some MimeType.plain }

module _ (R : Runtime) where
  open R use {World, Value}

  abbrev text_value : Value → VcxResult String
  text_value value =
      ok_or (R.value_as_str value)
        (from_msg invalid_option "Credential values are currently only allowed to be strings")

  abbrev field : Value → String → VcxResult Value
  field cred_value name = ok_or (R.value_get cred_value name) (
      from_msg invalid_attributes_structure
        ("No '" ++ (name ++ ("' field in cred_value: " ++ R.debug_value cred_value))))

  -- The loop over an array of objects with a `name` and a `value`.
  unfoldable pub attrs_of_array : List Value → VcxResult (List CredentialAttr)
  attrs_of_array [] = ok []
  attrs_of_array (v ∷ rest) = and_then (field v "name") λ key. and_then (field v "value") λ value.
      and_then
        (ok_or (R.value_as_str key) (
          from_msg invalid_option
            "Credential value names are currently only allowed to be strings"))
        λ name.
          and_then (text_value value)
            λ text. and_then (attrs_of_array rest) λ more. ok (attr name text ∷ more)

  -- The loop over the fields of an object.
  unfoldable pub attrs_of_object : List (String × Value) → VcxResult (List CredentialAttr)
  attrs_of_object [] = ok []
  attrs_of_object ((key, v) ∷ rest) =
      and_then (text_value v)
        λ text. and_then (attrs_of_object rest) λ more. ok (attr key text ∷ more)

  -- `match cred_values { Array(..) => .., Object(..) => .., _ => {} }`
  abbrev attrs_of :
      Option (List Value) → Option (List (String × Value)) → VcxResult (List CredentialAttr)
  attrs_of (some values) _ = attrs_of_array values
  attrs_of none (some pairs) = attrs_of_object pairs
  attrs_of none none = ok []

  -- `_build_credential_preview`
  unfoldable pub build_credential_preview : String → VcxResult CredentialPreviewV1
  build_credential_preview credential_json =
      and_then
        (map_err
          (λ e. from_msg invalid_json (
            "Can't deserialize credential preview json. credential_json: "
            ++ (credential_json ++ (", error: " ++ R.debug_fault e))))
          (R.value_from_str credential_json))
        λ v.
          and_then (attrs_of (R.value_as_array v) (R.value_as_object v))
            (λ attributes. ok (record { attributes = attributes }))

  -- The result of a `&mut self` method.
  abbrev pub Method : Type 0 → Type 0
  Method A = World → VcxResult A × Issuer × World

  -- `self.issuer_sm = <machine>?; Ok(())`
  abbrev assign : Issuer → VcxResult IssuerSm → World → VcxResult Unit × Issuer × World
  assign self (ok sm) w = (ok tt, record { issuer_sm = sm }, w)
  assign self (err e) w = (err e, self, w)

  abbrev update : Issuer → Vcx R IssuerSm → Method Unit
  update self m w = let (r, w') = m w in assign self r w'

  unfoldable pub build_credential_offer_msg : Issuer → OfferInfo → Option String → Method Unit
  build_credential_offer_msg self info comment = update self (do
    preview ← lift (build_credential_preview info.credential_json)
    made ← call R (R.issuer_create_credential_offer info.cred_def_id)
    text ← lift (converted R (R.offer_to_string made))
    Machine.build_credential_offer_msg R self.issuer_sm text preview comment info)

  unfoldable pub build_credential : Issuer → Method Unit
  build_credential self = update self (Machine.build_credential R self.issuer_sm)

  unfoldable pub get_msg_issue_credential : Issuer → Vcx R IssueCredentialV1
  get_msg_issue_credential self = Queries.get_msg_issue_credential R self.issuer_sm

  unfoldable pub process_aries_msg : Issuer → AriesMessage → Method Unit
  process_aries_msg self
        (credential_issuance (CredentialIssuance.v1 (CredentialIssuanceV1.propose_credential p))) =
      update self (lift (receive_proposal R self.issuer_sm p))
  process_aries_msg self
        (credential_issuance (CredentialIssuance.v1 (CredentialIssuanceV1.request_credential q))) =
      update self (lift (receive_request R self.issuer_sm q))
  process_aries_msg self
        (credential_issuance (CredentialIssuance.v1 (CredentialIssuanceV1.ack a))) =
      update self (lift (receive_ack R self.issuer_sm a))
  process_aries_msg self (report_problem r) =
      update self (lift (receive_problem_report R self.issuer_sm r))
  process_aries_msg self (notification (Notification.problem_report r)) =
      update self (lift (receive_problem_report R self.issuer_sm (general (λ c. c.inner) r)))
  process_aries_msg self
        (credential_issuance (CredentialIssuance.v1 (CredentialIssuanceV1.problem_report r))) =
      update self (lift (receive_problem_report R self.issuer_sm (general (λ c. c.inner) r)))
  process_aries_msg self _ = update self (pure self.issuer_sm)
