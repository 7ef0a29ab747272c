-- ===== src/Issuance/Holder/Queries.antt =====
-- The methods of `HolderSM` that change nothing: holder/state_machine.rs, with the methods of the
-- states `InitialHolderState`, `ProposalSetState`, `OfferReceivedState` and `RequestSetState`.
use Prim.Native.String.{◌++◌}
use instnt_aries_vcx.Base.{
  Option, some, ℕ, String, Bool, true, false, not, ok_or, map_err, and_then, ok, is_some, map, pure,
  throw, lift, ◌>>=◌,
}
use instnt_aries_vcx.Errors.{
  VcxResult, from_msg, fail, invalid_json, invalid_state, not_ready, serialization_error, to_string,
}
use instnt_aries_vcx.Messages.Parts.{ProblemReport}
use instnt_aries_vcx.Messages.Issuance.{OfferCredentialV1, ProposeCredentialV1, issue_credential}
use instnt_aries_vcx.Messages.Aries.{AriesMessage, issuance_v1}
use instnt_aries_vcx.Runtime.{Runtime, Vcx, call}
use instnt_aries_vcx.Util.Attach.{get_attach_as_string}
use instnt_aries_vcx.Util.Report.{undefined, failed, declined, status_code}
use instnt_aries_vcx.Issuance.Ledger.{is_cred_def_revokable, get_cred_rev_id, is_cred_revoked}
use instnt_aries_vcx.Issuance.Holder.States.{
  OfferReceivedState, RequestSetState, HolderSm, initial, proposal_set, offer_received, request_set,
  finished,
}
use instnt_aries_vcx.Issuance.Holder.Finished.{
  cred_id_of, attachment_of, attributes_of, tails_location_of, tails_hash_of, rev_reg_id_of,
}

unfoldable pub get_proposal : HolderSm → VcxResult ProposeCredentialV1
get_proposal self = elim self.state [
  | proposal_set s ↦ ok s.credential_proposal
  | _ ↦ fail invalid_state "Proposal not available in this state"
]

unfoldable pub credential_status : HolderSm → ℕ
credential_status self = elim self.state [
  | finished s ↦ status_code s.status
  | _ ↦ status_code undefined
]

unfoldable pub is_terminal_state : HolderSm → Bool
is_terminal_state self = elim self.state [ finished _ ↦ true | _ ↦ false ]

unfoldable pub get_credential : HolderSm → VcxResult (String × AriesMessage)
get_credential self = elim self.state [
  | finished s ↦
      and_then
        (ok_or s.cred_id (from_msg invalid_state "Cannot get credential: Credential Id not found"))
        λ cred_id.
          and_then
            (ok_or s.credential
              (from_msg invalid_state "Cannot get credential: Credential not found"))
            (λ credential. ok (cred_id, issuance_v1 (issue_credential credential)))
  | _ ↦ fail not_ready "Cannot get credential: Credential Issuance is not finished yet"
]

unfoldable pub get_offer : HolderSm → VcxResult OfferCredentialV1
get_offer self = elim self.state [
  | offer_received s ↦ ok s.offer
  | _ ↦ fail invalid_state "Credential offer can only be obtained from OfferReceived state"
]

unfoldable pub get_cred_id : HolderSm → VcxResult String
get_cred_id self = elim self.state [
  | finished s ↦ cred_id_of s
  | _ ↦ fail not_ready "Cannot get credential id: credential exchange not finished yet"
]

abbrev no_report : {A : Type 0} → VcxResult A
no_report = fail not_ready "No problem report available in current state"

unfoldable pub get_problem_report : HolderSm → VcxResult ProblemReport
get_problem_report self = elim self.state [
  | finished s ↦ elim s.status [ failed r ↦ ok r | declined r ↦ ok r | _ ↦ no_report ]
  | _ ↦ no_report
]

module _ (R : Runtime) where
  -- `parse_cred_def_id_from_cred_offer`
  unfoldable pub parse_cred_def_id : String → VcxResult String
  parse_cred_def_id cred_offer =
      and_then
        (map_err (λ e. from_msg invalid_json ("Invalid Credential Offer Json: " ++ R.debug_fault e))
          (R.value_from_str cred_offer))
        λ parsed.
          ok_or (R.value_as_str (R.value_index parsed "cred_def_id"))
            (from_msg invalid_json "Invalid Credential Offer Json: cred_def_id not found")

  -- `OfferReceivedState::is_revokable`
  offer_is_revokable : OfferReceivedState → Vcx R Bool
  offer_is_revokable s = do
    offer ← lift (get_attach_as_string R s.offer.content.offers_attach)
    cred_def_id ← lift (
        map_err
          (λ e.
            from_msg invalid_json
              ("Failed to parse credential definition id from credential offer: " ++ to_string e))
          (parse_cred_def_id offer))
    is_cred_def_revokable R cred_def_id

  -- `RequestSetState::is_revokable`
  request_is_revokable : RequestSetState → VcxResult Bool
  request_is_revokable s =
      and_then
        (map_err
          (λ e. from_msg serialization_error (
            "Failed deserialize credential definition json "
            ++ (s.cred_def_json ++ ("\nError: " ++ R.display e))))
          (R.value_from_str s.cred_def_json))
        λ parsed.
          ok (not (R.value_is_null (R.value_index (R.value_index parsed "value") "revocation")))

  unfoldable pub get_attributes : HolderSm → VcxResult String
  get_attributes self = elim self.state [
    | finished s ↦ attributes_of R s
    | offer_received s ↦ ok (
        R.object_to_string
          (map (λ a. (a.name, a.value)) s.offer.content.credential_preview.attributes))
    | _ ↦
        fail not_ready
          "Cannot get credential attributes: credential offer or credential must be receieved first"
  ]

  unfoldable pub get_attachment : HolderSm → VcxResult String
  get_attachment self = elim self.state [
    | finished s ↦ attachment_of R s
    | offer_received s ↦ get_attach_as_string R s.offer.content.offers_attach
    | _ ↦
        fail not_ready
          "Cannot get credential attachment: credential offer or credential must be receieved first"
  ]

  -- `none, some` is the panic of `tails_location_of`, as in the next function that of `tails_hash_of`.
  unfoldable pub get_tails_location : HolderSm → Option (VcxResult String)
  get_tails_location self = elim self.state [
    | finished s ↦ tails_location_of R s
    | _ ↦ some (fail not_ready "Cannot get tails location: credential exchange not finished yet")
  ]

  unfoldable pub get_tails_hash : HolderSm → Option (VcxResult String)
  get_tails_hash self = elim self.state [
    | finished s ↦ tails_hash_of R s
    | _ ↦ some (fail not_ready "Cannot get tails hash: credential exchange not finished yet")
  ]

  unfoldable pub get_rev_reg_id : HolderSm → VcxResult String
  get_rev_reg_id self = elim self.state [
    | finished s ↦ rev_reg_id_of R s
    | _ ↦ fail not_ready "Cannot get rev reg id: credential exchange not finished yet"
  ]

  unfoldable pub is_revokable : HolderSm → Vcx R Bool
  unfolding offer_is_revokable request_is_revokable
  is_revokable self = elim self.state [
    | initial ↦
        throw (from_msg invalid_state "Revocation information not available in the initial state")
    | proposal_set s ↦ is_cred_def_revokable R s.credential_proposal.content.cred_def_id
    | offer_received s ↦ offer_is_revokable s
    | request_set s ↦ lift (request_is_revokable s)
    | finished s ↦ pure (is_some s.rev_reg_def_json)
  ]

  unfoldable pub is_revoked : HolderSm → Vcx R Bool
  is_revoked self = do
    revokable ← is_revokable self
    elim revokable [
      | true ↦ do
        rev_reg_id ← lift (get_rev_reg_id self)
        cred_id ← lift (get_cred_id self)
        rev_id ← get_cred_rev_id R cred_id
        is_cred_revoked R rev_reg_id rev_id
      | false ↦ throw (
          from_msg invalid_state
            "Unable to check revocation status - this credential is not revokable")
    ]

  unfoldable pub delete_credential : HolderSm → Vcx R Unit
  delete_credential self = elim self.state [
    | finished s ↦ do
      cred_id ← lift (
          ok_or s.cred_id (from_msg invalid_state "Cannot get credential: credential id not found"))
      call R (R.prover_delete_credential cred_id)
    | _ ↦
        throw
          (from_msg not_ready "Cannot delete credential: credential issuance is not finished yet")
  ]
