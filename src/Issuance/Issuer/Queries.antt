-- ===== src/Issuance/Issuer/Queries.antt =====
-- The methods of `IssuerSM` that change nothing: issuer/state_machine.rs.
use Prim.Native.String.{◌++◌}
use instnt_aries_vcx.Base.{
  ℕ, String, Bool, true, false, Option, none, some, ok_or, and_then, ok, is_some, pure, throw, lift,
  perform, ◌>>=◌,
}
use instnt_aries_vcx.Errors.{VcxResult, from_msg, fail, invalid_state, not_ready}
use instnt_aries_vcx.Messages.Parts.{ProblemReport, timing_of}
use instnt_aries_vcx.Messages.Issuance.{OfferCredentialV1, ProposeCredentialV1, IssueCredentialV1}
use instnt_aries_vcx.Runtime.{Runtime, Vcx, converted}
use instnt_aries_vcx.Util.Report.{undefined, failed, declined, status_code}
use instnt_aries_vcx.Issuance.Ledger.{is_cred_revoked}
use instnt_aries_vcx.Issuance.Issuer.States.{
  IssuerSm, RevocationInfoV1, initial, proposal_received, offer_set, request_received,
  credential_set, finished,
}
use instnt_aries_vcx.Issuance.Issuer.Machine.{shown}

unfoldable pub get_revocation_info : IssuerSm → Option RevocationInfoV1
get_revocation_info self = elim self.state [
  | credential_set s ↦ s.revocation_info_v1
  | finished s ↦ s.revocation_info_v1
  | _ ↦ none
]

abbrev no_revocation_info : String
no_revocation_info = "No revocation info found - is this credential revokable?"

abbrev info_or : Option RevocationInfoV1 → VcxResult RevocationInfoV1
info_or info = ok_or info (from_msg invalid_state no_revocation_info)

-- The registry id that each state holds, or the early return of the state.
abbrev rev_registry : IssuerSm → VcxResult (Option String)
rev_registry self = elim self.state [
  | initial ↦ fail invalid_state "No revocation info available in the initial state"
  | offer_set s ↦ ok s.rev_reg_id
  | proposal_received s ↦ elim s.offer_info [ some info ↦ ok info.rev_reg_id | none ↦ ok none ]
  | request_received s ↦ ok s.rev_reg_id
  | credential_set s ↦ and_then (info_or s.revocation_info_v1) (λ i. ok i.rev_reg_id)
  | finished s ↦ and_then (info_or s.revocation_info_v1) (λ i. ok i.rev_reg_id)
]

unfoldable pub get_rev_reg_id : IssuerSm → VcxResult String
get_rev_reg_id self = and_then (rev_registry self) λ found. ok_or found (
    from_msg invalid_state
      "No revocation registry id found on revocation info - is this credential revokable?")

abbrev has_rev_id : Option RevocationInfoV1 → Bool
has_rev_id none = false
has_rev_id (some info) = is_some info.cred_rev_id

unfoldable pub is_revokable : IssuerSm → Bool
is_revokable self = elim self.state [
  | credential_set s ↦ has_rev_id s.revocation_info_v1
  | finished s ↦ has_rev_id s.revocation_info_v1
  | _ ↦ false
]

unfoldable pub get_proposal : IssuerSm → VcxResult ProposeCredentialV1
get_proposal self = elim self.state [
  | proposal_received s ↦ ok s.credential_proposal
  | _ ↦ fail invalid_state "Proposal is only available in ProposalReceived state"
]

unfoldable pub get_credential_offer_msg : IssuerSm → VcxResult OfferCredentialV1
get_credential_offer_msg self = elim self.state [
  | offer_set s ↦ ok s.offer
  | s ↦ fail invalid_state ("Can not get_credential_offer in current state " ++ (shown s ++ "."))
]

unfoldable pub credential_status : IssuerSm → ℕ
credential_status self = elim self.state [
  | finished s ↦ status_code s.status
  | _ ↦ status_code undefined
]

unfoldable pub is_terminal_state : IssuerSm → Bool
is_terminal_state self = elim self.state [ finished _ ↦ true | _ ↦ false ]

abbrev no_report : {A : Type 0} → VcxResult A
no_report = fail not_ready "No problem report available in current state"

unfoldable pub get_problem_report : IssuerSm → VcxResult ProblemReport
get_problem_report self = elim self.state [
  | finished s ↦ elim s.status [ failed r ↦ ok r | declined r ↦ ok r | _ ↦ no_report ]
  | _ ↦ no_report
]

module _ (R : Runtime) where
  -- The revocation id that each state holds, or the early return of the state.
  abbrev rev_id_text : IssuerSm → VcxResult (Option String)
  rev_id_text self = elim self.state [
    | credential_set s ↦ and_then (info_or s.revocation_info_v1) (λ i. ok i.cred_rev_id)
    | finished s ↦ and_then (info_or s.revocation_info_v1) (λ i. ok i.cred_rev_id)
    | _ ↦ ok none
  ]

  unfoldable pub get_rev_id : IssuerSm → VcxResult ℕ
  get_rev_id self = and_then (rev_id_text self) λ found.
      and_then (ok_or found (from_msg invalid_state "Revocation info does not contain rev id"))
        (λ text. converted R (R.parse_u32 text))

  unfoldable pub is_revoked : IssuerSm → Vcx R Bool
  is_revoked self = elim (is_revokable self) [
    | true ↦ do
      rev_reg_id ← lift (get_rev_reg_id self)
      rev_id ← lift (get_rev_id self)
      is_cred_revoked R rev_reg_id rev_id
    | false ↦ throw (
        from_msg invalid_state
          "Unable to check revocation status - this credential is not revokable")
  ]

  unfoldable pub get_msg_issue_credential : IssuerSm → Vcx R IssueCredentialV1
  get_msg_issue_credential self = elim self.state [
    | credential_set s ↦ do
      now ← perform R.utc_now
      let msg = s.msg_issue_credential
      pure (record msg { decorators = record msg.decorators { timing = some (timing_of now) } })
    | _ ↦ throw (from_msg not_ready "Invalid action")
  ]
