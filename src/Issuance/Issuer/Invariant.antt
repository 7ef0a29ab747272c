-- ===== src/Issuance/Issuer/Invariant.antt =====
-- What holds of an `IssuerSM` between two calls.
use instnt_aries_vcx.Base.{
  String, ◌≡◌, ◌⊎◌, inl, refl, true, Option, none, some, is_some, Ensures, arith,
}
use instnt_aries_vcx.Messages.Parts.{ProblemReport, thread_of}
use instnt_aries_vcx.Messages.Issuance.{
  ProposeCredentialV1, RequestCredentialV1, AckCredentialV1, CredentialPreviewV1,
}
use instnt_aries_vcx.Runtime.{Runtime}
use instnt_aries_vcx.Util.Thread.{matches_opt_thread_id, verify_thread_id, is_match}
use instnt_aries_vcx.Util.Report.{Status, success, failed}
use instnt_aries_vcx.Issuance.Issuer.States.{
  OfferInfo, RevocationInfoV1, RequestReceivedState, IssuerSm, IssuerFullState, initial,
  proposal_received, offer_set, request_received, credential_set, finished,
}
use instnt_aries_vcx.Issuance.Issuer.Credential.{
  build_credential_message, build_credential_offer, create_credential,
}
use instnt_aries_vcx.Issuance.Issuer.Machine.{
  from_proposal, build_credential_offer_msg, receive_proposal, receive_request, build_credential,
  receive_ack, receive_problem_report,
}

-- After a failure no credential revocation id is known; the id of the credential never is.
abbrev pub IsEnded : Option RevocationInfoV1 → Status → Type 0
IsEnded (some info) success = Unit
IsEnded (some info) (failed report) = info.cred_rev_id ≡ none
IsEnded _ _ = ⊥

-- What the state holds belongs to the thread.
abbrev pub IsOnThread : String → IssuerFullState → Type 0
IsOnThread tid initial = Unit
IsOnThread tid (proposal_received s) =
    (s.credential_proposal.id ≡ tid)
    ⊎ (matches_opt_thread_id s.credential_proposal.decorators.thread tid ≡ true)
IsOnThread tid (offer_set s) = s.offer.id ≡ tid
IsOnThread tid (request_received s) =
    (s.offer.id ≡ tid) × (matches_opt_thread_id s.request.decorators.thread tid ≡ true)
IsOnThread tid (credential_set s) =
    (s.msg_issue_credential.decorators.thread ≡ thread_of tid)
    × (is_some s.msg_issue_credential.decorators.please_ack ≡ true)
    × (is_some s.revocation_info_v1 ≡ true)
IsOnThread tid (finished s) = (s.cred_id ≡ none) × IsEnded s.revocation_info_v1 s.status

abbrev pub IsValid : IssuerSm → Type 0
IsValid i = IsOnThread i.thread_id i.state

pub from_proposal-IsValid : (id : String) (p : ProposeCredentialV1) → IsValid (from_proposal id p)
unfolding from_proposal
from_proposal-IsValid id p = inl refl

module _ (R : Runtime) where
  open R use {World}

  pub thread-create_credential :
      (q : RequestCredentialV1) (s : RequestReceivedState) (tid : String) (w : World)
      → Ensures
          (λ made.
            (made.0.decorators.thread ≡ thread_of tid)
            × (is_some made.0.decorators.please_ack ≡ true))
          (create_credential R q s.rev_reg_id s.tails_file s.offer s.cred_data tid w).0
  unfolding create_credential build_credential_message
  thread-create_credential q s tid w = ground arith

  pub build_credential_offer_msg-IsValid :
      (i : IssuerSm) (t : String) (p : CredentialPreviewV1) (c : Option String) (o : OfferInfo)
      (w : World)
      → Ensures IsValid (build_credential_offer_msg R i t p c o w).0
  unfolding build_credential_offer_msg build_credential_offer
  build_credential_offer_msg-IsValid i t p c o w = ground arith

  pub receive_proposal-IsValid :
      (i : IssuerSm) (p : ProposeCredentialV1)
      → IsValid i
      → Ensures IsValid (receive_proposal R i p)
  unfolding receive_proposal verify_thread_id is_match
  receive_proposal-IsValid i p v = ground arith

  pub receive_request-IsValid :
      (i : IssuerSm) (q : RequestCredentialV1) → IsValid i → Ensures IsValid (receive_request R i q)
  unfolding receive_request verify_thread_id is_match
  receive_request-IsValid i q v = ground arith

  pub build_credential-IsValid :
      (i : IssuerSm) (w : World) → IsValid i → Ensures IsValid (build_credential R i w).0
  unfolding build_credential
  build_credential-IsValid i w v = grind (arith, thread-create_credential)

  pub receive_ack-IsValid :
      (i : IssuerSm) (a : AckCredentialV1) → IsValid i → Ensures IsValid (receive_ack R i a)
  unfolding receive_ack
  receive_ack-IsValid i a v = ground arith

  pub receive_problem_report-IsValid :
      (i : IssuerSm) (r : ProblemReport)
      → IsValid i
      → Ensures IsValid (receive_problem_report R i r)
  unfolding receive_problem_report
  receive_problem_report-IsValid i r v = ground arith
