-- ===== src/Issuance/Holder/Invariant.antt =====
-- What holds of a `HolderSM` between two calls.
use instnt_aries_vcx.Base.{
  String, ◌≡◌, ◌⊎◌, inl, refl, true, Option, none, some, is_some, Ensures, arith,
}
use instnt_aries_vcx.Messages.Parts.{ProblemReport, thread_of}
use instnt_aries_vcx.Messages.Issuance.{OfferCredentialV1, ProposeCredentialV1, IssueCredentialV1}
use instnt_aries_vcx.Runtime.{Runtime}
use instnt_aries_vcx.Util.Thread.{matches_opt_thread_id, verify_thread_id, is_match}
use instnt_aries_vcx.Util.Report.{Status, success, failed}
use instnt_aries_vcx.Issuance.Holder.States.{
  HolderSm, HolderFullState, FinishedHolderState, initial, proposal_set, offer_received,
  request_set, finished,
}
use instnt_aries_vcx.Issuance.Holder.Request.{credential_request_msg, build_credential_request_msg}
use instnt_aries_vcx.Issuance.Holder.Machine.{
  from_offer, with_proposal, set_proposal, receive_offer, prepare_credential_request, decline_offer,
  receive_credential, receive_problem_report,
}

-- A finished exchange has its credential, or a problem report and nothing else.
abbrev pub IsEnded : FinishedHolderState → Status → Type 0
IsEnded s success =
    (is_some s.cred_id ≡ true) × (is_some s.credential ≡ true) × (is_some s.ack_requested ≡ true)
IsEnded s (failed report) =
    (s.cred_id ≡ none)
    × (s.credential ≡ none)
    × (s.ack_requested ≡ none)
    × (s.rev_reg_def_json ≡ none)
IsEnded s _ = ⊥

-- What the state holds before the end belongs to the thread; at the end the thread of the
-- credential is not known.
abbrev pub IsOnThread : String → HolderFullState → Type 0
IsOnThread tid initial = Unit
IsOnThread tid (proposal_set s) = s.credential_proposal.id ≡ tid
IsOnThread tid (offer_received s) =
    (s.offer.id ≡ tid) ⊎ (matches_opt_thread_id s.offer.decorators.thread tid ≡ true)
IsOnThread tid (request_set s) = s.msg_credential_request.decorators.thread ≡ some (thread_of tid)
IsOnThread tid (finished s) = IsEnded s s.status

abbrev pub IsValid : HolderSm → Type 0
IsValid h = IsOnThread h.thread_id h.state

pub from_offer-IsValid : (offer : OfferCredentialV1) (id : String) → IsValid (from_offer offer id)
unfolding from_offer
from_offer-IsValid offer id = inl refl

pub with_proposal-IsValid : (p : ProposeCredentialV1) (id : String) → IsValid (with_proposal p id)
unfolding with_proposal
with_proposal-IsValid p id = refl

module _ (R : Runtime) where
  open R use {World}

  pub thread-build_credential_request_msg :
      (tid did : String) (offer : OfferCredentialV1) (w : World)
      → Ensures
          (λ made. made.0.decorators.thread ≡ some (thread_of tid))
          (build_credential_request_msg R tid did offer w).0
  unfolding build_credential_request_msg credential_request_msg
  thread-build_credential_request_msg tid did offer w = ground arith

  pub set_proposal-IsValid :
      (h : HolderSm) (p : ProposeCredentialV1) → IsValid h → Ensures IsValid (set_proposal R h p)
  unfolding set_proposal
  set_proposal-IsValid h p v = ground arith

  pub receive_offer-IsValid :
      (h : HolderSm) (o : OfferCredentialV1) → IsValid h → Ensures IsValid (receive_offer R h o)
  unfolding receive_offer verify_thread_id is_match matches_opt_thread_id
  receive_offer-IsValid h o v = ground arith

  pub prepare_credential_request-IsValid :
      (h : HolderSm) (did : String) (w : World)
      → IsValid h
      → Ensures IsValid (prepare_credential_request R h did w).0
  unfolding prepare_credential_request
  prepare_credential_request-IsValid h did w v = grind (arith, thread-build_credential_request_msg)

  pub decline_offer-IsValid :
      (h : HolderSm) (c : Option String) (w : World)
      → IsValid h
      → Ensures IsValid (decline_offer R h c w).0
  unfolding decline_offer
  decline_offer-IsValid h c w v = ground arith

  pub receive_credential-IsValid :
      (h : HolderSm) (c : IssueCredentialV1) (w : World)
      → IsValid h
      → Ensures IsValid (receive_credential R h c w).0
  unfolding receive_credential
  receive_credential-IsValid h c w v = ground arith

  pub receive_problem_report-IsValid :
      (h : HolderSm) (r : ProblemReport)
      → IsValid h
      → Ensures IsValid (receive_problem_report R h r)
  unfolding receive_problem_report
  receive_problem_report-IsValid h r v = ground arith
