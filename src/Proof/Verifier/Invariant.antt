-- ===== src/Proof/Verifier/Invariant.antt =====
-- What holds of a `VerifierSM` between two calls.
use instnt_aries_vcx.Base.{
  String, ◌≡◌, ◌⊎◌, Bool, Option, none, is_some, true, false, Returns, Ensures, arith,
}
use instnt_aries_vcx.Messages.Parts.{ProblemReport}
use instnt_aries_vcx.Messages.Proof.{ProposePresentationV1, PresentationV1}
use instnt_aries_vcx.Anoncreds.Request.{PresentationRequest}
use instnt_aries_vcx.Runtime.{Runtime}
use instnt_aries_vcx.Util.Report.{Status, undefined, success}
use instnt_aries_vcx.Util.Thread.{is_match, verify_thread_id, matches_opt_thread_id}
use instnt_aries_vcx.Proof.Verifier.States.{
  PresentationVerificationStatus, unavailable, FinishedState, VerifierSm, VerifierFullState,
  initial, presentation_request_set, presentation_proposal_received, presentation_request_sent,
  finished,
}
use instnt_aries_vcx.Proof.Verifier.Machine.{
  thread_of_proposal, new, mark_presentation_request_sent, reject_presentation_proposal,
  build_starting_presentation_request, set_presentation_request, from_proposal,
  receive_presentation_proposal, receive_presentation_request_reject, verify_presentation,
}

abbrev pub ended_in_success : Status → Bool
ended_in_success success = true
ended_in_success _ = false

-- A presentation was checked exactly when there is a verdict, and then the exchange counts as a
-- success of the protocol and the request and the presentation are still held.
abbrev pub IsJudged : FinishedState → PresentationVerificationStatus → Type 0
IsJudged s unavailable = (ended_in_success s.status ≡ false) × (s.presentation ≡ none)
IsJudged s _ =
    (s.status ≡ success) × (is_some s.presentation_request ≡ true) × (is_some s.presentation ≡ true)

abbrev pub HasReport : Status → Type 0
HasReport undefined = ⊥
HasReport _ = Unit

-- The request that the verifier holds has the thread for its id, and a proposal is on the thread.
abbrev pub IsOnThread : String → VerifierFullState → Type 0
IsOnThread tid initial = Unit
IsOnThread tid (presentation_request_set s) = s.presentation_request.id ≡ tid
IsOnThread tid (presentation_proposal_received s) =
    (s.presentation_request ≡ none)
    × ((thread_of_proposal s.presentation_proposal ≡ tid)
        ⊎ (s.presentation_proposal.id ≡ tid)
        ⊎ (matches_opt_thread_id s.presentation_proposal.decorators.thread tid ≡ true))
IsOnThread tid (presentation_request_sent s) = s.presentation_request.id ≡ tid
IsOnThread tid (finished s) = HasReport s.status × IsJudged s s.verification_status

abbrev pub IsValid : VerifierSm → Type 0
IsValid v = IsOnThread v.thread_id v.state

module _ (v : VerifierSm) (ok_v : IsValid v) where
  pub mark_presentation_request_sent-IsValid : Ensures IsValid (mark_presentation_request_sent v)
  unfolding mark_presentation_request_sent
  mark_presentation_request_sent-IsValid = ground arith

  pub reject_presentation_proposal-IsValid :
      (r : ProblemReport) → Returns IsValid (reject_presentation_proposal v r)
  unfolding reject_presentation_proposal
  reject_presentation_proposal-IsValid r = ground arith

  module _ (R : Runtime) where
    open R use {World}

    pub set_presentation_request-IsValid :
        (d : PresentationRequest) (comment : Option String) (w : World)
        → Ensures IsValid (set_presentation_request R v d comment w).0
    unfolding set_presentation_request build_starting_presentation_request
    set_presentation_request-IsValid d comment w = ground arith

    pub receive_presentation_proposal-IsValid :
        (p : ProposePresentationV1) (w : World)
        → Ensures IsValid (receive_presentation_proposal R v p w).0
    unfolding receive_presentation_proposal verify_thread_id is_match
    receive_presentation_proposal-IsValid p w = ground arith

    pub receive_presentation_request_reject-IsValid :
        (r : ProblemReport) → Ensures IsValid (receive_presentation_request_reject R v r)
    unfolding receive_presentation_request_reject
    receive_presentation_request_reject-IsValid r = ground arith

    pub verify_presentation-IsValid :
        (m : PresentationV1) (w : World) → Ensures IsValid (verify_presentation R v m w).0
    unfolding verify_presentation
    verify_presentation-IsValid m w = ground arith

module _ (R : Runtime) where
  open R use {World}

  pub from_proposal-IsValid :
      (source_id : String) (p : ProposePresentationV1) (w : World)
      → Returns IsValid (from_proposal R source_id p w).0
  unfolding from_proposal
  from_proposal-IsValid source_id p w = ground arith

pub new-IsValid : (source_id : String) → IsValid (new source_id)
unfolding new
new-IsValid source_id = tt
