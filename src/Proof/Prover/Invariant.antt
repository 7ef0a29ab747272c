-- ===== src/Proof/Prover/Invariant.antt =====
-- What holds of a `ProverSM` between two calls.
use instnt_aries_vcx.Base.{
  String, ◌≡◌, ◌⊎◌, Option, none, some, List, is_some, true, Returns, Ensures, arith,
}
use instnt_aries_vcx.Messages.Parts.{ProblemReport, thread_of}
use instnt_aries_vcx.Messages.Proof.{PresentationV1, RequestPresentationV1, AckPresentationV1}
use instnt_aries_vcx.Anoncreds.Selection.{SelectedCredentials}
use instnt_aries_vcx.Runtime.{Runtime}
use instnt_aries_vcx.Util.Report.{Status, undefined, success, failed, declined}
use instnt_aries_vcx.Proof.Prover.States.{
  PresentationProposalData, FinishedState, ProverSm, ProverFullState, presentation_proposal_sent,
  presentation_prepared, presentation_preparation_failed, presentation_sent, finished,
}
use instnt_aries_vcx.Proof.Prover.Machine.{
  mark_presentation_sent, decline_presentation_request, negotiate_presentation,
  receive_presentation_request, receive_presentation_reject, receive_presentation_ack,
  build_presentation_msg, build_presentation_proposal, generate_presentation,
}

-- A declined or negotiated exchange has no presentation; the others still have the request.
abbrev pub IsEnded : FinishedState → Status → Type 0
IsEnded s undefined = (is_some s.presentation_request ≡ true) × (s.presentation ≡ none)
IsEnded s success = is_some s.presentation_request ≡ true
IsEnded s (failed report) = is_some s.presentation_request ≡ true
IsEnded s (declined report) = s.presentation ≡ none

-- A presentation that is kept stands on the thread.
abbrev pub IsKeptOn : String → Option PresentationV1 → Type 0
IsKeptOn tid none = Unit
IsKeptOn tid (some p) = p.decorators.thread ≡ thread_of tid

-- What the state holds to be sent, and the presentation that the end keeps, stand on the thread; of
-- a problem report that has come in the thread is not known.
abbrev pub IsOnThread : String → ProverFullState → Type 0
IsOnThread tid (presentation_proposal_sent s) =
    (s.proposal.id ≡ tid) ⊎ (s.proposal.decorators.thread ≡ some (thread_of tid))
IsOnThread tid (presentation_prepared s) = s.presentation.decorators.thread ≡ thread_of tid
IsOnThread tid (presentation_preparation_failed s) =
    s.problem_report.decorators.thread ≡ some (thread_of tid)
IsOnThread tid (presentation_sent s) = s.presentation.decorators.thread ≡ thread_of tid
IsOnThread tid (finished s) = IsEnded s s.status × IsKeptOn tid s.presentation
IsOnThread tid _ = Unit

abbrev pub IsValid : ProverSm → Type 0
IsValid p = IsOnThread p.thread_id p.state

module _ (p : ProverSm) (v : IsValid p) where
  pub mark_presentation_sent-IsValid : Returns IsValid (mark_presentation_sent p)
  unfolding mark_presentation_sent
  mark_presentation_sent-IsValid = ground arith

  pub decline_presentation_request-IsValid :
      (r : ProblemReport) → Returns IsValid (decline_presentation_request p r)
  unfolding decline_presentation_request
  decline_presentation_request-IsValid r = ground arith

  pub negotiate_presentation-IsValid : Returns IsValid (negotiate_presentation p)
  unfolding negotiate_presentation
  negotiate_presentation-IsValid = ground arith

  pub receive_presentation_request-IsValid :
      (q : RequestPresentationV1) → Returns IsValid (receive_presentation_request p q)
  unfolding receive_presentation_request
  receive_presentation_request-IsValid q = ground arith

  pub receive_presentation_reject-IsValid :
      (r : ProblemReport) → Returns IsValid (receive_presentation_reject p r)
  unfolding receive_presentation_reject
  receive_presentation_reject-IsValid r = ground arith

  pub receive_presentation_ack-IsValid :
      (a : AckPresentationV1) → Returns IsValid (receive_presentation_ack p a)
  unfolding receive_presentation_ack
  receive_presentation_ack-IsValid a = ground arith

  module _ (R : Runtime) where
    open R use {World}

    pub build_presentation_proposal-IsValid :
        (d : PresentationProposalData) (w : World)
        → Returns IsValid (build_presentation_proposal R p d w).0
    unfolding build_presentation_proposal
    build_presentation_proposal-IsValid d w = ground arith

    pub generate_presentation-IsValid :
        (c : SelectedCredentials) (attrs : List (String × String)) (w : World)
        → Ensures IsValid (generate_presentation R p c attrs w).0
    unfolding generate_presentation build_presentation_msg
    generate_presentation-IsValid c attrs w = ground arith
