-- ===== src/Proof/Verifier/States.antt =====
-- protocols/proof_presentation/verifier/states/*.rs, verifier/verification_status.rs and the types
-- at the head of verifier/state_machine.rs.
use instnt_aries_vcx.Base.{String, Option, none, some}
use instnt_aries_vcx.Messages.Parts.{ProblemReport}
use instnt_aries_vcx.Messages.Proof.{ProposePresentationV1, RequestPresentationV1, PresentationV1}
use instnt_aries_vcx.Util.Report.{Status, success, declined}

pub data PresentationVerificationStatus : Type 0 where
  valid invalid unavailable : PresentationVerificationStatus

pub record PresentationRequestSetState : Type 0 where
  pub presentation_request : RequestPresentationV1

pub record PresentationProposalReceivedState : Type 0 where
  pub presentation_proposal : ProposePresentationV1
  pub presentation_request : Option RequestPresentationV1

pub record PresentationRequestSentState : Type 0 where
  pub presentation_request : RequestPresentationV1

pub record FinishedState : Type 0 where
  pub presentation_request : Option RequestPresentationV1
  pub presentation : Option PresentationV1
  pub status : Status
  pub verification_status : PresentationVerificationStatus

pub data VerifierFullState : Type 0 where
  initial : VerifierFullState
  presentation_request_set : PresentationRequestSetState → VerifierFullState
  presentation_proposal_received : PresentationProposalReceivedState → VerifierFullState
  presentation_request_sent : PresentationRequestSentState → VerifierFullState
  finished : FinishedState → VerifierFullState

pub data VerifierState : Type 0 where
  initial presentation_proposal_received presentation_request_set : VerifierState
  presentation_request_sent finished failed : VerifierState

pub record VerifierSm : Type 0 where
  pub source_id : String
  pub thread_id : String
  pub state : VerifierFullState

-- `FinishedState::declined`
abbrev pub declined_with : ProblemReport → FinishedState
declined_with report = record {
  presentation_request = none;
  presentation = none;
  status = declined report;
  verification_status = unavailable;
}

-- `From<(PresentationRequestSentState, PresentationV1, PresentationVerificationStatus)>`
abbrev pub checked :
    PresentationRequestSentState → PresentationV1 → PresentationVerificationStatus → FinishedState
checked s presentation verdict = record {
  presentation_request = some s.presentation_request;
  presentation = some presentation;
  status = success;
  verification_status = verdict;
}

-- `From<(PresentationRequestSentState, ProblemReport)>`
abbrev pub failed_with : PresentationRequestSentState → ProblemReport → FinishedState
failed_with s report = record {
  presentation_request = some s.presentation_request;
  presentation = none;
  status = Status.failed report;
  verification_status = unavailable;
}

abbrev pub get_state : VerifierSm → VerifierState
get_state self = elim self.state [
  | initial ↦ VerifierState.initial
  | presentation_request_set _ ↦ VerifierState.presentation_request_set
  | presentation_proposal_received _ ↦ VerifierState.presentation_proposal_received
  | presentation_request_sent _ ↦ VerifierState.presentation_request_sent
  | finished s ↦ elim s.status [ success ↦ VerifierState.finished | _ ↦ VerifierState.failed ]
]
