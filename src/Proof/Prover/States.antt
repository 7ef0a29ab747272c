-- ===== src/Proof/Prover/States.antt =====
-- protocols/proof_presentation/prover/states/*.rs, the types at the head of
-- prover/state_machine.rs, and `PresentationProposalData` of handlers/util.rs.
use instnt_aries_vcx.Base.{String, Option, none, some, List}
use instnt_aries_vcx.Messages.Parts.{ProblemReport}
use instnt_aries_vcx.Messages.Proof.{
  PresentationAttr, Predicate, ProposePresentationV1, RequestPresentationV1, PresentationV1,
}
use instnt_aries_vcx.Util.Report.{Status, undefined, success, declined}

pub record PresentationProposalData : Type 0 where
  pub attributes : List PresentationAttr
  pub predicates : List Predicate
  pub comment : Option String

pub record PresentationProposalSent : Type 0 where
  pub proposal : ProposePresentationV1

pub record PresentationRequestReceived : Type 0 where
  pub presentation_request : RequestPresentationV1

pub record PresentationPreparedState : Type 0 where
  pub presentation_request : RequestPresentationV1
  pub presentation : PresentationV1

pub record PresentationPreparationFailedState : Type 0 where
  pub presentation_request : RequestPresentationV1
  pub problem_report : ProblemReport

pub record PresentationSentState : Type 0 where
  pub presentation_request : RequestPresentationV1
  pub presentation : PresentationV1

pub record FinishedState : Type 0 where
  pub presentation_request : Option RequestPresentationV1
  pub presentation : Option PresentationV1
  pub status : Status

pub data ProverFullState : Type 0 where
  initial : ProverFullState
  presentation_proposal_sent : PresentationProposalSent → ProverFullState
  presentation_request_received : PresentationRequestReceived → ProverFullState
  presentation_prepared : PresentationPreparedState → ProverFullState
  presentation_preparation_failed : PresentationPreparationFailedState → ProverFullState
  presentation_sent : PresentationSentState → ProverFullState
  finished : FinishedState → ProverFullState

pub data ProverState : Type 0 where
  initial presentation_proposal_sent presentation_request_received : ProverState
  presentation_prepared presentation_preparation_failed presentation_sent : ProverState
  finished failed : ProverState

pub record ProverSm : Type 0 where
  pub source_id : String
  pub thread_id : String
  pub state : ProverFullState

-- `FinishedState::declined`
abbrev pub declined_with : ProblemReport → FinishedState
declined_with report = record {
  presentation_request = none;
  presentation = none;
  status = declined report;
}

-- `From<(PresentationRequestReceived, ProblemReport)>`
abbrev pub request_declined : PresentationRequestReceived → ProblemReport → FinishedState
request_declined s report = record {
  presentation_request = some s.presentation_request;
  presentation = none;
  status = declined report;
}

-- `From<PresentationRequestReceived>`
abbrev pub request_negotiated : PresentationRequestReceived → FinishedState
request_negotiated s = record {
  presentation_request = some s.presentation_request;
  presentation = none;
  status = success;
}

-- `From<PresentationPreparedState>` for `FinishedState`
abbrev pub prepared_negotiated : PresentationPreparedState → FinishedState
prepared_negotiated s = record {
  presentation_request = some s.presentation_request;
  presentation = none;
  status = undefined;
}

-- `From<PresentationPreparationFailedState>`
abbrev pub preparation_failed : PresentationPreparationFailedState → FinishedState
preparation_failed s = record {
  presentation_request = some s.presentation_request;
  presentation = none;
  status = Status.failed s.problem_report;
}

-- `From<(PresentationSentState, AckPresentationV1)>`
abbrev pub acknowledged : PresentationSentState → FinishedState
acknowledged s = record {
  presentation_request = some s.presentation_request;
  presentation = some s.presentation;
  status = success;
}

-- `From<(PresentationSentState, ProblemReport)>`
abbrev pub rejected : PresentationSentState → ProblemReport → FinishedState
rejected s report = record {
  presentation_request = some s.presentation_request;
  presentation = some s.presentation;
  status = Status.failed report;
}

abbrev pub get_state : ProverSm → ProverState
get_state self = elim self.state [
  | initial ↦ ProverState.initial
  | presentation_proposal_sent _ ↦ ProverState.presentation_proposal_sent
  | presentation_request_received _ ↦ ProverState.presentation_request_received
  | presentation_prepared _ ↦ ProverState.presentation_prepared
  | presentation_preparation_failed _ ↦ ProverState.presentation_preparation_failed
  | presentation_sent _ ↦ ProverState.presentation_sent
  | finished s ↦ elim s.status [ success ↦ ProverState.finished | _ ↦ ProverState.failed ]
]
