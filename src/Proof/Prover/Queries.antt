-- ===== src/Proof/Prover/Queries.antt =====
-- The methods of `ProverSM` that change nothing: prover/state_machine.rs.
use instnt_aries_vcx.Base.{ℕ, Bool, true, false, ok_or, ok}
use instnt_aries_vcx.Errors.{VcxResult, from_msg, fail, not_ready}
use instnt_aries_vcx.Messages.Parts.{ProblemReport}
use instnt_aries_vcx.Messages.Proof.{ProposePresentationV1, RequestPresentationV1, PresentationV1}
use instnt_aries_vcx.Util.Report.{undefined, failed, declined, status_code}
use instnt_aries_vcx.Proof.Prover.States.{
  ProverSm, initial, presentation_proposal_sent, presentation_request_received,
  presentation_prepared, presentation_preparation_failed, presentation_sent, finished,
}

abbrev no_report : {A : Type 0} → VcxResult A
no_report = fail not_ready "Cannot get problem report"

unfoldable pub get_problem_report : ProverSm → VcxResult ProblemReport
get_problem_report self = elim self.state [
  | finished s ↦ elim s.status [ failed r ↦ ok r | declined r ↦ ok r | _ ↦ no_report ]
  | _ ↦ no_report
]

unfoldable pub progressable_by_message : ProverSm → Bool
progressable_by_message self = elim self.state [
  | initial ↦ false
  | presentation_proposal_sent _ ↦ true
  | presentation_request_received _ ↦ false
  | presentation_prepared _ ↦ true
  | presentation_preparation_failed _ ↦ true
  | presentation_sent _ ↦ true
  | finished _ ↦ false
]

unfoldable pub get_presentation_status : ProverSm → ℕ
get_presentation_status self = elim self.state [
  | finished s ↦ status_code s.status
  | _ ↦ status_code undefined
]

abbrev no_request : {A : Type 0} → VcxResult A
no_request = fail not_ready "Presentation request is not available"

unfoldable pub get_presentation_request : ProverSm → VcxResult RequestPresentationV1
get_presentation_request self = elim self.state [
  | initial ↦ no_request
  | presentation_proposal_sent _ ↦ no_request
  | presentation_request_received s ↦ ok s.presentation_request
  | presentation_prepared s ↦ ok s.presentation_request
  | presentation_preparation_failed s ↦ ok s.presentation_request
  | presentation_sent s ↦ ok s.presentation_request
  | finished s ↦
      ok_or s.presentation_request (from_msg not_ready "Presentation request is not available")
]

abbrev not_created : {A : Type 0} → VcxResult A
not_created = fail not_ready "Presentation is not created yet"

unfoldable pub get_presentation_msg : ProverSm → VcxResult PresentationV1
get_presentation_msg self = elim self.state [
  | initial ↦ not_created
  | presentation_proposal_sent _ ↦ not_created
  | presentation_request_received _ ↦ not_created
  | presentation_prepared s ↦ ok s.presentation
  | presentation_preparation_failed _ ↦ not_created
  | presentation_sent s ↦ ok s.presentation
  | finished s ↦
      ok_or s.presentation (from_msg not_ready "Presentation is not available in Finished state")
]

unfoldable pub get_presentation_proposal : ProverSm → VcxResult ProposePresentationV1
get_presentation_proposal self = elim self.state [
  | presentation_proposal_sent s ↦ ok s.proposal
  | _ ↦ fail not_ready "Cannot get proposal"
]
