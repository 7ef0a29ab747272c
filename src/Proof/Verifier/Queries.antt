-- ===== src/Proof/Verifier/Queries.antt =====
-- The methods of `VerifierSM` that change nothing, and the messages that close the exchange:
-- verifier/state_machine.rs.
use instnt_aries_vcx.Base.{
  String, Bool, true, false, none, some, Effect, ok_or, ok, pure, throw, perform, ◌>>=◌,
}
use instnt_aries_vcx.Errors.{VcxResult, from_msg, fail, invalid_state}
use instnt_aries_vcx.Messages.Parts.{ProblemReport, AckStatus, thread_of, timing_of}
use instnt_aries_vcx.Messages.Proof.{
  ProposePresentationV1, RequestPresentationV1, PresentationV1, AckPresentationV1,
  PresentProofV1ProblemReport, PresentProofV1, ack,
}
use instnt_aries_vcx.Messages.Aries.{AriesMessage, report_problem, proof_v1}
use instnt_aries_vcx.Runtime.{Runtime, Vcx}
use instnt_aries_vcx.Util.Report.{undefined, success, failed, declined, build_problem_report_msg}
use instnt_aries_vcx.Proof.Verifier.States.{
  PresentationVerificationStatus, valid, unavailable, FinishedState, VerifierSm, initial,
  presentation_request_set, presentation_proposal_received, presentation_request_sent, finished,
}

unfoldable pub progressable_by_message : VerifierSm → Bool
progressable_by_message self = elim self.state [
  | initial ↦ true
  | presentation_request_set _ ↦ false
  | presentation_proposal_received _ ↦ false
  | presentation_request_sent _ ↦ true
  | finished _ ↦ false
]

unfoldable pub get_verification_status : VerifierSm → PresentationVerificationStatus
get_verification_status self = elim self.state [
  | finished s ↦ s.verification_status
  | _ ↦ unavailable
]

unfoldable pub presentation_request_msg : VerifierSm → VcxResult RequestPresentationV1
presentation_request_msg self = elim self.state [
  | initial ↦ fail invalid_state "Presentation request not set yet"
  | presentation_request_set s ↦ ok s.presentation_request
  | presentation_proposal_received s ↦
      ok_or s.presentation_request (from_msg invalid_state "No presentation request set")
  | presentation_request_sent s ↦ ok s.presentation_request
  | finished s ↦ ok_or s.presentation_request (from_msg invalid_state "No presentation request set")
]

unfoldable pub get_presentation_msg : VerifierSm → VcxResult PresentationV1
get_presentation_msg self = elim self.state [
  | finished s ↦
      ok_or s.presentation
        (from_msg invalid_state "State machine is final state, but presentation is not available")
  | _ ↦ fail invalid_state "Presentation not received yet"
]

unfoldable pub presentation_proposal : VerifierSm → VcxResult ProposePresentationV1
presentation_proposal self = elim self.state [
  | presentation_proposal_received s ↦ ok s.presentation_proposal
  | _ ↦ fail invalid_state "Presentation proposal not received yet"
]

-- The problem report of the protocol with the parts of a general one.
abbrev specific : ProblemReport → PresentProofV1ProblemReport
specific r = record { id = r.id; content = record { inner = r.content }; decorators = r.decorators }

module _ (R : Runtime) where
  open R use {World}

  unfoldable pub build_verification_ack : String → Effect World AckPresentationV1
  build_verification_ack thread_id w =
      let (now, w₁) = R.utc_now w in
      let (id, w₂) = R.new_v4 w₁ in
      (
        record {
          id = id;
          content = record { inner = record { status = AckStatus.accepted } };
          decorators = record { thread = thread_of thread_id; timing = some (timing_of now) };
        },
        w₂,
      )

  -- The message for a presentation that was not found valid.
  abbrev rejection : VerifierSm → FinishedState → Vcx R AriesMessage
  rejection self s = elim s.status [
    | undefined ↦ throw (
        from_msg invalid_state "Cannot get final message in this state: finished, status undefined")
    | success ↦ do
      report ← perform (build_problem_report_msg R none self.thread_id)
      pure (report_problem report)
    | failed r ↦ pure (proof_v1 (PresentProofV1.problem_report (specific r)))
    | declined r ↦ pure (proof_v1 (PresentProofV1.problem_report (specific r)))
  ]

  -- The error's text leaves off the `Debug` text of the state.
  unfoldable pub get_final_message : VerifierSm → Vcx R AriesMessage
  get_final_message self = elim self.state [
    | finished s ↦ elim s.verification_status [
      | valid ↦ do msg ← perform (build_verification_ack self.thread_id); pure (proof_v1 (ack msg))
      | _ ↦ rejection self s
    ]
    | s ↦ throw (from_msg invalid_state "Cannot get final message in this state")
  ]
