-- ===== src/Proof/Verifier/Machine.antt =====
-- The transitions of `VerifierSM` in verifier/state_machine.rs. A method takes the machine and
-- returns it, or an error; on an error the caller keeps the machine that it had.
use Prim.Native.String.{◌++◌}
use instnt_aries_vcx.Base.{
  String, Option, none, some, [], ◌∷◌, Effect, not, if◌then◌else◌, ok, err, and_then, pure, throw,
  lift, perform, on_result, ◌>>=◌,
}
use instnt_aries_vcx.Errors.{
  AriesVcxErrorKind, VcxResult, from_msg, to_string, invalid_json, invalid_proof, invalid_state,
}
use instnt_aries_vcx.Messages.Parts.{ProblemReport, timing_of}
use instnt_aries_vcx.Messages.Proof.{
  ProposePresentationV1, RequestPresentationV1, PresentationV1, propose_presentation, presentation,
}
use instnt_aries_vcx.Messages.Aries.{proof_v1, report_problem}
use instnt_aries_vcx.Anoncreds.Request.{PresentationRequest}
use instnt_aries_vcx.Proof.Requests.{presentation_request_to_string}
use instnt_aries_vcx.Proof.Verifier.Check.{validate_indy_proof}
use instnt_aries_vcx.Runtime.{Runtime, Vcx}
use instnt_aries_vcx.Util.Thread.{matches_thread_id, verify_thread_id}
use instnt_aries_vcx.Util.Attach.{AttachmentId, as_ref, get_attach_as_string, make_attach_from_str}
use instnt_aries_vcx.Util.Report.{build_problem_report_msg}
use instnt_aries_vcx.Proof.Verifier.States.{
  valid, invalid, PresentationRequestSentState, VerifierSm, initial, presentation_request_set,
  presentation_proposal_received, presentation_request_sent, finished, declined_with, checked,
  failed_with,
}

-- `VerifierSM::new`: the thread is not yet known, and its id is the empty text.
unfoldable pub new : String → VerifierSm
new source_id = record { source_id = source_id; thread_id = ""; state = initial }

-- The thread of a proposal, or else its id.
abbrev pub thread_of_proposal : ProposePresentationV1 → String
thread_of_proposal p = elim p.decorators.thread [ some t ↦ t.thid | none ↦ p.id ]

unfoldable pub mark_presentation_request_sent : VerifierSm → VcxResult VerifierSm
mark_presentation_request_sent self = elim self.state [
  | presentation_request_set s ↦ ok (record self {
    state = presentation_request_sent (record { presentation_request = s.presentation_request });
  })
  | presentation_request_sent s ↦ ok (record self { state = presentation_request_sent s })
  | _ ↦ err (from_msg invalid_state "Can not mark_presentation_request_msg_sent in current state.")
]

unfoldable pub reject_presentation_proposal : VerifierSm → ProblemReport → VcxResult VerifierSm
reject_presentation_proposal self report = ok (elim self.state [
  | presentation_proposal_received s ↦ record self {
    state = finished (declined_with report);
    thread_id = thread_of_proposal s.presentation_proposal;
  }
  | _ ↦ self
])

module _ (R : Runtime) where
  open R use {World}

  unfoldable pub build_starting_presentation_request :
      String → PresentationRequest → Option String → Effect World RequestPresentationV1
  build_starting_presentation_request thread_id request_data comment w =
      let (now, w') = R.utc_now w in
      (
        record {
          id = thread_id;
          content = record {
            comment = comment;
            request_presentations_attach =
                make_attach_from_str R (presentation_request_to_string R request_data)
                  (as_ref AttachmentId.presentation_request)
                ∷ [];
          };
          decorators = record { thread = none; timing = some (timing_of now) };
        },
        w',
      )

  abbrev request_with : VerifierSm → PresentationRequest → Option String → Vcx R VerifierSm
  request_with self request_data comment = do
    msg ← perform (build_starting_presentation_request self.thread_id request_data comment)
    pure (record self { state = presentation_request_set (record { presentation_request = msg }) })

  unfoldable pub set_presentation_request :
      VerifierSm → PresentationRequest → Option String → Vcx R VerifierSm
  set_presentation_request self request_data comment = elim self.state [
    | initial ↦ request_with self request_data comment
    | presentation_request_set _ ↦ request_with self request_data comment
    | presentation_proposal_received _ ↦ request_with self request_data comment
    | _ ↦ throw (from_msg invalid_state "Cannot set presentation request in this state")
  ]

  unfoldable pub from_request : String → PresentationRequest → Vcx R VerifierSm
  from_request source_id request_data = do
    id ← perform R.new_v4
    set_presentation_request (record { source_id = source_id; thread_id = id; state = initial })
        request_data none

  -- `PresentationProposalReceivedState::new`: the default that fills the second field draws an
  -- identifier, which is dropped.
  abbrev received : VerifierSm → ProposePresentationV1 → String → Vcx R VerifierSm
  received self proposal thread_id = do
    _ ← perform R.new_v4
    pure (record self {
      state =
          presentation_proposal_received
            (record { presentation_proposal = proposal; presentation_request = none });
      thread_id = thread_id;
    })

  unfoldable pub from_proposal : String → ProposePresentationV1 → Vcx R VerifierSm
  from_proposal source_id proposal =
      received (record { source_id = source_id; thread_id = proposal.id; state = initial }) proposal
        proposal.id

  unfoldable pub receive_presentation_proposal :
      VerifierSm → ProposePresentationV1 → Vcx R VerifierSm
  receive_presentation_proposal self proposal = do
    _ ← lift (verify_thread_id R self.thread_id (proof_v1 (propose_presentation proposal)))
    elim self.state [
      | initial ↦ received self proposal (thread_of_proposal proposal)
      | presentation_request_sent _ ↦ received self proposal self.thread_id
      | _ ↦ pure self
    ]

  unfoldable pub receive_presentation_request_reject :
      VerifierSm → ProblemReport → VcxResult VerifierSm
  receive_presentation_request_reject self report =
      and_then (verify_thread_id R self.thread_id (report_problem report)) λ _. ok (record self {
        state = elim self.state [
          | presentation_request_sent s ↦ finished (failed_with s report)
          | s ↦ s
        ];
      })

  -- `PresentationRequestSentState::verify_presentation`
  unfoldable pub check_presentation :
      PresentationRequestSentState → PresentationV1 → String → Vcx R Unit
  check_presentation s msg thread_id =
      if not (matches_thread_id msg.decorators.thread thread_id)
      then throw (
          from_msg invalid_json (
            "Cannot handle proof presentation: thread id does not match: "
            ++ R.debug_text msg.decorators.thread.thid))
      else (do
        proof_json ← lift (get_attach_as_string R msg.content.presentations_attach)
        proof_req_json ←
            lift
              (get_attach_as_string R s.presentation_request.content.request_presentations_attach)
        is_valid ← validate_indy_proof R proof_json proof_req_json
        if not is_valid
            then throw (from_msg invalid_proof "Presentation verification failed")
            else pure tt)

  -- `match err.kind() { InvalidProof => .., _ => .. }`
  abbrev verdict_on :
      AriesVcxErrorKind
      → PresentationRequestSentState
      → PresentationV1
      → ProblemReport
      → VerifierSm
      → VerifierSm
  verdict_on AriesVcxErrorKind.invalid_proof s msg report self = record self {
    state = finished (checked s msg invalid);
  }
  verdict_on _ s msg report self = record self { state = finished (failed_with s report) }

  unfoldable pub verify_presentation : VerifierSm → PresentationV1 → Vcx R VerifierSm
  verify_presentation self msg = do
    _ ← lift (verify_thread_id R self.thread_id (proof_v1 (presentation msg)))
    elim self.state [
      | presentation_request_sent s ↦
          on_result (check_presentation s msg self.thread_id)
            (λ _. pure (record self { state = finished (checked s msg valid) }))
            (λ e. do
              report ← perform (build_problem_report_msg R (some (to_string e)) self.thread_id)
              pure (verdict_on e.kind s msg report self))
      | _ ↦ pure self
    ]
