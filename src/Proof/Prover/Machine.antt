-- ===== src/Proof/Prover/Machine.antt =====
-- The transitions of `ProverSM` in prover/state_machine.rs. A method takes the machine and returns
-- it, or an error; on an error the caller keeps the machine that it had.
use instnt_aries_vcx.Base.{
  String, Option, none, some, List, [], ◌∷◌, Effect, ok, pure, lift, perform, on_result, ◌>>=◌,
}
use instnt_aries_vcx.Errors.{VcxResult, to_string}
use instnt_aries_vcx.Messages.Parts.{ProblemReport, Thread, thread_of, timing_of}
use instnt_aries_vcx.Messages.Proof.{
  ProposePresentationV1, RequestPresentationV1, PresentationV1, AckPresentationV1,
}
use instnt_aries_vcx.Anoncreds.Selection.{SelectedCredentials}
use instnt_aries_vcx.Proof.Requests.{presentation_request_from_str}
use instnt_aries_vcx.Proof.Prover.Build.{generate_indy_proof}
use instnt_aries_vcx.Runtime.{Runtime, Vcx, converted}
use instnt_aries_vcx.Util.Attach.{AttachmentId, as_ref, get_attach_as_string, make_attach_from_str}
use instnt_aries_vcx.Util.Report.{build_problem_report_msg}
use instnt_aries_vcx.Proof.Prover.States.{
  PresentationProposalData, PresentationRequestReceived, ProverSm, initial,
  presentation_proposal_sent, presentation_request_received, presentation_prepared,
  presentation_preparation_failed, presentation_sent, finished, declined_with, request_declined,
  request_negotiated, prepared_negotiated, preparation_failed, acknowledged, rejected,
}

unfoldable pub from_request : RequestPresentationV1 → String → ProverSm
from_request request source_id = record {
  source_id = source_id;
  thread_id = request.id;
  state = presentation_request_received (record { presentation_request = request });
}

-- The proposal that both branches of `build_presentation_proposal` build.
abbrev proposal_of : String → PresentationProposalData → Option Thread → ProposePresentationV1
proposal_of id p thread = record {
  id = id;
  content = record {
    comment = p.comment;
    presentation_proposal = record { attributes = p.attributes; predicates = p.predicates };
  };
  decorators = record { thread = thread; timing = none };
}

unfoldable pub mark_presentation_sent : ProverSm → VcxResult ProverSm
mark_presentation_sent self = ok (record self {
  state = elim self.state [
    | presentation_prepared s ↦
        presentation_sent
          (record { presentation_request = s.presentation_request; presentation = s.presentation })
    | presentation_preparation_failed s ↦ finished (preparation_failed s)
    | s ↦ s
  ];
})

unfoldable pub decline_presentation_request : ProverSm → ProblemReport → VcxResult ProverSm
decline_presentation_request self report = ok (record self {
  state = elim self.state [
    | presentation_request_received s ↦ finished (request_declined s report)
    | presentation_prepared _ ↦ finished (declined_with report)
    | s ↦ s
  ];
})

unfoldable pub negotiate_presentation : ProverSm → VcxResult ProverSm
negotiate_presentation self = ok (record self {
  state = elim self.state [
    | presentation_request_received s ↦ finished (request_negotiated s)
    | presentation_prepared s ↦ finished (prepared_negotiated s)
    | s ↦ s
  ];
})

unfoldable pub receive_presentation_request : ProverSm → RequestPresentationV1 → VcxResult ProverSm
receive_presentation_request self request = ok (elim self.state [
  | presentation_proposal_sent _ ↦ record self {
    state = presentation_request_received (record { presentation_request = request });
  }
  | _ ↦ self
])

unfoldable pub receive_presentation_reject : ProverSm → ProblemReport → VcxResult ProverSm
receive_presentation_reject self report = ok (elim self.state [
  | presentation_proposal_sent _ ↦ record self { state = finished (declined_with report) }
  | presentation_sent s ↦ record self { state = finished (rejected s report) }
  | _ ↦ self
])

unfoldable pub receive_presentation_ack : ProverSm → AckPresentationV1 → VcxResult ProverSm
receive_presentation_ack self msg = ok (record self {
  state = elim self.state [ presentation_sent s ↦ finished (acknowledged s) | s ↦ s ];
})

module _ (R : Runtime) where
  open R use {World, Presentation}

  unfoldable pub new : String → Effect World ProverSm
  new source_id w =
      let (id, w') = R.new_v4 w in
      (record { source_id = source_id; thread_id = id; state = initial }, w')

  unfoldable pub build_presentation_msg : String → Presentation → Vcx R PresentationV1
  build_presentation_msg thread_id presentation = do
    id ← perform R.new_v4
    text ← lift (converted R (R.presentation_to_string presentation))
    now ← perform R.utc_now
    pure (record {
      id = id;
      content = record {
        comment = none;
        presentations_attach = make_attach_from_str R text (as_ref AttachmentId.presentation) ∷ [];
      };
      decorators = record {
        thread = thread_of thread_id;
        please_ack = none;
        timing = some (timing_of now);
      };
    })

  unfoldable pub build_presentation_proposal : ProverSm → PresentationProposalData → Vcx R ProverSm
  build_presentation_proposal self p = elim self.state [
    | initial ↦ pure (record self {
      state = presentation_proposal_sent (record { proposal = proposal_of self.thread_id p none });
    })
    | presentation_request_received _ ↦ do
      id ← perform R.new_v4
      pure (record self {
        state =
            presentation_proposal_sent
              (record { proposal = proposal_of id p (some (thread_of self.thread_id)) });
      })
    | _ ↦ pure self
  ]

  -- `PresentationRequestReceived::build_presentation`
  unfoldable pub build_presentation :
      PresentationRequestReceived
      → SelectedCredentials
      → List (String × String)
      → Vcx R Presentation
  build_presentation s credentials self_attested_attrs = do
    text ← lift (get_attach_as_string R s.presentation_request.content.request_presentations_attach)
    request ← lift (converted R (presentation_request_from_str R text))
    generate_indy_proof R credentials self_attested_attrs request

  unfoldable pub generate_presentation :
      ProverSm → SelectedCredentials → List (String × String) → Vcx R ProverSm
  generate_presentation self credentials self_attested_attrs = elim self.state [
    | presentation_request_received s ↦
        on_result (build_presentation s credentials self_attested_attrs)
          (λ made. do
            msg ← build_presentation_msg self.thread_id made
            pure (record self {
              state =
                  presentation_prepared
                    (record { presentation_request = s.presentation_request; presentation = msg });
            }))
          (λ e. do
            report ← perform (build_problem_report_msg R (some (to_string e)) self.thread_id)
            pure (record self {
              state = presentation_preparation_failed (record {
                presentation_request = s.presentation_request;
                problem_report = report;
              });
            }))
    | _ ↦ pure self
  ]
