-- ===== src/Proof/Prover/Handler.antt =====
-- handlers/proof_presentation/prover.rs: the object `Prover` that an agent keeps. A `&mut self`
-- method returns its result, the object after the call, and the world.
use Prim.Native.String.{◌++◌}
use instnt_aries_vcx.Base.{
  String, Option, none, some, List, map_err, and_then, ok, err, pure, throw, lift, perform, ◌>>=◌,
}
use instnt_aries_vcx.Errors.{VcxResult, from_msg, not_ready, invalid_json, invalid_option}
use instnt_aries_vcx.Messages.Parts.{thread_of, timing_of}
use instnt_aries_vcx.Messages.Proof.{
  ProposePresentationV1, AckPresentationV1, PresentProofV1, propose_presentation, presentation,
}
use instnt_aries_vcx.Messages.Aries.{
  AriesMessage, PresentProof, Notification, present_proof, notification, report_problem, proof_v1,
  general,
}
use instnt_aries_vcx.Anoncreds.Selection.{SelectedCredentials}
use instnt_aries_vcx.Runtime.{Runtime, Vcx}
use instnt_aries_vcx.Util.Attach.{get_attach_as_string}
use instnt_aries_vcx.Util.Report.{build_problem_report_msg}
use instnt_aries_vcx.Proof.Prover.States.{
  ProverSm, ProverState, PresentationProposalData, get_state,
}
use instnt_aries_vcx.Proof.Prover.Machine
use instnt_aries_vcx.Proof.Prover.Machine.{
  receive_presentation_request, receive_presentation_ack, receive_presentation_reject,
  negotiate_presentation,
}
use instnt_aries_vcx.Proof.Prover.Queries.{
  get_presentation_msg, get_presentation_request, get_presentation_proposal, get_problem_report,
}

pub record Prover : Type 0 where
  pub prover_sm : ProverSm

module _ (R : Runtime) where
  open R use {World}

  -- The result of a `&mut self` method.
  abbrev pub Method : Type 0 → Type 0
  Method A = World → VcxResult A × Prover × World

  -- `self.prover_sm = <machine>?;` and then what the method returns, from the object it has now.
  abbrev assign :
      {A : Type 0}
      → Prover
      → VcxResult ProverSm
      → (Prover → VcxResult A)
      → World
      → VcxResult A × Prover × World
  assign self (ok sm) f w = let self' : Prover = record { prover_sm = sm } in (f self', self', w)
  assign self (err e) f w = (err e, self, w)

  abbrev update : {A : Type 0} → Prover → Vcx R ProverSm → (Prover → VcxResult A) → Method A
  update self m f w = let (r, w') = m w in assign self r f w'

  unfoldable pub generate_presentation :
      Prover → SelectedCredentials → List (String × String) → Method Unit
  generate_presentation self credentials attrs =
      update self (Machine.generate_presentation R self.prover_sm credentials attrs) (λ _. ok tt)

  unfoldable pub build_presentation_proposal :
      Prover → PresentationProposalData → Method ProposePresentationV1
  build_presentation_proposal self data_ =
      update self (Machine.build_presentation_proposal R self.prover_sm data_)
        (λ p. get_presentation_proposal p.prover_sm)

  -- The message for the state that `mark_presentation_sent` has reached.
  abbrev to_send : Prover → VcxResult AriesMessage
  to_send self = elim (get_state self.prover_sm) [
    | ProverState.presentation_sent ↦
        and_then (get_presentation_msg self.prover_sm) (λ p. ok (proof_v1 (presentation p)))
    | ProverState.finished ↦
        and_then (get_problem_report self.prover_sm) (λ r. ok (report_problem r))
    | _ ↦ err (from_msg not_ready "Cannot send presentation")
  ]

  unfoldable pub mark_presentation_sent : Prover → Method AriesMessage
  mark_presentation_sent self =
      update self (lift (Machine.mark_presentation_sent self.prover_sm)) to_send

  unfoldable pub process_presentation_ack : Prover → AckPresentationV1 → Method Unit
  process_presentation_ack self a =
      update self (lift (receive_presentation_ack self.prover_sm a)) (λ _. ok tt)

  unfoldable pub presentation_request_data : Prover → VcxResult String
  presentation_request_data self =
      and_then (get_presentation_request self.prover_sm)
        (λ q. get_attach_as_string R q.content.request_presentations_attach)

  unfoldable pub process_aries_msg : Prover → AriesMessage → Method Unit
  process_aries_msg self (present_proof (PresentProof.v1 (PresentProofV1.request_presentation q))) =
      update self (lift (receive_presentation_request self.prover_sm q)) (λ _. ok tt)
  process_aries_msg self (present_proof (PresentProof.v1 (PresentProofV1.ack a))) =
      update self (lift (receive_presentation_ack self.prover_sm a)) (λ _. ok tt)
  process_aries_msg self (report_problem r) =
      update self (lift (receive_presentation_reject self.prover_sm r)) (λ _. ok tt)
  process_aries_msg self (notification (Notification.problem_report r)) =
      update self (lift (receive_presentation_reject self.prover_sm (general (λ c. c.inner) r)))
        (λ _. ok tt)
  process_aries_msg self (present_proof (PresentProof.v1 (PresentProofV1.problem_report r))) =
      update self (lift (receive_presentation_reject self.prover_sm (general (λ c. c.inner) r)))
        (λ _. ok tt)
  process_aries_msg self _ = update self (pure self.prover_sm) (λ _. ok tt)

  -- The new machine and the message for it, or the error.
  abbrev declined_by : Prover → Option String → Option String → Vcx R (ProverSm × AriesMessage)
  declined_by self (some reason) none = do
    report ← perform (build_problem_report_msg R (some reason) self.prover_sm.thread_id)
    sm ← lift (Machine.decline_presentation_request self.prover_sm report)
    pure (sm, report_problem report)
  declined_by self none (some proposal) = do
    preview ← lift (
        map_err
          (λ e.
            from_msg invalid_json ("Cannot serialize Presentation Preview: " ++ R.debug_fault e))
          (R.preview_from_str proposal))
    id ← perform R.new_v4
    now ← perform R.utc_now
    sm ← lift (negotiate_presentation self.prover_sm)
    pure (
      sm,
      proof_v1 (
          propose_presentation (record {
            id = id;
            content = record { comment = none; presentation_proposal = preview };
            decorators = record {
              thread = some (thread_of self.prover_sm.thread_id);
              timing = some (timing_of now);
            };
          })),
    )
  declined_by self none none =
      throw (from_msg invalid_option "Either `reason` or `proposal` parameter must be specified.")
  declined_by self (some _) (some _) =
      throw
        (from_msg invalid_option "Only one of `reason` or `proposal` parameters must be specified.")

  abbrev replace :
      Prover → VcxResult (ProverSm × AriesMessage) → World → VcxResult AriesMessage × Prover × World
  replace self (ok (sm, msg)) w = (ok msg, record { prover_sm = sm }, w)
  replace self (err e) w = (err e, self, w)

  unfoldable pub decline_presentation_request :
      Prover → Option String → Option String → Method AriesMessage
  decline_presentation_request self reason proposal w =
      let (r, w') = declined_by self reason proposal w in replace self r w'
