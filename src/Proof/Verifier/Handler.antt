-- ===== src/Proof/Verifier/Handler.antt =====
-- handlers/proof_presentation/verifier.rs: the object `Verifier` that an agent keeps. A `&mut self`
-- method returns its result, the object after the call, and the world.
use instnt_aries_vcx.Base.{
  String, Option, none, some, and_then, ok, err, pure, throw, lift, perform, ◌>>=◌,
}
use instnt_aries_vcx.Errors.{VcxResult, from_msg, not_ready}
use instnt_aries_vcx.Messages.Parts.{ProblemReport}
use instnt_aries_vcx.Messages.Proof.{RequestPresentationV1, PresentationV1, PresentProofV1}
use instnt_aries_vcx.Messages.Aries.{
  AriesMessage, PresentProof, Notification, present_proof, notification, report_problem, general,
}
use instnt_aries_vcx.Anoncreds.Request.{PresentationRequest}
use instnt_aries_vcx.Runtime.{Runtime, Vcx}
use instnt_aries_vcx.Util.Attach.{get_attach_as_string}
use instnt_aries_vcx.Util.Report.{build_problem_report_msg}
use instnt_aries_vcx.Proof.Verifier.States.{VerifierSm, VerifierState, get_state}
use instnt_aries_vcx.Proof.Verifier.Machine
use instnt_aries_vcx.Proof.Verifier.Machine.{
  thread_of_proposal, reject_presentation_proposal, receive_presentation_proposal,
  receive_presentation_request_reject,
}
use instnt_aries_vcx.Proof.Verifier.Queries.{
  presentation_request_msg, get_presentation_msg, presentation_proposal, get_final_message,
}

pub record Verifier : Type 0 where
  pub verifier_sm : VerifierSm

module _ (R : Runtime) where
  open R use {World}

  -- The result of a `&mut self` method.
  abbrev pub Method : Type 0 → Type 0
  Method A = World → VcxResult A × Verifier × World

  -- The new machine, where there is one, and the result.
  abbrev keep :
      {A : Type 0} → Verifier → VcxResult (VerifierSm × A) → World → VcxResult A × Verifier × World
  keep self (ok (sm, a)) w = (ok a, record { verifier_sm = sm }, w)
  keep self (err e) w = (err e, self, w)

  abbrev update : {A : Type 0} → Verifier → Vcx R (VerifierSm × A) → Method A
  update self m w = let (r, w') = m w in keep self r w'

  unfoldable pub mark_presentation_request_sent : Verifier → Method RequestPresentationV1
  mark_presentation_request_sent self = update self (elim (get_state self.verifier_sm) [
    | VerifierState.presentation_request_set ↦ do
      request ← lift (presentation_request_msg self.verifier_sm)
      sm ← lift (Machine.mark_presentation_request_sent self.verifier_sm)
      pure (sm, request)
    | _ ↦ throw (from_msg not_ready "Cannot send presentation request")
  ])

  -- The machine is assigned before the message is built.
  abbrev then_message :
      Verifier → VcxResult VerifierSm → World → VcxResult AriesMessage × Verifier × World
  then_message self (ok sm) w =
      let (r, w') = get_final_message R sm w in (r, record { verifier_sm = sm }, w')
  then_message self (err e) w = (err e, self, w)

  unfoldable pub verify_presentation : Verifier → PresentationV1 → Method AriesMessage
  verify_presentation self msg w =
      let (r, w') = Machine.verify_presentation R self.verifier_sm msg w in then_message self r w'

  unfoldable pub set_presentation_request :
      Verifier → PresentationRequest → Option String → Method Unit
  set_presentation_request self data_ comment =
      update self
        (do sm ← Machine.set_presentation_request R self.verifier_sm data_ comment; pure (sm, tt))

  unfoldable pub get_presentation_request_attachment : Verifier → VcxResult String
  get_presentation_request_attachment self =
      and_then (presentation_request_msg self.verifier_sm)
        (λ q. get_attach_as_string R q.content.request_presentations_attach)

  unfoldable pub get_presentation_attachment : Verifier → VcxResult String
  get_presentation_attachment self =
      and_then (get_presentation_msg self.verifier_sm)
        (λ p. get_attach_as_string R p.content.presentations_attach)

  -- `(<machine>?, None)`
  abbrev silent : VcxResult VerifierSm → Vcx R (VerifierSm × Option AriesMessage)
  silent r = lift (and_then r (λ sm. ok (sm, none)))

  -- The machine and the message of each branch of `process_aries_msg`.
  abbrev processed : VerifierSm → AriesMessage → Vcx R (VerifierSm × Option AriesMessage)
  processed sm (present_proof (PresentProof.v1 (PresentProofV1.propose_presentation p))) = do
    sm' ← receive_presentation_proposal R sm p
    pure (sm', none)
  processed sm (present_proof (PresentProof.v1 (PresentProofV1.presentation p))) = do
    sm' ← Machine.verify_presentation R sm p
    msg ← get_final_message R sm'
    pure (sm', some msg)
  processed sm (report_problem r) = silent (receive_presentation_request_reject R sm r)
  processed sm (notification (Notification.problem_report r)) =
      silent (receive_presentation_request_reject R sm (general (λ c. c.inner) r))
  processed sm (present_proof (PresentProof.v1 (PresentProofV1.problem_report r))) =
      silent (receive_presentation_request_reject R sm (general (λ c. c.inner) r))
  processed sm _ = pure (sm, none)

  unfoldable pub process_aries_msg : Verifier → AriesMessage → Method (Option AriesMessage)
  process_aries_msg self message = update self (processed self.verifier_sm message)

  -- The error's text leaves off the `Debug` text of the state.
  unfoldable pub decline_presentation_proposal : Verifier → String → Method ProblemReport
  decline_presentation_proposal self reason = update self (elim (get_state self.verifier_sm) [
    | VerifierState.presentation_proposal_received ↦ do
      proposal ← lift (presentation_proposal self.verifier_sm)
      report ← perform (build_problem_report_msg R (some reason) (thread_of_proposal proposal))
      sm ← lift (reject_presentation_proposal self.verifier_sm report)
      pure (sm, report)
    | _ ↦ throw (from_msg not_ready "Unable to reject presentation proposal in state")
  ])
