-- ===== src/Proof/Verifier/Replies.antt =====
-- What `Verifier` sends, and what it does with the messages that it is given.
use instnt_aries_vcx.Base.{String, ◌≡◌, some, true, err, Returns, arith}
use instnt_aries_vcx.Errors.{AriesVcxError}
use instnt_aries_vcx.Messages.Parts.{thread_of}
use instnt_aries_vcx.Messages.Proof.{PresentationV1, PresentProofV1, presentation}
use instnt_aries_vcx.Messages.Aries.{
  AriesMessage, PresentProof, Notification, present_proof, notification, proof_v1,
}
use instnt_aries_vcx.Runtime.{Runtime}
use instnt_aries_vcx.Util.Thread.{is_match, verify_thread_id}
use instnt_aries_vcx.Proof.Verifier.States.{
  VerifierState, PresentationRequestSentState, PresentationProposalReceivedState,
  presentation_request_sent, presentation_proposal_received, get_state,
}
use instnt_aries_vcx.Proof.Verifier.Machine
use instnt_aries_vcx.Proof.Verifier.Machine.{thread_of_proposal, reject_presentation_proposal}
use instnt_aries_vcx.Proof.Verifier.Queries.{
  get_final_message, get_verification_status, presentation_proposal,
}
use instnt_aries_vcx.Proof.Verifier.Outcome.{is_ack, is_valid, is_last}
use instnt_aries_vcx.Proof.Verifier.Handler.{
  Verifier, process_aries_msg, decline_presentation_proposal,
}

module _ (R : Runtime) where
  open R use {World}

  -- A presentation on the thread of a request that was sent is always answered, whatever the proof
  -- library does: the exchange is at its end, and the answer is an acknowledgement exactly if the
  -- presentation was found valid.
  pub presentation_answered :
      (self : Verifier) (s : PresentationRequestSentState) (m : PresentationV1) (w : World)
      → self.verifier_sm.state ≡ presentation_request_sent s
      → is_match self.verifier_sm.thread_id (proof_v1 (presentation m)) ≡ true
      → let (r, self', w') = process_aries_msg R self (proof_v1 (presentation m)) w in
        Returns
          (λ sent. elim sent [
            | some msg ↦
                (is_last (get_state self'.verifier_sm) ≡ true)
                × (is_ack msg ≡ is_valid (get_verification_status self'.verifier_sm))
            | _ ↦ ⊥
          ])
          r
  unfolding process_aries_msg Machine.verify_presentation verify_thread_id get_final_message
      get_verification_status
  presentation_answered self s m w at on = ground arith

  -- A call of `process_aries_msg` that fails leaves the object as it was, whatever the message.
  pub verifier_message_error :
      (self : Verifier) (m : AriesMessage) (w : World) {e : AriesVcxError}
      → (process_aries_msg R self m w).0 ≡ err e
      → (process_aries_msg R self m w).1 ≡ self
  unfolding process_aries_msg
  verifier_message_error self
        (present_proof (PresentProof.v1 (PresentProofV1.propose_presentation p))) w h =
      ground arith
  verifier_message_error self (present_proof (PresentProof.v1 (PresentProofV1.presentation p))) w
        h =
      ground arith
  verifier_message_error self (notification (Notification.problem_report r)) w h = ground arith
  verifier_message_error self _ w h = ground arith

  -- A verifier that has a proposal declines it with a report on the proposal's thread, with the
  -- given reason; that thread is then the machine's, and the exchange has failed.
  pub proposal_declined :
      (self : Verifier) (s : PresentationProposalReceivedState) (reason : String) (w : World)
      → self.verifier_sm.state ≡ presentation_proposal_received s
      → let (r, self', w') = decline_presentation_proposal R self reason w in
        Returns
          (λ report.
            (report.decorators.thread ≡ some (thread_of self'.verifier_sm.thread_id))
            × (self'.verifier_sm.thread_id ≡ thread_of_proposal s.presentation_proposal)
            × (report.content.description.code ≡ reason)
            × (get_state self'.verifier_sm ≡ VerifierState.failed))
          r
  unfolding decline_presentation_proposal reject_presentation_proposal presentation_proposal
  proposal_declined self s reason w at = ground arith
