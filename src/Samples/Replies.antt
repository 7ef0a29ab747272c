-- ===== src/Samples/Replies.antt =====
-- The theorems on the objects `Prover` and `Verifier`, at concrete machines.
use instnt_aries_vcx.Base.{◌≡◌, refl, none, some, true, ok, Returns, Ensures, Fails}
use instnt_aries_vcx.Errors.{not_ready}
use instnt_aries_vcx.Messages.Proof.{presentation, propose_presentation}
use instnt_aries_vcx.Messages.Aries.{AriesMessage, proof_v1}
use instnt_aries_vcx.Util.Thread.{is_match, matches_thread_id}
use instnt_aries_vcx.Proof.Prover.States as ProverStates
use instnt_aries_vcx.Proof.Prover.States.{
  ProverFullState, ProverState, PresentationPreparationFailedState,
}
use instnt_aries_vcx.Proof.Prover.Queries.{get_problem_report}
use instnt_aries_vcx.Proof.Prover.Handler.{Prover, mark_presentation_sent}
use instnt_aries_vcx.Proof.Prover.Replies.{presentation_to_send, failure_not_sent}
use instnt_aries_vcx.Proof.Verifier.States.{
  VerifierFullState, PresentationProposalReceivedState, presentation_request_sent, get_state,
}
use instnt_aries_vcx.Proof.Verifier.Queries.{get_verification_status}
use instnt_aries_vcx.Proof.Verifier.Outcome.{is_ack, is_valid, is_last}
use instnt_aries_vcx.Proof.Verifier.Handler.{Verifier, process_aries_msg}
use instnt_aries_vcx.Proof.Verifier.Replies.{presentation_answered}
use instnt_aries_vcx.Samples.World.{sample}
use instnt_aries_vcx.Samples.Messages
use instnt_aries_vcx.Samples.Proof.{prover, verifier, received, prepared, waiting}

abbrev prover_object : ProverFullState → Prover
prover_object s = record { prover_sm = prover s }

abbrev verifier_object : VerifierFullState → Verifier
verifier_object s = record { verifier_sm = verifier s }

abbrev ready : Prover
ready = prover_object (ProverFullState.presentation_prepared prepared)

abbrev asked : Prover
asked = prover_object (ProverFullState.presentation_request_received received)

abbrev failure : PresentationPreparationFailedState
failure = record { presentation_request = Messages.proof_request; problem_report = Messages.report }

abbrev unable : Prover
unable = prover_object (ProverFullState.presentation_preparation_failed failure)

presentation_to_send_example :
    let (r, self', w') = mark_presentation_sent sample ready 0 in
    Ensures
      (λ msg.
        (is_match self'.prover_sm.thread_id msg ≡ true)
        × (ProverStates.get_state self'.prover_sm ≡ ProverState.presentation_sent))
      r
presentation_to_send_example = presentation_to_send sample ready 0 refl

failure_not_sent_example :
    let (r, self', w') = mark_presentation_sent sample unable 0 in
    (Fails (λ e. e.kind ≡ not_ready) r)
    × (ProverStates.get_state self'.prover_sm ≡ ProverState.failed)
    × (get_problem_report self'.prover_sm ≡ ok Messages.report)
failure_not_sent_example = failure_not_sent sample unable failure 0 refl

abbrev expecting : Verifier
expecting = verifier_object (presentation_request_sent waiting)

presentation_answered_example :
    let (r, self', w') =
      process_aries_msg sample expecting (proof_v1 (presentation Messages.proof)) 0 in
    Returns
      (λ sent. elim sent [
        | some msg ↦
            (is_last (get_state self'.verifier_sm) ≡ true)
            × (is_ack msg ≡ is_valid (get_verification_status self'.verifier_sm))
        | _ ↦ ⊥
      ])
      r
unfolding is_match matches_thread_id
presentation_answered_example =
    presentation_answered sample expecting waiting Messages.proof 0 refl refl

abbrev foreign : AriesMessage
foreign = proof_v1 (propose_presentation Messages.proof_proposal)

abbrev proposed : PresentationProposalReceivedState
proposed = record { presentation_proposal = Messages.proof_proposal; presentation_request = none }
