-- ===== src/Samples/Proof.antt =====
-- The theorems on the prover, on the verifier, and on both, at concrete machines.
use instnt_aries_vcx.Base.{◌≡◌, refl, List, [], ◌∷◌, true, is_ok, ok, Returns, Ensures}
use instnt_aries_vcx.Util.Thread.{is_match, matches_thread_id}
use instnt_aries_vcx.Proof.Prover.States as ProverStates
use instnt_aries_vcx.Proof.Prover.States.{ProverSm, ProverState, ProverFullState}
use instnt_aries_vcx.Proof.Prover.Machine.{
  from_request, generate_presentation, mark_presentation_sent, receive_presentation_ack,
}
use instnt_aries_vcx.Proof.Prover.Invariant as ProverInvariant
use instnt_aries_vcx.Proof.Prover.Run as ProverRun
use instnt_aries_vcx.Proof.Prover.Run.{ProverCall}
use instnt_aries_vcx.Proof.Prover.Order.{needed, prover_success_needs}
use instnt_aries_vcx.Proof.Verifier.States.{
  valid, VerifierSm, VerifierFullState, PresentationRequestSentState, presentation_request_sent,
  finished, checked,
}
use instnt_aries_vcx.Proof.Verifier.Machine.{verify_presentation}
use instnt_aries_vcx.Proof.Verifier.Queries.{
  get_verification_status, get_presentation_msg, get_final_message,
}
use instnt_aries_vcx.Proof.Verifier.Invariant.{IsValid}
use instnt_aries_vcx.Proof.Verifier.Run.{VerifierCall, mark_sent, verify, run}
use instnt_aries_vcx.Proof.Verifier.Outcome.{
  is_ack, is_valid, verifier_final_message, verdict_followed,
}
use instnt_aries_vcx.Proof.Exchange.{Answers, HasVerdict, request_answered, proof_judged}
use instnt_aries_vcx.Anoncreds.Request.{request_v1}
use instnt_aries_vcx.Samples.Judged.{chosen, sample_judges, sample_parses, sample_proves}
use instnt_aries_vcx.Samples.World.{sample, sample-Codec, payload}
use instnt_aries_vcx.Samples.Messages

abbrev pub prover : ProverFullState → ProverSm
prover s = record { source_id = "p"; thread_id = "i"; state = s }

abbrev pub received : ProverStates.PresentationRequestReceived
received = record { presentation_request = Messages.proof_request }

abbrev pub prepared : ProverStates.PresentationPreparedState
prepared = record { presentation_request = Messages.proof_request; presentation = Messages.proof }

abbrev sent : ProverStates.PresentationSentState
sent = record { presentation_request = Messages.proof_request; presentation = Messages.proof }

abbrev at_request : ProverSm
at_request = prover (ProverFullState.presentation_request_received received)

abbrev at_prepared : ProverSm
at_prepared = prover (ProverFullState.presentation_prepared prepared)

abbrev at_end : ProverSm
at_end = prover (ProverFullState.finished (ProverStates.acknowledged sent))

abbrev prover_calls : List (ProverCall sample)
prover_calls =
    ProverCall.generate chosen []
    ∷ ProverCall.mark_sent
    ∷ ProverCall.acknowledge Messages.proof_ack
    ∷ []

prover_run-IsValid_example :
    ProverInvariant.IsValid (ProverRun.run sample prover_calls at_request 0).0
prover_run-IsValid_example = ProverRun.prover_run-IsValid sample prover_calls at_request 0 tt

abbrev last_calls : List (ProverCall sample)
last_calls = ProverCall.mark_sent ∷ ProverCall.acknowledge Messages.proof_ack ∷ []

prover_success_needs_example : needed ProverState.presentation_prepared last_calls ≡ true
unfolding ProverRun.run ProverRun.call mark_presentation_sent receive_presentation_ack
prover_success_needs_example = prover_success_needs sample last_calls at_prepared 0 refl

abbrev pub verifier : VerifierFullState → VerifierSm
verifier s = record { source_id = "v"; thread_id = "i"; state = s }

abbrev pub waiting : PresentationRequestSentState
waiting = record { presentation_request = Messages.proof_request }

abbrev at_wait : VerifierSm
at_wait = verifier (presentation_request_sent waiting)

abbrev verified : VerifierSm
verified = verifier (finished (checked waiting Messages.proof valid))

abbrev verifier_calls : List (VerifierCall sample)
verifier_calls = mark_sent ∷ verify Messages.proof ∷ []

verifier_final_message_example :
    (is_ok (get_final_message sample verified 0).0 ≡ true)
    × Ensures
        (λ msg. is_ack msg ≡ is_valid (get_verification_status verified))
        (get_final_message sample verified 0).0
verifier_final_message_example = verifier_final_message sample verified 0 (tt, (refl, refl, refl))

verdict_followed_example :
    Returns
      (λ v'.
        (get_verification_status v' ≡ valid)
        × (get_presentation_msg v' ≡ ok Messages.proof)
        × Returns (λ msg. is_ack msg ≡ true) (get_final_message sample v' 0).0)
      (verify_presentation sample at_wait Messages.proof 0).0
unfolding is_match matches_thread_id
verdict_followed_example =
    verdict_followed sample sample-Codec at_wait waiting Messages.proof "p" "r" "b" "a" [] [] true 0
      0 refl refl refl refl sample_judges

request_answered_example :
    Ensures
      (λ p. (p.thread_id ≡ "i") × Answers sample at_wait waiting p.state)
      (generate_presentation sample (from_request Messages.proof_request "p") chosen [] 0).0
request_answered_example = request_answered sample at_wait waiting "p" chosen [] 0 refl refl

proof_judged_example :
    Returns
      (λ p. Returns (HasVerdict sample at_wait 0 true) (mark_presentation_sent p))
      (generate_presentation sample (from_request Messages.proof_request "p") chosen [] 0).0
proof_judged_example =
    proof_judged sample sample-Codec at_wait waiting "p" chosen [] "r" "a" "p" []
      (request_v1 payload) "p" true 0 0 0 0 refl refl refl sample_parses sample_proves refl
      sample_judges
