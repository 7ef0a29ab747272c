-- ===== src/Proof/Prover/Outcome.antt =====
-- How a prover's exchange ends, and what its caller learns of it.
use instnt_aries_vcx.Base.{nat_eq, ◌≡◌, Bool, ◌&&◌, not, true, false, is_ok, Returns, arith}
use instnt_aries_vcx.Proof.Prover.States.{
  ProverSm, ProverState, PresentationRequestReceived, PresentationPreparedState,
  presentation_request_received, presentation_prepared, get_state,
}
use instnt_aries_vcx.Proof.Prover.Machine.{negotiate_presentation}
use instnt_aries_vcx.Proof.Prover.Queries.{
  get_presentation_status, get_presentation_msg, get_presentation_request, get_problem_report,
}
use instnt_aries_vcx.Proof.Prover.Invariant.{IsValid}

abbrev is_success : ProverState → Bool
is_success ProverState.finished = true
is_success _ = false

abbrev is_failed : ProverState → Bool
is_failed ProverState.failed = true
is_failed _ = false

abbrev is_ready : ProverState → Bool
is_ready ProverState.presentation_prepared = true
is_ready ProverState.presentation_sent = true
is_ready _ = false

-- A problem report can be taken only after a failure, the presentation whenever it is prepared or
-- sent, the request still at a success, and the status code is 1 exactly at a success.
pub prover_queries :
    (p : ProverSm)
    → IsValid p
    → ((is_ok (get_problem_report p) && not (is_failed (get_state p))) ≡ false)
      × ((is_ready (get_state p) && not (is_ok (get_presentation_msg p))) ≡ false)
      × ((is_success (get_state p) && not (is_ok (get_presentation_request p))) ≡ false)
      × (nat_eq (get_presentation_status p) 1 ≡ is_success (get_state p))
unfolding get_problem_report get_presentation_msg get_presentation_request get_presentation_status
prover_queries p v = ground arith

-- `negotiate_presentation` ends the exchange without a presentation in both states that it acts on,
-- but as a success where the request was just received, and as a failure that has no problem report
-- where a presentation was prepared.
pub negotiated :
    (p p' : ProverSm) (s : PresentationRequestReceived) (s' : PresentationPreparedState)
    → p.state ≡ presentation_request_received s
    → p'.state ≡ presentation_prepared s'
    → Returns
        (λ e. (get_state e ≡ ProverState.finished) × (is_ok (get_presentation_msg e) ≡ false))
        (negotiate_presentation p)
      × Returns
          (λ e.
            (get_state e ≡ ProverState.failed)
            × (is_ok (get_presentation_msg e) ≡ false)
            × (is_ok (get_problem_report e) ≡ false))
          (negotiate_presentation p')
unfolding negotiate_presentation get_presentation_msg get_problem_report
negotiated p p' s s' at at' = ground arith
