-- ===== src/Proof/Prover/Replies.antt =====
-- What `Prover` sends.
use instnt_aries_vcx.Base.{
  String, ◌≡◌, none, some, true, false, ok, is_ok, Returns, Ensures, Fails, arith, eq_refl,
}
use instnt_aries_vcx.Errors.{not_ready}
use instnt_aries_vcx.Runtime.{Runtime}
use instnt_aries_vcx.Util.Thread.{is_match, matches_thread_id}
use instnt_aries_vcx.Proof.Prover.States.{
  ProverState, PresentationPreparationFailedState, PresentationRequestReceived,
  presentation_preparation_failed, presentation_request_received, get_state,
}
use instnt_aries_vcx.Proof.Prover.Machine
use instnt_aries_vcx.Proof.Prover.Queries.{get_presentation_msg, get_problem_report}
use instnt_aries_vcx.Proof.Prover.Invariant.{IsValid}
use instnt_aries_vcx.Proof.Prover.Handler.{
  Prover, mark_presentation_sent, decline_presentation_request,
}

module _ (R : Runtime) where
  open R use {World}

  -- On a valid prover, what `mark_presentation_sent` gives to be sent stands on the thread, and the
  -- prover then waits for the answer to a presentation.
  pub presentation_to_send :
      (self : Prover) (w : World)
      → IsValid self.prover_sm
      → let (r, self', w') = mark_presentation_sent R self w in
        Ensures
          (λ msg.
            (is_match self'.prover_sm.thread_id msg ≡ true)
            × (get_state self'.prover_sm ≡ ProverState.presentation_sent))
          r
  unfolding mark_presentation_sent Machine.mark_presentation_sent get_presentation_msg
      get_problem_report is_match matches_thread_id
  presentation_to_send self w v = ground (arith, eq_refl self.prover_sm.thread_id)

  -- After a failed preparation `mark_presentation_sent` ends the exchange with the problem report
  -- in the machine, but returns an error in place of the report.
  pub failure_not_sent :
      (self : Prover) (s : PresentationPreparationFailedState) (w : World)
      → self.prover_sm.state ≡ presentation_preparation_failed s
      → let (r, self', w') = mark_presentation_sent R self w in
        (Fails (λ e. e.kind ≡ not_ready) r)
        × (get_state self'.prover_sm ≡ ProverState.failed)
        × (get_problem_report self'.prover_sm ≡ ok s.problem_report)
  unfolding mark_presentation_sent Machine.mark_presentation_sent get_problem_report
  failure_not_sent self s w at = ground arith

  -- A prover that has a request declines it with exactly one of a reason and a proposal: with a
  -- reason it returns a problem report that is on its thread and that the machine keeps, with both
  -- or neither it fails and nothing has changed.
  pub decline_options :
      (self : Prover) (s : PresentationRequestReceived) (reason proposal : String) (w : World)
      → self.prover_sm.state ≡ presentation_request_received s
      → (let (r, self', w') = decline_presentation_request R self (some reason) none w in
          Returns
            (λ msg.
              (is_match self.prover_sm.thread_id msg ≡ true)
              × (get_state self'.prover_sm ≡ ProverState.failed)
              × Returns
                  (λ report. report.content.description.code ≡ reason)
                  (get_problem_report self'.prover_sm))
            r)
        × (let (r, self', w') =
              decline_presentation_request R self (some reason) (some proposal) w in
            (is_ok r ≡ false) × (self' ≡ self) × (w' ≡ w))
        × (let (r, self', w') = decline_presentation_request R self none none w in
            (is_ok r ≡ false) × (self' ≡ self) × (w' ≡ w))
  unfolding decline_presentation_request Machine.decline_presentation_request get_problem_report
      is_match matches_thread_id
  decline_options self s reason proposal w at = ground (arith, eq_refl self.prover_sm.thread_id)
