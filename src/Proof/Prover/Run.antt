-- ===== src/Proof/Prover/Run.antt =====
-- A prover's exchange as a sequence of calls, in any order. A call that fails leaves the machine.
use instnt_aries_vcx.Base.{
  String, ◌≡◌, refl, ◌∙◌, Result, ok, err, List, [], ◌∷◌, Ensures, Returns, lift, arith,
}
use instnt_aries_vcx.Errors.{AriesVcxError}
use instnt_aries_vcx.Messages.Parts.{ProblemReport}
use instnt_aries_vcx.Messages.Proof.{RequestPresentationV1, AckPresentationV1}
use instnt_aries_vcx.Anoncreds.Selection.{SelectedCredentials}
use instnt_aries_vcx.Runtime.{Runtime, Vcx}
use instnt_aries_vcx.Proof.Prover.States.{
  PresentationProposalData, FinishedState, ProverSm, ProverState, finished, get_state,
}
use instnt_aries_vcx.Proof.Prover.Machine.{
  mark_presentation_sent, decline_presentation_request, negotiate_presentation,
  receive_presentation_request, receive_presentation_reject, receive_presentation_ack,
  build_presentation_proposal, generate_presentation,
}
use instnt_aries_vcx.Proof.Prover.Invariant.{
  IsValid, mark_presentation_sent-IsValid, decline_presentation_request-IsValid,
  negotiate_presentation-IsValid, receive_presentation_request-IsValid,
  receive_presentation_reject-IsValid, receive_presentation_ack-IsValid,
  build_presentation_proposal-IsValid, generate_presentation-IsValid,
}

-- The edges of the protocol's diagram, as the prover sees it.
infix 40 ◌⟶◌ ◌⟶*◌
pub data ◌⟶◌ : ProverState → ProverState → Type 0 where
  stay : {s : ProverState} → s ⟶ s
  proposes : ProverState.initial ⟶ ProverState.presentation_proposal_sent
  counters : ProverState.presentation_request_received ⟶ ProverState.presentation_proposal_sent
  requested : ProverState.presentation_proposal_sent ⟶ ProverState.presentation_request_received
  proposal_rejected : ProverState.presentation_proposal_sent ⟶ ProverState.failed
  prepares : ProverState.presentation_request_received ⟶ ProverState.presentation_prepared
  cannot : ProverState.presentation_request_received ⟶ ProverState.presentation_preparation_failed
  declines : ProverState.presentation_request_received ⟶ ProverState.failed
  negotiates : ProverState.presentation_request_received ⟶ ProverState.finished
  gives_up : ProverState.presentation_prepared ⟶ ProverState.failed
  sends : ProverState.presentation_prepared ⟶ ProverState.presentation_sent
  reports : ProverState.presentation_preparation_failed ⟶ ProverState.failed
  rejected : ProverState.presentation_sent ⟶ ProverState.failed
  completes : ProverState.presentation_sent ⟶ ProverState.finished

pub data ◌⟶*◌ : ProverState → ProverState → Type 0 where
  here : {s : ProverState} → s ⟶* s
  next : {s t u : ProverState} → s ⟶ t → t ⟶* u → s ⟶* u

ruleset edges = (
  stay, proposes, counters, requested, proposal_rejected, prepares, cannot, declines, negotiates,
  gives_up, sends, reports, rejected, completes,
)

module _ (R : Runtime) where
  open R use {World}

  pub data ProverCall : Type 0 where
    propose : PresentationProposalData → ProverCall
    request : RequestPresentationV1 → ProverCall
    generate : SelectedCredentials → List (String × String) → ProverCall
    mark_sent : ProverCall
    acknowledge : AckPresentationV1 → ProverCall
    reject : ProblemReport → ProverCall
    decline : ProblemReport → ProverCall
    negotiate : ProverCall

  unfoldable pub call : ProverSm → ProverCall → Vcx R ProverSm
  call p (propose d) = build_presentation_proposal R p d
  call p (request q) = lift (receive_presentation_request p q)
  call p (generate c attrs) = generate_presentation R p c attrs
  call p mark_sent = lift (mark_presentation_sent p)
  call p (acknowledge a) = lift (receive_presentation_ack p a)
  call p (reject r) = lift (receive_presentation_reject p r)
  call p (decline r) = lift (decline_presentation_request p r)
  call p negotiate = lift (negotiate_presentation p)

  abbrev pub kept : ProverSm → Result AriesVcxError ProverSm → ProverSm
  kept p (ok p') = p'
  kept p (err e) = p

  unfoldable pub run : List ProverCall → ProverSm → World → ProverSm × World
  run [] p w = (p, w)
  run (c ∷ cs) p w = let (r, w') = call p c w in run cs (kept p r) w'

  kept-Returns :
      (p : ProverSm) (r : Result AriesVcxError ProverSm) → Returns IsValid r → IsValid (kept p r)
  kept-Returns p (ok p') e = e
  kept-Returns p (err x) e = elim e [ ]

  kept-Ensures :
      (p : ProverSm) (r : Result AriesVcxError ProverSm)
      → IsValid p
      → Ensures IsValid r
      → IsValid (kept p r)
  kept-Ensures p (ok p') v e = e
  kept-Ensures p (err x) v e = v

  call-IsValid :
      (p : ProverSm) (c : ProverCall) (w : World) → IsValid p → IsValid (kept p (call p c w).0)
  unfolding call
  call-IsValid p (propose d) w v = kept-Returns p _ (build_presentation_proposal-IsValid p v R d w)
  call-IsValid p (request q) w v = kept-Returns p _ (receive_presentation_request-IsValid p v q)
  call-IsValid p (generate c as_) w v =
      kept-Ensures p _ v (generate_presentation-IsValid p v R c as_ w)
  call-IsValid p mark_sent w v = kept-Returns p _ (mark_presentation_sent-IsValid p v)
  call-IsValid p (acknowledge a) w v = kept-Returns p _ (receive_presentation_ack-IsValid p v a)
  call-IsValid p (reject r) w v = kept-Returns p _ (receive_presentation_reject-IsValid p v r)
  call-IsValid p (decline r) w v = kept-Returns p _ (decline_presentation_request-IsValid p v r)
  call-IsValid p negotiate w v = kept-Returns p _ (negotiate_presentation-IsValid p v)

  -- Whatever is called, in whatever order and with whatever outcome, a valid machine stays valid:
  -- the proposal that it has sent, and the presentation or the problem report that it has made to
  -- be sent, stand on its thread, and so does a presentation that is kept at the end; at the end a
  -- declined or negotiated exchange has no presentation, and any but a declined one has the request.
  pub prover_run-IsValid :
      (cs : List ProverCall) (p : ProverSm) (w : World) → IsValid p → IsValid (run cs p w).0
  unfolding run
  prover_run-IsValid [] p w v = v
  prover_run-IsValid (c ∷ cs) p w v =
      let (r, w') = call p c w in prover_run-IsValid cs (kept p r) w' (call-IsValid p c w v)

  call-⟶ :
      (p : ProverSm) (c : ProverCall) (w : World) → get_state p ⟶ get_state (kept p (call p c w).0)
  unfolding call build_presentation_proposal generate_presentation mark_presentation_sent
      decline_presentation_request negotiate_presentation receive_presentation_request
      receive_presentation_reject receive_presentation_ack
  call-⟶ p mark_sent w = grind (arith, edges)
  call-⟶ p _ w = grind (arith, edges)

  -- Every sequence of calls follows the diagram of the protocol.
  pub prover_run-⟶* :
      (cs : List ProverCall) (p : ProverSm) (w : World) → get_state p ⟶* get_state (run cs p w).0
  unfolding run
  prover_run-⟶* [] p w = here
  prover_run-⟶* (c ∷ cs) p w =
      let (r, w') = call p c w in next (call-⟶ p c w) (prover_run-⟶* cs (kept p r) w')

  call-finished :
      (p : ProverSm) (c : ProverCall) (w : World) {s : FinishedState}
      → p.state ≡ finished s
      → (kept p (call p c w).0 ≡ p) × ((call p c w).1 ≡ w)
  unfolding call build_presentation_proposal generate_presentation mark_presentation_sent
      decline_presentation_request negotiate_presentation receive_presentation_request
      receive_presentation_reject receive_presentation_ack
  call-finished p c w e = ground arith

  -- A finished exchange is final: no sequence of calls changes the machine, and none reaches the
  -- wallet, the ledger, the clock or the random source.
  pub prover_run-finished :
      (cs : List ProverCall) (p : ProverSm) (w : World) {s : FinishedState}
      → p.state ≡ finished s
      → run cs p w ≡ (p, w)
  unfolding run
  prover_run-finished [] p w e = refl
  prover_run-finished (c ∷ cs) p w e =
      let same = call-finished p c w e in rw (same.0, same.1) (prover_run-finished cs p w e)

  call-identity :
      (p : ProverSm) (c : ProverCall) (w : World) → (kept p (call p c w).0).thread_id ≡ p.thread_id
  unfolding call build_presentation_proposal generate_presentation mark_presentation_sent
      decline_presentation_request negotiate_presentation receive_presentation_request
      receive_presentation_reject receive_presentation_ack
  call-identity p c w = ground arith

  -- The thread of an exchange is fixed when the machine is made: no call changes it.
  pub prover_thread_id-run :
      (cs : List ProverCall) (p : ProverSm) (w : World) → (run cs p w).0.thread_id ≡ p.thread_id
  unfolding run
  prover_thread_id-run [] p w = refl
  prover_thread_id-run (c ∷ cs) p w =
      let (r, w') = call p c w in prover_thread_id-run cs (kept p r) w' ∙ call-identity p c w
