-- ===== src/Proof/Verifier/Run.antt =====
-- A verifier's exchange as a sequence of calls, in any order. A call that fails leaves the machine.
use instnt_aries_vcx.Base.{String, ◌≡◌, refl, Result, ok, err, Option, List, [], ◌∷◌, lift, arith}
use instnt_aries_vcx.Errors.{AriesVcxError}
use instnt_aries_vcx.Messages.Parts.{ProblemReport}
use instnt_aries_vcx.Messages.Proof.{ProposePresentationV1, PresentationV1}
use instnt_aries_vcx.Anoncreds.Request.{PresentationRequest}
use instnt_aries_vcx.Runtime.{Runtime, Vcx}
use instnt_aries_vcx.Util.Thread.{verify_thread_id}
use instnt_aries_vcx.Proof.Verifier.States.{
  FinishedState, VerifierSm, VerifierState, finished, get_state,
}
use instnt_aries_vcx.Proof.Verifier.Machine.{
  mark_presentation_request_sent, reject_presentation_proposal, set_presentation_request,
  receive_presentation_proposal, receive_presentation_request_reject, verify_presentation,
}

-- The edges of the protocol's diagram, as the verifier sees it.
infix 40 ◌⟶◌ ◌⟶*◌
pub data ◌⟶◌ : VerifierState → VerifierState → Type 0 where
  stay : {s : VerifierState} → s ⟶ s
  proposed : VerifierState.initial ⟶ VerifierState.presentation_proposal_received
  asks : VerifierState.initial ⟶ VerifierState.presentation_request_set
  answers : VerifierState.presentation_proposal_received ⟶ VerifierState.presentation_request_set
  refuses : VerifierState.presentation_proposal_received ⟶ VerifierState.failed
  sends : VerifierState.presentation_request_set ⟶ VerifierState.presentation_request_sent
  countered : VerifierState.presentation_request_sent ⟶ VerifierState.presentation_proposal_received
  rejected : VerifierState.presentation_request_sent ⟶ VerifierState.failed
  checks : VerifierState.presentation_request_sent ⟶ VerifierState.finished

pub data ◌⟶*◌ : VerifierState → VerifierState → Type 0 where
  here : {s : VerifierState} → s ⟶* s
  next : {s t u : VerifierState} → s ⟶ t → t ⟶* u → s ⟶* u

ruleset edges = (stay, proposed, asks, answers, refuses, sends, countered, rejected, checks)

module _ (R : Runtime) where
  open R use {World}

  pub data VerifierCall : Type 0 where
    propose : ProposePresentationV1 → VerifierCall
    reject_proposal : ProblemReport → VerifierCall
    set_request : PresentationRequest → Option String → VerifierCall
    mark_sent : VerifierCall
    reject_request : ProblemReport → VerifierCall
    verify : PresentationV1 → VerifierCall

  unfoldable pub call : VerifierSm → VerifierCall → Vcx R VerifierSm
  call v (propose p) = receive_presentation_proposal R v p
  call v (reject_proposal r) = lift (reject_presentation_proposal v r)
  call v (set_request d comment) = set_presentation_request R v d comment
  call v mark_sent = lift (mark_presentation_request_sent v)
  call v (reject_request r) = lift (receive_presentation_request_reject R v r)
  call v (verify m) = verify_presentation R v m

  abbrev pub kept : VerifierSm → Result AriesVcxError VerifierSm → VerifierSm
  kept v (ok v') = v'
  kept v (err e) = v

  unfoldable pub run : List VerifierCall → VerifierSm → World → VerifierSm × World
  run [] v w = (v, w)
  run (c ∷ cs) v w = let (r, w') = call v c w in run cs (kept v r) w'

  call-⟶ :
      (v : VerifierSm) (c : VerifierCall) (w : World)
      → get_state v ⟶ get_state (kept v (call v c w).0)
  unfolding call receive_presentation_proposal reject_presentation_proposal set_presentation_request
      mark_presentation_request_sent receive_presentation_request_reject verify_presentation
  call-⟶ v mark_sent w = grind (arith, edges)
  call-⟶ v _ w = grind (arith, edges)

  -- Every sequence of calls follows the diagram of the protocol.
  pub verifier_run-⟶* :
      (cs : List VerifierCall) (v : VerifierSm) (w : World)
      → get_state v ⟶* get_state (run cs v w).0
  unfolding run
  verifier_run-⟶* [] v w = here
  verifier_run-⟶* (c ∷ cs) v w =
      let (r, w') = call v c w in next (call-⟶ v c w) (verifier_run-⟶* cs (kept v r) w')

  call-finished :
      (v : VerifierSm) (c : VerifierCall) (w : World) {s : FinishedState}
      → v.state ≡ finished s
      → (kept v (call v c w).0 ≡ v) × ((call v c w).1 ≡ w)
  unfolding call receive_presentation_proposal reject_presentation_proposal set_presentation_request
      mark_presentation_request_sent receive_presentation_request_reject verify_presentation
      verify_thread_id
  call-finished v c w e = ground arith

  -- A finished exchange is final: no sequence of calls changes the machine or its verdict, and none
  -- reaches the ledger, the clock or the random source.
  pub verifier_run-finished :
      (cs : List VerifierCall) (v : VerifierSm) (w : World) {s : FinishedState}
      → v.state ≡ finished s
      → run cs v w ≡ (v, w)
  unfolding run
  verifier_run-finished [] v w e = refl
  verifier_run-finished (c ∷ cs) v w e =
      let same = call-finished v c w e in rw (same.0, same.1) (verifier_run-finished cs v w e)
