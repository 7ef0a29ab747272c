-- ===== src/Issuance/Issuer/Run.antt =====
-- An issuer's exchange as a sequence of calls, in any order. A call that fails leaves the machine.
use instnt_aries_vcx.Base.{
  String, ◌≡◌, refl, ◌∙◌, Bool, true, false, Option, Result, ok, err, List, [], ◌∷◌, Ensures, lift,
  arith,
}
use instnt_aries_vcx.Errors.{AriesVcxError}
use instnt_aries_vcx.Messages.Parts.{ProblemReport}
use instnt_aries_vcx.Messages.Issuance.{
  ProposeCredentialV1, RequestCredentialV1, AckCredentialV1, CredentialPreviewV1,
}
use instnt_aries_vcx.Runtime.{Runtime, Vcx}
use instnt_aries_vcx.Issuance.Issuer.States.{
  OfferInfo, IssuerSm, IssuerState, FinishedState, finished, get_state,
}
use instnt_aries_vcx.Issuance.Issuer.Machine.{
  build_credential_offer_msg, receive_proposal, receive_request, build_credential, receive_ack,
  receive_problem_report,
}
use instnt_aries_vcx.Issuance.Issuer.Invariant.{
  IsValid, build_credential_offer_msg-IsValid, receive_proposal-IsValid, receive_request-IsValid,
  build_credential-IsValid, receive_ack-IsValid, receive_problem_report-IsValid,
}

pub data IssuerCall : Type 0 where
  set_offer : String → CredentialPreviewV1 → Option String → OfferInfo → IssuerCall
  proposal : ProposeCredentialV1 → IssuerCall
  request : RequestCredentialV1 → IssuerCall
  build : IssuerCall
  acknowledge : AckCredentialV1 → IssuerCall
  report : ProblemReport → IssuerCall

-- The edges of the protocol's diagram, as the issuer sees it.
infix 40 ◌⟶◌ ◌⟶*◌
pub data ◌⟶◌ : IssuerState → IssuerState → Type 0 where
  stay : {s : IssuerState} → s ⟶ s
  offers : IssuerState.initial ⟶ IssuerState.offer_set
  answers : IssuerState.proposal_received ⟶ IssuerState.offer_set
  proposed : IssuerState.initial ⟶ IssuerState.proposal_received
  countered : IssuerState.offer_set ⟶ IssuerState.proposal_received
  requested : IssuerState.offer_set ⟶ IssuerState.request_received
  issues : IssuerState.request_received ⟶ IssuerState.credential_set
  fails : IssuerState.request_received ⟶ IssuerState.failed
  rejected : IssuerState.offer_set ⟶ IssuerState.failed
  completes : IssuerState.credential_set ⟶ IssuerState.finished

pub data ◌⟶*◌ : IssuerState → IssuerState → Type 0 where
  here : {s : IssuerState} → s ⟶* s
  next : {s t u : IssuerState} → s ⟶ t → t ⟶* u → s ⟶* u

ruleset edges =
    (stay, offers, answers, proposed, countered, requested, issues, fails, rejected, completes)

module _ (R : Runtime) where
  open R use {World}

  unfoldable pub call : IssuerSm → IssuerCall → Vcx R IssuerSm
  call i (set_offer t p c o) = build_credential_offer_msg R i t p c o
  call i (proposal p) = lift (receive_proposal R i p)
  call i (request q) = lift (receive_request R i q)
  call i build = build_credential R i
  call i (acknowledge a) = lift (receive_ack R i a)
  call i (report r) = lift (receive_problem_report R i r)

  abbrev pub kept : IssuerSm → Result AriesVcxError IssuerSm → IssuerSm
  kept i (ok i') = i'
  kept i (err e) = i

  unfoldable pub run : List IssuerCall → IssuerSm → World → IssuerSm × World
  run [] i w = (i, w)
  run (c ∷ cs) i w = let (r, w') = call i c w in run cs (kept i r) w'

  call-IsValid :
      (i : IssuerSm) (c : IssuerCall) (w : World) → IsValid i → Ensures IsValid (call i c w).0
  unfolding call
  call-IsValid i (set_offer t p c o) w v = build_credential_offer_msg-IsValid R i t p c o w
  call-IsValid i (proposal p) w v = receive_proposal-IsValid R i p v
  call-IsValid i (request q) w v = receive_request-IsValid R i q v
  call-IsValid i build w v = build_credential-IsValid R i w v
  call-IsValid i (acknowledge a) w v = receive_ack-IsValid R i a v
  call-IsValid i (report r) w v = receive_problem_report-IsValid R i r v

  kept-IsValid :
      (i : IssuerSm) (r : Result AriesVcxError IssuerSm)
      → IsValid i
      → Ensures IsValid r
      → IsValid (kept i r)
  kept-IsValid i (ok i') v e = e
  kept-IsValid i (err x) v e = v

  -- Whatever is called, in whatever order and with whatever outcome, a valid machine stays valid:
  -- the offer carries the thread as its identifier, the request and the credential stand on the
  -- thread, the credential asks for an acknowledgement, and at the end the revocation information
  -- is there, without a revocation id after a failure.
  pub issuer_run-IsValid :
      (cs : List IssuerCall) (i : IssuerSm) (w : World) → IsValid i → IsValid (run cs i w).0
  unfolding run
  issuer_run-IsValid [] i w v = v
  issuer_run-IsValid (c ∷ cs) i w v =
      let (r, w') = call i c w in
      issuer_run-IsValid cs (kept i r) w' (kept-IsValid i r v (call-IsValid i c w v))

  call-⟶ :
      (i : IssuerSm) (c : IssuerCall) (w : World)
      → Ensures (λ i'. get_state i ⟶ get_state i') (call i c w).0
  unfolding call build_credential_offer_msg receive_proposal receive_request build_credential
      receive_ack receive_problem_report
  call-⟶ i (set_offer t p c o) w = grind (arith, edges)
  call-⟶ i build w = grind (arith, edges)
  call-⟶ i _ w = grind (arith, edges)

  kept-⟶ :
      (i : IssuerSm) (r : Result AriesVcxError IssuerSm)
      → Ensures (λ i'. get_state i ⟶ get_state i') r
      → get_state i ⟶ get_state (kept i r)
  kept-⟶ i (ok i') e = e
  kept-⟶ i (err x) e = stay

  -- Every sequence of calls follows the diagram of the protocol.
  pub issuer_run-⟶* :
      (cs : List IssuerCall) (i : IssuerSm) (w : World) → get_state i ⟶* get_state (run cs i w).0
  unfolding run
  issuer_run-⟶* [] i w = here
  issuer_run-⟶* (c ∷ cs) i w =
      let (r, w') = call i c w in next (kept-⟶ i r (call-⟶ i c w)) (issuer_run-⟶* cs (kept i r) w')

  call-finished :
      (i : IssuerSm) (c : IssuerCall) (w : World) {s : FinishedState}
      → i.state ≡ finished s
      → (kept i (call i c w).0 ≡ i) × ((call i c w).1 ≡ w)
  unfolding call build_credential_offer_msg receive_proposal receive_request build_credential
      receive_ack receive_problem_report
  call-finished i c w e = ground arith

  -- A finished exchange is final: no sequence of calls changes the machine, and none reaches the
  -- wallet, the clock or the random source.
  pub issuer_run-finished :
      (cs : List IssuerCall) (i : IssuerSm) (w : World) {s : FinishedState}
      → i.state ≡ finished s
      → run cs i w ≡ (i, w)
  unfolding run
  issuer_run-finished [] i w e = refl
  issuer_run-finished (c ∷ cs) i w e =
      let same = call-finished i c w e in rw (same.0, same.1) (issuer_run-finished cs i w e)

  abbrev is_initial : IssuerState → Bool
  is_initial IssuerState.initial = true
  is_initial _ = false

  call-thread_id :
      (i : IssuerSm) (c : IssuerCall) (w : World)
      → is_initial (get_state i) ≡ false
      → ((kept i (call i c w).0).thread_id ≡ i.thread_id)
        × (is_initial (get_state (kept i (call i c w).0)) ≡ false)
  unfolding call build_credential_offer_msg receive_proposal receive_request build_credential
      receive_ack receive_problem_report
  call-thread_id i c w e = ground arith

  -- Once it has left the initial state, an exchange keeps its thread whatever is called: only the
  -- proposal that opens it can set the thread.
  pub issuer_thread_id-run :
      (cs : List IssuerCall) (i : IssuerSm) (w : World)
      → is_initial (get_state i) ≡ false
      → (run cs i w).0.thread_id ≡ i.thread_id
  unfolding run
  issuer_thread_id-run [] i w e = refl
  issuer_thread_id-run (c ∷ cs) i w e =
      let (r, w') = call i c w in
      let (same, left) = call-thread_id i c w e in issuer_thread_id-run cs (kept i r) w' left ∙ same
