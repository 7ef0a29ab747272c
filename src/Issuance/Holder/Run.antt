-- ===== src/Issuance/Holder/Run.antt =====
-- A holder's exchange as a sequence of calls, in any order. A call that fails leaves the machine.
use instnt_aries_vcx.Base.{
  String, ◌≡◌, refl, ◌∙◌, Option, Result, ok, err, List, [], ◌∷◌, Ensures, lift, arith,
}
use instnt_aries_vcx.Errors.{AriesVcxError}
use instnt_aries_vcx.Messages.Parts.{ProblemReport}
use instnt_aries_vcx.Messages.Issuance.{OfferCredentialV1, ProposeCredentialV1, IssueCredentialV1}
use instnt_aries_vcx.Runtime.{Runtime, Vcx}
use instnt_aries_vcx.Issuance.Holder.States.{
  HolderSm, HolderState, FinishedHolderState, finished, get_state,
}
use instnt_aries_vcx.Issuance.Holder.Machine.{
  set_proposal, receive_offer, prepare_credential_request, decline_offer, receive_credential,
  receive_problem_report,
}
use instnt_aries_vcx.Issuance.Holder.Invariant.{
  IsValid, set_proposal-IsValid, receive_offer-IsValid, prepare_credential_request-IsValid,
  decline_offer-IsValid, receive_credential-IsValid, receive_problem_report-IsValid,
}

pub data HolderCall : Type 0 where
  propose : ProposeCredentialV1 → HolderCall
  offer : OfferCredentialV1 → HolderCall
  prepare : String → HolderCall
  decline : Option String → HolderCall
  credential : IssueCredentialV1 → HolderCall
  report : ProblemReport → HolderCall

-- The edges of the protocol's diagram, as the holder sees it.
infix 40 ◌⟶◌
pub data ◌⟶◌ : HolderState → HolderState → Type 0 where
  stay : {s : HolderState} → s ⟶ s
  proposes : HolderState.initial ⟶ HolderState.proposal_set
  counters : HolderState.offer_received ⟶ HolderState.proposal_set
  offered : HolderState.proposal_set ⟶ HolderState.offer_received
  requests : HolderState.offer_received ⟶ HolderState.request_set
  declines : HolderState.offer_received ⟶ HolderState.failed
  completes : HolderState.request_set ⟶ HolderState.finished
  fails : HolderState.request_set ⟶ HolderState.failed
  rejected : HolderState.proposal_set ⟶ HolderState.failed

infix 40 ◌⟶*◌
pub data ◌⟶*◌ : HolderState → HolderState → Type 0 where
  here : {s : HolderState} → s ⟶* s
  next : {s t u : HolderState} → s ⟶ t → t ⟶* u → s ⟶* u

ruleset edges = (stay, proposes, counters, offered, requests, declines, completes, fails, rejected)

module _ (R : Runtime) where
  open R use {World}

  unfoldable pub call : HolderSm → HolderCall → Vcx R HolderSm
  call h (propose p) = lift (set_proposal R h p)
  call h (offer o) = lift (receive_offer R h o)
  call h (prepare did) = prepare_credential_request R h did
  call h (decline c) = decline_offer R h c
  call h (credential c) = receive_credential R h c
  call h (report r) = lift (receive_problem_report R h r)

  abbrev pub kept : HolderSm → Result AriesVcxError HolderSm → HolderSm
  kept h (ok h') = h'
  kept h (err e) = h

  unfoldable pub run : List HolderCall → HolderSm → World → HolderSm × World
  run [] h w = (h, w)
  run (c ∷ cs) h w = let (r, w') = call h c w in run cs (kept h r) w'

  call-IsValid :
      (h : HolderSm) (c : HolderCall) (w : World) → IsValid h → Ensures IsValid (call h c w).0
  unfolding call
  call-IsValid h (propose p) w v = set_proposal-IsValid R h p v
  call-IsValid h (offer o) w v = receive_offer-IsValid R h o v
  call-IsValid h (prepare did) w v = prepare_credential_request-IsValid R h did w v
  call-IsValid h (decline c) w v = decline_offer-IsValid R h c w v
  call-IsValid h (credential c) w v = receive_credential-IsValid R h c w v
  call-IsValid h (report r) w v = receive_problem_report-IsValid R h r v

  kept-IsValid :
      (h : HolderSm) (r : Result AriesVcxError HolderSm)
      → IsValid h
      → Ensures IsValid r
      → IsValid (kept h r)
  kept-IsValid h (ok h') v e = e
  kept-IsValid h (err x) v e = v

  -- Whatever is called, in whatever order and with whatever outcome, a valid machine stays valid:
  -- before the end, the proposal, the offer or the request that it holds belongs to its thread;
  -- at the end it has the credential's id, the credential (of whatever thread) and the answer
  -- whether an acknowledgement is wanted, or a problem report and none of these.
  pub holder_run-IsValid :
      (cs : List HolderCall) (h : HolderSm) (w : World) → IsValid h → IsValid (run cs h w).0
  unfolding run
  holder_run-IsValid [] h w v = v
  holder_run-IsValid (c ∷ cs) h w v =
      let (r, w') = call h c w in
      holder_run-IsValid cs (kept h r) w' (kept-IsValid h r v (call-IsValid h c w v))

  call-⟶ :
      (h : HolderSm) (c : HolderCall) (w : World)
      → Ensures (λ h'. get_state h ⟶ get_state h') (call h c w).0
  unfolding call set_proposal receive_offer prepare_credential_request decline_offer
      receive_credential receive_problem_report
  call-⟶ h (propose p) w = grind (arith, edges)
  call-⟶ h (prepare did) w = grind (arith, edges)
  call-⟶ h _ w = grind (arith, edges)

  call-finished :
      (h : HolderSm) (c : HolderCall) (w : World) {s : FinishedHolderState}
      → h.state ≡ finished s
      → (kept h (call h c w).0 ≡ h) × ((call h c w).1 ≡ w)
  unfolding call set_proposal receive_offer prepare_credential_request decline_offer
      receive_credential receive_problem_report
  call-finished h c w e = ground arith

  -- A finished exchange is final: no sequence of calls changes the machine, and none reaches the
  -- ledger, the wallet, the clock or the random source.
  pub holder_run-finished :
      (cs : List HolderCall) (h : HolderSm) (w : World) {s : FinishedHolderState}
      → h.state ≡ finished s
      → run cs h w ≡ (h, w)
  unfolding run
  holder_run-finished [] h w e = refl
  holder_run-finished (c ∷ cs) h w e =
      let same = call-finished h c w e in rw (same.0, same.1) (holder_run-finished cs h w e)

  call-identity :
      (h : HolderSm) (c : HolderCall) (w : World) → (kept h (call h c w).0).thread_id ≡ h.thread_id
  unfolding call set_proposal receive_offer prepare_credential_request decline_offer
      receive_credential receive_problem_report
  call-identity h c w = ground arith

  -- The thread of an exchange is fixed when the machine is made: no call changes it.
  pub holder_thread_id-run :
      (cs : List HolderCall) (h : HolderSm) (w : World) → (run cs h w).0.thread_id ≡ h.thread_id
  unfolding run
  holder_thread_id-run [] h w = refl
  holder_thread_id-run (c ∷ cs) h w =
      let (r, w') = call h c w in holder_thread_id-run cs (kept h r) w' ∙ call-identity h c w

  kept-⟶ :
      (h : HolderSm) (r : Result AriesVcxError HolderSm)
      → Ensures (λ h'. get_state h ⟶ get_state h') r
      → get_state h ⟶ get_state (kept h r)
  kept-⟶ h (ok h') e = e
  kept-⟶ h (err x) e = stay

  -- Every sequence of calls follows the diagram of the protocol.
  pub holder_run-⟶* :
      (cs : List HolderCall) (h : HolderSm) (w : World) → get_state h ⟶* get_state (run cs h w).0
  unfolding run
  holder_run-⟶* [] h w = here
  holder_run-⟶* (c ∷ cs) h w =
      let (r, w') = call h c w in next (kept-⟶ h r (call-⟶ h c w)) (holder_run-⟶* cs (kept h r) w')
