-- ===== src/Issuance/Exchange.antt =====
-- The two machines together: what one party sends, the other party takes.
use instnt_aries_vcx.Base.{
  String, Bool, false, ◌≡◌, Option, none, some, ok, Returns, arith, eq_refl, is_ok, true, [],
}
use instnt_aries_vcx.Messages.Parts.{ProblemReport}
use instnt_aries_vcx.Messages.Issuance.{
  IssueCredentialV1, CredentialPreviewV1, RequestCredentialV1, ack,
}
use instnt_aries_vcx.Messages.Aries.{issuance_v1}
use instnt_aries_vcx.Runtime.{Runtime, Codec}
use instnt_aries_vcx.Util.Report.{Status}
use instnt_aries_vcx.Util.Thread.{is_match, verify_thread_id, matches_thread_id}
use instnt_aries_vcx.Util.Attach.{AttachmentId, as_ref, get_attach_as_string, get-make_attach}
use instnt_aries_vcx.Issuance.Holder.States as HolderStates
use instnt_aries_vcx.Issuance.Holder.States.{HolderSm, HolderState, HolderFullState}
use instnt_aries_vcx.Issuance.Holder.Machine.{
  from_offer, prepare_credential_request, decline_offer, receive_credential,
}
use instnt_aries_vcx.Issuance.Holder.Queries.{get_problem_report}
use instnt_aries_vcx.Issuance.Holder.Invariant.{thread-build_credential_request_msg}
use instnt_aries_vcx.Issuance.Holder.Handler.{get_final_message, build_credential_ack}
use instnt_aries_vcx.Issuance.Issuer.States.{
  IssuerSm, IssuerState, OfferInfo, OfferSetState, CredentialSetState, offer_set, request_received,
  credential_set, finished, FinishedState, RequestReceivedState, get_state,
}
use instnt_aries_vcx.Issuance.Issuer.Credential.{build_credential_offer}
use instnt_aries_vcx.Issuance.Issuer.Machine.{
  build_credential_offer_msg, receive_request, receive_ack, receive_problem_report,
}
use instnt_aries_vcx.Issuance.Issuer.Queries.{get_msg_issue_credential}
use instnt_aries_vcx.Issuance.Issuer.Invariant.{IsValid}

-- The states in which an offer can be set.
abbrev can_offer : IssuerState → Bool
can_offer IssuerState.initial = true
can_offer IssuerState.offer_set = true
can_offer IssuerState.proposal_received = true
can_offer _ = false

-- What the issuer has once a request is in: the request, and the whole of what it had offered.
abbrev pub kept_offer : OfferSetState → RequestCredentialV1 → RequestReceivedState
kept_offer s q = record {
  offer = s.offer;
  cred_data = s.credential_json;
  rev_reg_id = s.rev_reg_id;
  tails_file = s.tails_file;
  request = q;
}

-- The end of an exchange whose offer was declined: failed with the report, with no credential, and
-- with the registry and the tails file of the offer but no revocation id.
abbrev pub refused_offer : OfferSetState → ProblemReport → FinishedState
refused_offer s r = record {
  cred_id = none;
  revocation_info_v1 =
      some (record { cred_rev_id = none; rev_reg_id = s.rev_reg_id; tails_file = s.tails_file });
  status = Status.failed r;
}

module _ (R : Runtime) where
  open R use {World}

  -- The answer of a holder that took the issuer's offer: the request of the state it has reached.
  abbrev pub IsTaken : IssuerSm → OfferSetState → HolderSm → HolderFullState → Type 0
  IsTaken i s h (HolderFullState.request_set q) =
      (h.thread_id ≡ i.thread_id)
      × (receive_request R i q.msg_credential_request
          ≡ ok (record i { state = request_received (kept_offer s q.msg_credential_request) }))
  IsTaken i s h (HolderFullState.finished e) = HolderStates.get_state h ≡ HolderState.failed
  IsTaken i s h _ = ⊥

  -- A holder made from the offer that a valid issuer has set works on the issuer's thread. When it
  -- prepares its request it either fails, or the issuer takes the request that it holds, and then
  -- has it with the offer, the credential data, the registry and the tails file it had set.
  pub request_accepted :
      (i : IssuerSm) (s : OfferSetState) (source_id did : String) (w : World)
      → IsValid i
      → i.state ≡ offer_set s
      → Returns
          (λ h. IsTaken i s h h.state)
          (prepare_credential_request R (from_offer s.offer source_id) did w).0
  unfolding prepare_credential_request from_offer receive_request verify_thread_id is_match
  request_accepted i s source_id did w v at =
      ground
        (arith, thread-build_credential_request_msg R s.offer.id did s.offer w, eq_refl i.thread_id)

  -- In the states that allow an offer, the offer that the issuer sets has the thread for its id and
  -- carries the given text, so that the holder reads it, and the state keeps the offer's data.
  pub offer_text :
      (c : Codec R) (i : IssuerSm) (text : String) (p : CredentialPreviewV1) (n : Option String)
      (info : OfferInfo) (w : World)
      → can_offer (get_state i) ≡ true
      → Returns
          (λ i'. elim i'.state [
            | offer_set s ↦
                (s.offer.id ≡ i.thread_id)
                × (get_attach_as_string R s.offer.content.offers_attach ≡ ok text)
                × (s.credential_json ≡ info.credential_json)
                × (s.rev_reg_id ≡ info.rev_reg_id)
            | _ ↦ ⊥
          ])
          (build_credential_offer_msg R i text p n info w).0
  unfolding build_credential_offer_msg build_credential_offer
  offer_text c i text p n info w may =
      ground (arith, get-make_attach R c text (as_ref AttachmentId.credential_offer) [])

  -- A holder that declines the offer that a valid issuer has set sends a report that the issuer
  -- takes: the exchange fails on both sides, on the issuer's with the same report, with no credential
  -- and no revocation id, and with the registry and the tails file of the offer.
  pub decline_reaches_issuer :
      (i : IssuerSm) (s : OfferSetState) (source_id : String) (comment : Option String) (w : World)
      → IsValid i
      → i.state ≡ offer_set s
      → Returns
          (λ h.
            Returns
              (λ r.
                receive_problem_report R i r
                ≡ ok (record i { state = finished (refused_offer s r) }))
              (get_problem_report h)
            × (is_ok (get_problem_report h) ≡ true)
            × (HolderStates.get_state h ≡ HolderState.failed))
          (decline_offer R (from_offer s.offer source_id) comment w).0
  unfolding decline_offer from_offer get_problem_report receive_problem_report verify_thread_id
      is_match matches_thread_id
  decline_reaches_issuer i s source_id comment w v at = ground (arith, eq_refl i.thread_id)

  -- A valid issuer that has set a credential, and a holder on its thread that waits for one and is
  -- given the issuer's message: if the holder's exchange then is a success, the holder has an
  -- acknowledgement to send, and with it the issuer's exchange ends in success too.
  pub credential_acknowledged :
      (i : IssuerSm) (s : CredentialSetState) (h h' : HolderSm) (q : HolderStates.RequestSetState)
      (msg : IssueCredentialV1) (w w₁ w₂ : World)
      → IsValid i
      → i.state ≡ credential_set s
      → h.state ≡ HolderFullState.request_set q
      → h.thread_id ≡ i.thread_id
      → get_msg_issue_credential R i w ≡ (ok msg, w₁)
      → receive_credential R h msg w₁ ≡ (ok h', w₂)
      → HolderStates.get_state h' ≡ HolderState.finished
      → let a = (build_credential_ack R i.thread_id w₂).0 in
        ((get_final_message R (record { holder_sm = h' }) w₂).0 ≡ ok (some (issuance_v1 (ack a))))
        × Returns (λ i'. get_state i' ≡ IssuerState.finished) (receive_ack R i a)
        × (is_ok (receive_ack R i a) ≡ true)
  unfolding get_msg_issue_credential receive_credential get_final_message build_credential_ack
      receive_ack verify_thread_id is_match
  credential_acknowledged i s h h' q msg w w₁ w₂ v at asked same sent stored done =
      ground (arith, eq_refl i.thread_id)
