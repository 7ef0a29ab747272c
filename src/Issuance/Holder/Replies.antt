-- ===== src/Issuance/Holder/Replies.antt =====
-- What `Holder` sends, and what it does with the messages that it is given.
use instnt_aries_vcx.Base.{
  String, ◌≡◌, true, false, none, some, err, Returns, Fails, arith, eq_refl,
}
use instnt_aries_vcx.Errors.{AriesVcxError, invalid_json}
use instnt_aries_vcx.Messages.Issuance.{OfferCredentialV1, offer_credential, CredentialIssuanceV1}
use instnt_aries_vcx.Messages.Aries.{
  AriesMessage, CredentialIssuance, credential_issuance, issuance_v1,
}
use instnt_aries_vcx.Runtime.{Runtime}
use instnt_aries_vcx.Util.Thread.{is_match, matches_thread_id, verify_thread_id}
use instnt_aries_vcx.Issuance.Holder.States.{
  HolderState, OfferReceivedState, offer_received, get_state,
}
use instnt_aries_vcx.Issuance.Holder.Machine
use instnt_aries_vcx.Issuance.Holder.Machine.{receive_offer}
use instnt_aries_vcx.Issuance.Holder.Queries.{get_problem_report}
use instnt_aries_vcx.Issuance.Holder.Invariant.{thread-build_credential_request_msg, IsValid}
use instnt_aries_vcx.Issuance.Holder.Handler.{
  Holder, prepare_credential_request, process_aries_msg, get_final_message,
  get_msg_credential_request, build_credential_ack,
}

module _ (R : Runtime) where
  open R use {World}

  -- A call of `process_aries_msg` that fails leaves the object as it was, whatever the message.
  pub holder_message_error :
      (self : Holder) (msg : AriesMessage) (w : World) {e : AriesVcxError}
      → (process_aries_msg R self msg w).0 ≡ err e
      → (process_aries_msg R self msg w).1 ≡ self
  unfolding process_aries_msg
  holder_message_error self
        (credential_issuance (CredentialIssuance.v1 (CredentialIssuanceV1.offer_credential o))) w
        h =
      ground arith
  holder_message_error self
        (credential_issuance (CredentialIssuance.v1 (CredentialIssuanceV1.issue_credential c))) w
        h =
      ground arith
  holder_message_error self _ w h = ground arith

  -- An offer on another thread is refused, with nothing changed.
  pub offer_other_thread :
      (self : Holder) (o : OfferCredentialV1) (w : World)
      → is_match self.holder_sm.thread_id (issuance_v1 (offer_credential o)) ≡ false
      → let (r, self', w') = process_aries_msg R self (issuance_v1 (offer_credential o)) w in
        (Fails (λ e. e.kind ≡ invalid_json) r) × (self' ≡ self) × (w' ≡ w)
  unfolding process_aries_msg receive_offer verify_thread_id
  offer_other_thread self o w h = ground arith

  -- What `prepare_credential_request` gives to be sent stands on the thread of the exchange, be it
  -- the request or the problem report of a failure.
  pub prepare_reply_thread :
      (self : Holder) (s : OfferReceivedState) (did : String) (w : World)
      → self.holder_sm.state ≡ offer_received s
      → Returns
          (λ msg. is_match self.holder_sm.thread_id msg ≡ true)
          (prepare_credential_request R self did w).0
  unfolding prepare_credential_request Machine.prepare_credential_request get_msg_credential_request
      get_problem_report is_match
  prepare_reply_thread self s did w h = ground (
    arith,
    thread-build_credential_request_msg R self.holder_sm.thread_id did s.offer w,
    eq_refl self.holder_sm.thread_id,
  )

  -- On a valid machine `get_final_message` returns, and it gives a message only after success; the
  -- message stands on the thread of the exchange.
  pub holder_final_message :
      (self : Holder) (w : World)
      → IsValid self.holder_sm
      → Returns
          (λ sent. elim sent [
            | none ↦ Unit {0}
            | some msg ↦
                (get_state self.holder_sm ≡ HolderState.finished)
                × (is_match self.holder_sm.thread_id msg ≡ true)
          ])
          (get_final_message R self w).0
  unfolding get_final_message build_credential_ack is_match matches_thread_id
  holder_final_message self w v = ground (arith, eq_refl self.holder_sm.thread_id)
