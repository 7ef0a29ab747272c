-- ===== src/Util/Thread.antt =====
-- `matches_thread_id!`, `matches_opt_thread_id!` and `verify_thread_id` of
-- aries/aries_vcx/src/handlers/util.rs.
use Prim.Native.String.{◌++◌}
use instnt_aries_vcx.Base.{
  String, Bool, true, not, ◌||◌, Option, none, some, ok, ◌==◌, holds_text, if◌then◌else◌,
}
use instnt_aries_vcx.Errors.{VcxResult, fail, invalid_json}
use instnt_aries_vcx.Messages.Parts.{Thread}
use instnt_aries_vcx.Messages.Issuance.{CredentialIssuanceV1}
use instnt_aries_vcx.Messages.Proof.{PresentProofV1}
use instnt_aries_vcx.Messages.Aries.{
  AriesMessage, Connection, Revocation, CredentialIssuance, CredentialIssuanceV2, PresentProof,
  PresentProofV2, TrustPing, DiscoverFeatures, OutOfBand, Notification, Pickup, CoordinateMediation,
  DidExchange, DidExchangeV10, DidExchangeV11,
}
use instnt_aries_vcx.Runtime.{Runtime}

unfoldable pub matches_thread_id : Thread → String → Bool
matches_thread_id t id = t.thid == id || holds_text t.pthid id

unfoldable pub matches_opt_thread_id : Option Thread → String → Bool
unfolding matches_thread_id
matches_opt_thread_id (some t) id = matches_thread_id t id
matches_opt_thread_id none id = true

-- The `match` of `verify_thread_id`.
unfoldable pub is_match : String → AriesMessage → Bool
unfolding matches_opt_thread_id
is_match id (AriesMessage.basic_message m) = matches_opt_thread_id m.decorators.thread id
is_match id (AriesMessage.connection (Connection.invitation m)) = m.id == id
is_match id (AriesMessage.connection (Connection.problem_report m)) =
    matches_thread_id m.decorators.thread id
is_match id (AriesMessage.connection (Connection.request m)) =
    matches_opt_thread_id m.decorators.thread id
is_match id (AriesMessage.connection (Connection.response m)) =
    matches_thread_id m.decorators.thread id
is_match id
      (AriesMessage.credential_issuance (CredentialIssuance.v1 (CredentialIssuanceV1.ack m))) =
    matches_thread_id m.decorators.thread id
is_match id
      (AriesMessage.credential_issuance
        (CredentialIssuance.v1 (CredentialIssuanceV1.issue_credential m))) =
    matches_thread_id m.decorators.thread id
is_match id
      (AriesMessage.credential_issuance
        (CredentialIssuance.v1 (CredentialIssuanceV1.offer_credential m))) =
    matches_opt_thread_id m.decorators.thread id
is_match id
      (AriesMessage.credential_issuance
        (CredentialIssuance.v1 (CredentialIssuanceV1.propose_credential m))) =
    matches_opt_thread_id m.decorators.thread id
is_match id
      (AriesMessage.credential_issuance
        (CredentialIssuance.v1 (CredentialIssuanceV1.request_credential m))) =
    matches_opt_thread_id m.decorators.thread id
is_match id
      (AriesMessage.credential_issuance
        (CredentialIssuance.v1 (CredentialIssuanceV1.problem_report m))) =
    matches_opt_thread_id m.decorators.thread id
is_match id
      (AriesMessage.credential_issuance (CredentialIssuance.v2 (CredentialIssuanceV2.ack m))) =
    matches_thread_id m.decorators.thread id
is_match id
      (AriesMessage.credential_issuance
        (CredentialIssuance.v2 (CredentialIssuanceV2.issue_credential m))) =
    matches_thread_id m.decorators.thread id
is_match id
      (AriesMessage.credential_issuance
        (CredentialIssuance.v2 (CredentialIssuanceV2.offer_credential m))) =
    matches_opt_thread_id m.decorators.thread id
is_match id
      (AriesMessage.credential_issuance
        (CredentialIssuance.v2 (CredentialIssuanceV2.propose_credential m))) =
    matches_opt_thread_id m.decorators.thread id
is_match id
      (AriesMessage.credential_issuance
        (CredentialIssuance.v2 (CredentialIssuanceV2.request_credential m))) =
    matches_opt_thread_id m.decorators.thread id
is_match id
      (AriesMessage.credential_issuance
        (CredentialIssuance.v2 (CredentialIssuanceV2.problem_report m))) =
    matches_opt_thread_id m.decorators.thread id
is_match id (AriesMessage.discover_features (DiscoverFeatures.query m)) = m.id == id
is_match id (AriesMessage.discover_features (DiscoverFeatures.disclose m)) =
    matches_thread_id m.decorators.thread id
is_match id (AriesMessage.notification (Notification.ack m)) =
    matches_thread_id m.decorators.thread id
is_match id (AriesMessage.notification (Notification.problem_report m)) =
    matches_opt_thread_id m.decorators.thread id
is_match id (AriesMessage.out_of_band (OutOfBand.invitation m)) = m.id == id
is_match id (AriesMessage.out_of_band (OutOfBand.handshake_reuse m)) =
    matches_thread_id m.decorators.thread id
is_match id (AriesMessage.out_of_band (OutOfBand.handshake_reuse_accepted m)) =
    matches_thread_id m.decorators.thread id
is_match id (AriesMessage.present_proof (PresentProof.v1 (PresentProofV1.ack m))) =
    matches_thread_id m.decorators.thread id
is_match id (AriesMessage.present_proof (PresentProof.v1 (PresentProofV1.presentation m))) =
    matches_thread_id m.decorators.thread id
is_match id (AriesMessage.present_proof (PresentProof.v1 (PresentProofV1.propose_presentation m))) =
    matches_opt_thread_id m.decorators.thread id
is_match id (AriesMessage.present_proof (PresentProof.v1 (PresentProofV1.request_presentation m))) =
    matches_opt_thread_id m.decorators.thread id
is_match id (AriesMessage.present_proof (PresentProof.v1 (PresentProofV1.problem_report m))) =
    matches_opt_thread_id m.decorators.thread id
is_match id (AriesMessage.present_proof (PresentProof.v2 (PresentProofV2.ack m))) =
    matches_thread_id m.decorators.thread id
is_match id (AriesMessage.present_proof (PresentProof.v2 (PresentProofV2.presentation m))) =
    matches_thread_id m.decorators.thread id
is_match id (AriesMessage.present_proof (PresentProof.v2 (PresentProofV2.propose_presentation m))) =
    matches_opt_thread_id m.decorators.thread id
is_match id (AriesMessage.present_proof (PresentProof.v2 (PresentProofV2.request_presentation m))) =
    matches_opt_thread_id m.decorators.thread id
is_match id (AriesMessage.present_proof (PresentProof.v2 (PresentProofV2.problem_report m))) =
    matches_opt_thread_id m.decorators.thread id
is_match id (AriesMessage.report_problem m) = matches_opt_thread_id m.decorators.thread id
is_match id (AriesMessage.revocation (Revocation.revoke m)) =
    matches_opt_thread_id m.decorators.thread id
is_match id (AriesMessage.revocation (Revocation.ack m)) = matches_thread_id m.decorators.thread id
is_match id (AriesMessage.routing m) = m.id == id
is_match id (AriesMessage.trust_ping (TrustPing.ping m)) =
    matches_opt_thread_id m.decorators.thread id
is_match id (AriesMessage.trust_ping (TrustPing.ping_response m)) =
    matches_thread_id m.decorators.thread id
is_match id (AriesMessage.pickup (Pickup.status m)) = matches_opt_thread_id m.decorators.thread id
is_match id (AriesMessage.pickup (Pickup.status_request m)) =
    matches_opt_thread_id m.decorators.thread id
is_match id (AriesMessage.pickup (Pickup.delivery m)) = matches_opt_thread_id m.decorators.thread id
is_match id (AriesMessage.pickup (Pickup.delivery_request m)) =
    matches_opt_thread_id m.decorators.thread id
is_match id (AriesMessage.pickup (Pickup.messages_received m)) =
    matches_opt_thread_id m.decorators.thread id
is_match id (AriesMessage.pickup (Pickup.live_delivery_change m)) =
    matches_opt_thread_id m.decorators.thread id
is_match id (AriesMessage.coordinate_mediation (CoordinateMediation.mediate_request m)) = m.id == id
is_match id (AriesMessage.coordinate_mediation (CoordinateMediation.mediate_deny m)) =
    matches_opt_thread_id m.decorators.thread id
is_match id (AriesMessage.coordinate_mediation (CoordinateMediation.mediate_grant m)) =
    matches_opt_thread_id m.decorators.thread id
is_match id (AriesMessage.coordinate_mediation (CoordinateMediation.keylist_update m)) = m.id == id
is_match id (AriesMessage.coordinate_mediation (CoordinateMediation.keylist_update_response m)) =
    matches_opt_thread_id m.decorators.thread id
is_match id (AriesMessage.coordinate_mediation (CoordinateMediation.keylist_query m)) = m.id == id
is_match id (AriesMessage.coordinate_mediation (CoordinateMediation.keylist m)) =
    matches_opt_thread_id m.decorators.thread id
is_match id (AriesMessage.did_exchange (DidExchange.v1_0 (DidExchangeV10.request m))) =
    matches_opt_thread_id m.decorators.thread id
is_match id (AriesMessage.did_exchange (DidExchange.v1_0 (DidExchangeV10.response m))) =
    matches_thread_id m.decorators.thread id
is_match id (AriesMessage.did_exchange (DidExchange.v1_0 (DidExchangeV10.complete m))) =
    matches_thread_id m.decorators.thread id
is_match id (AriesMessage.did_exchange (DidExchange.v1_0 (DidExchangeV10.problem_report m))) =
    matches_thread_id m.decorators.thread id
is_match id (AriesMessage.did_exchange (DidExchange.v1_1 (DidExchangeV11.request m))) =
    matches_opt_thread_id m.decorators.thread id
is_match id (AriesMessage.did_exchange (DidExchange.v1_1 (DidExchangeV11.response m))) =
    matches_thread_id m.decorators.thread id
is_match id (AriesMessage.did_exchange (DidExchange.v1_1 (DidExchangeV11.complete m))) =
    matches_thread_id m.decorators.thread id
is_match id (AriesMessage.did_exchange (DidExchange.v1_1 (DidExchangeV11.problem_report m))) =
    matches_thread_id m.decorators.thread id

module _ (R : Runtime) where
  open R use {debug_message, debug_text}

  unfoldable pub verify_thread_id : String → AriesMessage → VcxResult (Unit {0})
  verify_thread_id thread_id message =
      if not (is_match thread_id message)
      then fail invalid_json (
          "Cannot handle message "
          ++ (debug_message message
              ++ (": thread id does not match, expected " ++ debug_text thread_id)))
      else ok tt
