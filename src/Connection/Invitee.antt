-- ===== src/Connection/Invitee.antt =====
-- connection/invitee/mod.rs: the party that is invited.
use Prim.Native.String.{◌++◌}
use instnt_aries_vcx.Base.{
  String, Option, none, some, List, [], ◌∷◌, not, ok_or, map_err, pure, throw, lift, perform,
  Effect, on_result, first, ◌>>=◌, if◌then◌else◌,
}
use instnt_aries_vcx.Errors.{from_msg, invalid_json, invalid_did, invalid_state}
use instnt_aries_vcx.DidDoc.Doc.{
  AriesDidDoc, AriesService, default_doc, default_service, set_id, set_service_endpoint,
  set_routing_keys, set_recipient_keys,
}
use instnt_aries_vcx.DidDoc.Keys.{recipient_keys, from_diddoc}
use instnt_aries_vcx.Messages.Parts.{Thread, Ack, AckStatus, thread_of, timing_of}
use instnt_aries_vcx.Messages.Connection.{public, pairwise_did, pairwise, Request, Response}
use instnt_aries_vcx.Runtime.{Runtime, Vcx, converted}
use instnt_aries_vcx.Util.Thread.{matches_thread_id}
use instnt_aries_vcx.Connection.States.{AnyInvitation, con, oob, PairwiseInfo, as_invitee}
use instnt_aries_vcx.Connection.InviteeStates.{
  Initial, initial, Invited, Requested, Completed, InviteeConnection,
}
use instnt_aries_vcx.Connection.Signing.{decode_signed_connection_response}

unfoldable pub new_invitee : String → PairwiseInfo → InviteeConnection Initial
new_invitee source_id pairwise_info = record {
  source_id = source_id;
  pairwise_info = pairwise_info;
  initiation_type = as_invitee;
  state = initial;
}

abbrev to_state : {S T : Type 0} → InviteeConnection S → T → InviteeConnection T
to_state self state = record {
  source_id = self.source_id;
  pairwise_info = self.pairwise_info;
  initiation_type = as_invitee;
  state = state;
}

abbrev with_parent : String → String → Thread
with_parent thid pthid = record (thread_of thid) { pthid = some pthid }

-- The thread of a request: a pairwise invitation is answered on its own thread, any other on a
-- thread below it.
abbrev request_thread : AnyInvitation → String → Thread
request_thread (oob invite) id = with_parent id invite.id
request_thread (con invite) id = elim invite.content [
  | public _ ↦ with_parent id invite.id
  | pairwise_did _ ↦ thread_of invite.id
  | pairwise _ ↦ thread_of invite.id
]

unfoldable pub get_request : InviteeConnection Requested → Request
get_request self = self.state.request

module _ (R : Runtime) where
  open R use {World}

  -- The document of a service, whose keys stand for its subject.
  abbrev filled : AriesDidDoc → String → List String → List String → AriesDidDoc
  filled did_doc service_endpoint keys routing_keys =
      set_routing_keys
        (set_recipient_keys R.u64_to_string (set_service_endpoint did_doc service_endpoint) keys)
        routing_keys

  abbrev of_service : AriesDidDoc → AriesService → AriesDidDoc
  of_service did_doc service =
      filled did_doc service.service_endpoint service.recipient_keys service.routing_keys

  unfoldable pub any_invitation_into_did_doc : AnyInvitation → Vcx R AriesDidDoc
  any_invitation_into_did_doc (oob invitation) = R.oob_invitation_to_legacy_did_doc invitation
  any_invitation_into_did_doc (con invitation) = elim invitation.content [
    | public content ↦ do
      did ← lift (converted R (R.did_from_str content.did))
      service ← on_result (R.get_service did) pure (λ _. pure default_service)
      pure (of_service (set_id default_doc content.did) service)
    | pairwise content ↦ pure (
        filled (set_id default_doc invitation.id) content.service_endpoint content.recipient_keys
          content.routing_keys)
    | pairwise_did _ ↦ throw (from_msg invalid_did "PairwiseDID invitation not supported yet!")
  ]

  unfoldable pub accept_invitation :
      InviteeConnection Initial → AnyInvitation → Vcx R (InviteeConnection Invited)
  accept_invitation self invitation = do
    did_doc ← any_invitation_into_did_doc invitation
    pure (to_state self (record { did_doc = did_doc; invitation = invitation }))

  unfoldable pub prepare_request :
      InviteeConnection Invited → String → List String → Vcx R (InviteeConnection Requested)
  prepare_request self service_endpoint routing_keys = do
    id ← perform R.new_v4
    now ← perform R.utc_now
    pure (
        to_state self (record {
          did_doc = self.state.did_doc;
          thread_id = (request_thread self.state.invitation id).thid;
          request = record {
            id = id;
            content = record {
              label = self.source_id;
              connection = record {
                did = self.pairwise_info.pw_did;
                did_doc =
                    set_recipient_keys R.u64_to_string
                      (set_routing_keys
                        (set_service_endpoint (set_id default_doc self.pairwise_info.pw_did)
                          service_endpoint)
                        routing_keys)
                      (self.pairwise_info.pw_vk ∷ []);
              };
            };
            decorators = record {
              thread = some (request_thread self.state.invitation id);
              timing = some (timing_of now);
            };
          };
        }))

  -- `none` where the decoding of the signed response panics.
  unfoldable pub handle_response :
      InviteeConnection Requested → Response → Vcx R (Option (InviteeConnection Completed))
  handle_response self response =
      if not (matches_thread_id response.decorators.thread self.state.thread_id)
      then throw (
          from_msg invalid_json (
            "Cannot handle message "
            ++ (R.debug_response response
                ++ (": thread id does not match, expected " ++ R.debug_text self.state.thread_id))))
      else (do
        keys ← lift (map_err from_diddoc (recipient_keys R self.state.did_doc))
        their_vk ← lift (
            ok_or (first keys)
              (from_msg invalid_state "Cannot handle response: remote verkey not found"))
        decoded ← decode_signed_connection_response R response.content their_vk
        pure (elim decoded [
          | none ↦ none
          | some con_data ↦ some (
              to_state self (record {
                did_doc = con_data.did_doc;
                bootstrap_did_doc = self.state.did_doc;
                thread_id = self.state.thread_id;
                protocols = none;
              }))
        ]))

  unfoldable pub get_ack : InviteeConnection Completed → Effect World Ack
  get_ack self w =
      let (id, w₁) = R.new_v4 w in
      let (now, w₂) = R.utc_now w₁ in
      (
        record {
          id = id;
          content = record { status = AckStatus.accepted };
          decorators = record {
            thread = thread_of self.state.thread_id;
            timing = some (timing_of now);
          };
        },
        w₂,
      )
