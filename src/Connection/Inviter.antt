-- ===== src/Connection/Inviter.antt =====
-- connection/inviter/mod.rs: the party that invites.
use instnt_aries_vcx.Base.{
  String, none, some, List, [], ◌∷◌, ok, map_err, pure, lift, perform, Effect, ◌>>=◌,
}
use instnt_aries_vcx.Errors.{VcxResult}
use instnt_aries_vcx.DidDoc.Doc.{
  default_doc, set_id, set_service_endpoint, set_routing_keys, set_recipient_keys,
}
use instnt_aries_vcx.DidDoc.Keys.{validate, from_diddoc}
use instnt_aries_vcx.Messages.Parts.{thread_of, timing_of}
use instnt_aries_vcx.Messages.Connection.{Invitation, Request, Response, ConnectionData, pairwise}
use instnt_aries_vcx.Messages.Aries as Aries
use instnt_aries_vcx.Messages.Aries.{AriesMessage}
use instnt_aries_vcx.Runtime.{Runtime, Vcx}
use instnt_aries_vcx.Util.Thread.{verify_thread_id}
use instnt_aries_vcx.Connection.States.{
  AnyInvitation, con, invitation_id, PairwiseInfo, create, as_inviter,
}
use instnt_aries_vcx.Connection.InviterStates.{
  Initial, initial, Invited, Requested, Completed, InviterConnection,
}
use instnt_aries_vcx.Connection.Signing.{sign_connection_response}

unfoldable pub new_inviter : String → PairwiseInfo → InviterConnection Initial
new_inviter source_id pairwise_info = record {
  source_id = source_id;
  pairwise_info = pairwise_info;
  initiation_type = as_inviter;
  state = initial;
}

-- The same connection in another state.
abbrev to_state : {S T : Type 0} → InviterConnection S → T → InviterConnection T
to_state self state = record {
  source_id = self.source_id;
  pairwise_info = self.pairwise_info;
  initiation_type = self.initiation_type;
  state = state;
}

abbrev pairwise_invitation : InviterConnection Initial → String → List String → String → Invitation
pairwise_invitation self id routing_keys service_endpoint = record {
  id = id;
  content = pairwise (record {
    label = self.source_id;
    recipient_keys = self.pairwise_info.pw_vk ∷ [];
    routing_keys = routing_keys;
    service_endpoint = service_endpoint;
  });
  decorators = record { timing = none };
}

unfoldable pub into_invited : InviterConnection Initial → String → InviterConnection Invited
into_invited self thread_id = to_state self (record {
  invitation = con (pairwise_invitation self thread_id [] "https://dummy.dummy/dummy");
})

unfoldable pub get_invitation : InviterConnection Invited → AnyInvitation
get_invitation self = self.state.invitation

-- The thread of a request, or else its id.
abbrev pub thread_of_request : Request → String
thread_of_request request = elim request.decorators.thread [ some t ↦ t.thid | none ↦ request.id ]

unfoldable pub get_connection_response_msg : InviterConnection Requested → Response
get_connection_response_msg self = self.state.signed_response

unfoldable pub acknowledge_connection :
    InviterConnection Requested → AriesMessage → VcxResult (InviterConnection Completed)
acknowledge_connection self msg = ok (
    to_state self (record {
      did_doc = self.state.did_doc;
      thread_id = self.state.signed_response.decorators.thread.thid;
      protocols = none;
    }))

module _ (R : Runtime) where
  open R use {World}

  unfoldable pub create_invitation :
      InviterConnection Initial → List String → String → Effect World (InviterConnection Invited)
  create_invitation self routing_keys service_endpoint w =
      let (id, w') = R.new_v4 w in
      (
        to_state self (record {
          invitation = con (pairwise_invitation self id routing_keys service_endpoint);
        }),
        w',
      )

  -- The connection data of a new pairwise identity.
  abbrev pub con_data_of : PairwiseInfo → String → List String → ConnectionData
  con_data_of info service_endpoint routing_keys = record {
    did = info.pw_did;
    did_doc =
        set_recipient_keys R.u64_to_string
          (set_routing_keys (set_service_endpoint (set_id default_doc info.pw_did) service_endpoint)
            routing_keys)
          (info.pw_vk ∷ []);
  }

  unfoldable pub build_response_content :
      InviterConnection Invited → String → PairwiseInfo → String → List String → Vcx R Response
  build_response_content self thread_id info service_endpoint routing_keys = do
    id ← perform R.new_v4
    con_sig ←
        sign_connection_response R self.pairwise_info.pw_vk
          (con_data_of info service_endpoint routing_keys)
    now ← perform R.utc_now
    pure (record {
      id = id;
      content = record { connection_sig = con_sig };
      decorators = record {
        thread = thread_of thread_id;
        please_ack = none;
        timing = some (timing_of now);
      };
    })

  unfoldable pub handle_request :
      InviterConnection Invited
      → Request
      → String
      → List String
      → Vcx R (InviterConnection Requested)
  handle_request self request service_endpoint routing_keys = do
    _ ← lift (
        verify_thread_id R (invitation_id self.state.invitation)
          (AriesMessage.connection (Aries.Connection.request request)))
    _ ← lift (map_err from_diddoc (validate R request.content.connection.did_doc))
    new_pairwise_info ← create R
    content ←
        build_response_content self (thread_of_request request) new_pairwise_info service_endpoint
          routing_keys
    pure (record {
      source_id = self.source_id;
      pairwise_info = new_pairwise_info;
      initiation_type = self.initiation_type;
      state = record { signed_response = content; did_doc = request.content.connection.did_doc };
    })
