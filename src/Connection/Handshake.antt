-- ===== src/Connection/Handshake.antt =====
-- The two parties of a connection together: what one sends, the other takes.
use instnt_aries_vcx.Base.{
  String, ◌≡◌, refl, true, false, Option, none, some, List, [], ◌∷◌, ok, Returns, Ensures, is_ok,
  lift, map_err, pure, perform, next-Ensures, weaken-Ensures, weaken-Returns, const-Ensures, ◌>>=◌,
  ◌==◌, arith, eq_refl,
}
use instnt_aries_vcx.DidDoc.Keys.{from_diddoc, validate, recipient_keys, validate_verkey}
use instnt_aries_vcx.DidDoc.Built.{
  doc_of, AllValid, doc_of-valid, doc_of-recipient_keys, keys_first,
}
use instnt_aries_vcx.Messages.Connection.{
  Invitation, PwInvitationContent, pairwise, Request, Response, ConnectionSignature,
}
use instnt_aries_vcx.Messages.Aries as Aries
use instnt_aries_vcx.Messages.Aries.{AriesMessage}
use instnt_aries_vcx.Messages.Parts.{thread_of, timing_of}
use instnt_aries_vcx.Connection.Signing.{
  sign_connection_response, decode_signed_connection_response,
}
use instnt_aries_vcx.Runtime.{Runtime, Vcx}
use instnt_aries_vcx.Util.Thread.{
  verify_thread_id, is_match, matches_opt_thread_id, matches_thread_id,
}
use instnt_aries_vcx.Connection.States.{con, invitation_id, PairwiseInfo, create}
use instnt_aries_vcx.Connection.InviterStates as InviterStates
use instnt_aries_vcx.Connection.InviterStates.{InviterConnection}
use instnt_aries_vcx.Connection.InviteeStates as InviteeStates
use instnt_aries_vcx.Connection.InviteeStates.{InviteeConnection}
use instnt_aries_vcx.Connection.Inviter.{
  con_data_of, thread_of_request, build_response_content, handle_request, acknowledge_connection,
}
use instnt_aries_vcx.Connection.Invitee.{
  accept_invitation, any_invitation_into_did_doc, prepare_request, handle_response,
}
use instnt_aries_vcx.Connection.Signed.{Signatures, Reads, signed_response_decoded}

module _ (R : Runtime) where
  open R use {World}

  -- A party that accepts a pairwise invitation holds the document of the inviter: the endpoint and
  -- the keys of the invitation, under its id, with the inviter's key as the one recipient key.
  pub pairwise_accepted :
      (c : InviteeConnection InviteeStates.Initial) (invite : Invitation)
      (content : PwInvitationContent String) (key : String) (w : World)
      → invite.content ≡ pairwise content
      → content.recipient_keys ≡ (key ∷ [])
      → is_ok (validate_verkey R key) ≡ true
      → Returns
          (λ c'.
            (c'.state.did_doc
              ≡ doc_of R invite.id content.service_endpoint content.routing_keys key)
            × (recipient_keys R c'.state.did_doc ≡ ok (key ∷ [])))
          (accept_invitation R c (con invite) w).0
  unfolding accept_invitation any_invitation_into_did_doc
  pairwise_accepted c invite content key w form keys valid =
      rw (form, keys, keys_first R invite.id content.service_endpoint content.routing_keys key)
        (
          refl,
          doc_of-recipient_keys R invite.id content.service_endpoint content.routing_keys key valid,
        )

  -- The inviter has taken this request: it keeps its document, goes on with this new identity, and
  -- holds a response on this thread with this signature.
  abbrev pub Takes :
      PairwiseInfo
      → ConnectionSignature
      → Request
      → String
      → InviterConnection InviterStates.Requested
      → Type 0
  Takes info signature request thread_id i' =
      (i'.state.did_doc ≡ request.content.connection.did_doc)
      × (i'.pairwise_info ≡ info)
      × (i'.state.signed_response.content.connection_sig ≡ signature)
      × (i'.state.signed_response.decorators.thread ≡ thread_of thread_id)

  -- The request that an invited party prepares is taken by an inviter whose invitation has the same
  -- id, if the party's DID is not empty, its keys are valid, and the inviter's wallet makes a new
  -- identity and signs its data: the inviter then has the party's document, in which it finds the
  -- party's key, and a response on the thread on which the party waits.
  pub request_fits :
      (c : InviteeConnection InviteeStates.Invited) (i : InviterConnection InviterStates.Invited)
      (endpoint endpoint' : String) (routing routing' : List String) (info : PairwiseInfo)
      (signature : ConnectionSignature) (w w₁ w₂ w₃ : World)
      → invitation_id i.state.invitation ≡ invitation_id c.state.invitation
      → (c.pairwise_info.pw_did == "") ≡ false
      → is_ok (validate_verkey R c.pairwise_info.pw_vk) ≡ true
      → AllValid R routing'
      → create R w₁ ≡ (ok info, w₂)
      → sign_connection_response R i.pairwise_info.pw_vk
          (con_data_of R info endpoint routing)
          (R.new_v4 w₂).1
        ≡ (ok signature, w₃)
      → Returns
          (λ c'.
            (recipient_keys R c'.state.request.content.connection.did_doc
              ≡ ok (c.pairwise_info.pw_vk ∷ []))
            × Returns
                (Takes info signature c'.state.request c'.state.thread_id)
                (handle_request R i c'.state.request endpoint routing w₁).0)
          (prepare_request R c endpoint' routing' w).0
  unfolding prepare_request handle_request build_response_content verify_thread_id is_match
      matches_opt_thread_id matches_thread_id
  request_fits c i endpoint endpoint' routing routing' info signature w w₁ w₂ w₃ same named valid
        all made signed =
      ground (
        arith,
        eq_refl (invitation_id c.state.invitation),
        doc_of-valid R c.pairwise_info.pw_did endpoint' routing' c.pairwise_info.pw_vk valid named
            all,
      )

  module _ (laws : Signatures R) (v : World) (i : InviterConnection InviterStates.Invited)
      (endpoint : String) (routing : List String)
      (reads : (info : PairwiseInfo) → Reads R (con_data_of R info endpoint routing)) where
    -- A response on this thread, in which the data of this new identity are read with the key
    -- that the inviter had.
    abbrev Carries : String → PairwiseInfo → Response → Type 0
    Carries thread_id info response =
        (response.decorators.thread ≡ thread_of thread_id)
        × ((decode_signed_connection_response R response.content i.pairwise_info.pw_vk v).0
            ≡ ok (some (con_data_of R info endpoint routing)))

    response-Carries :
        (thread_id : String) (info : PairwiseInfo) (w : World)
        → Ensures
            (Carries thread_id info)
            (build_response_content R i thread_id info endpoint routing w).0
    unfolding build_response_content
    response-Carries thread_id info w =
        next-Ensures
          (λ s.
            (decode_signed_connection_response R (record { connection_sig = s })
              i.pairwise_info.pw_vk v).0
            ≡ ok (some (con_data_of R info endpoint routing)))
          (Carries thread_id info)
          (sign_connection_response R i.pairwise_info.pw_vk (con_data_of R info endpoint routing))
          (λ con_sig. perform R.utc_now >>= λ now. pure (record {
            id = (R.new_v4 w).0;
            content = record { connection_sig = con_sig };
            decorators = record {
              thread = thread_of thread_id;
              please_ack = none;
              timing = some (timing_of now);
            };
          }))
          (R.new_v4 w).1
          (signed_response_decoded R laws i.pairwise_info.pw_vk
            (con_data_of R info endpoint routing) (reads info) (R.new_v4 w).1 v)
          (λ con_sig w' decoded. (refl, decoded))

    abbrev Responded : Request → InviterConnection InviterStates.Requested → Type 0
    Responded request i' =
        Carries (thread_of_request request) i'.pairwise_info i'.state.signed_response
        × (i'.state.did_doc ≡ request.content.connection.did_doc)

    -- What follows when the request has been accepted.
    abbrev answered : Request → PairwiseInfo → Vcx R (InviterConnection InviterStates.Requested)
    answered request info =
        build_response_content R i (thread_of_request request) info endpoint routing >>= λ content.
        pure (record {
          source_id = i.source_id;
          pairwise_info = info;
          initiation_type = i.initiation_type;
          state = record {
            signed_response = content;
            did_doc = request.content.connection.did_doc;
          };
        })

    answered-Responded :
        (request : Request) (info : PairwiseInfo) (w : World)
        → Ensures (Responded request) (answered request info w).0
    answered-Responded request info w =
        next-Ensures (Carries (thread_of_request request) info) (Responded request)
          (build_response_content R i (thread_of_request request) info endpoint routing)
          (λ content. pure (record {
            source_id = i.source_id;
            pairwise_info = info;
            initiation_type = i.initiation_type;
            state = record {
              signed_response = content;
              did_doc = request.content.connection.did_doc;
            };
          }))
          w (response-Carries (thread_of_request request) info w)
          (λ content w' carries. (carries, refl))

    request-Responded :
        (request : Request) (w : World)
        → Ensures (Responded request) (handle_request R i request endpoint routing w).0
    unfolding handle_request
    request-Responded request w =
        next-Ensures (λ _. Unit {0}) (Responded request)
          (lift (
            verify_thread_id R (invitation_id i.state.invitation)
              (AriesMessage.connection (Aries.Connection.request request))))
          (λ _. lift (map_err from_diddoc (validate R request.content.connection.did_doc)) >>= λ _.
            create R >>= λ info. answered request info)
          w
          (const-Ensures
            (verify_thread_id R (invitation_id i.state.invitation)
              (AriesMessage.connection (Aries.Connection.request request)))
            tt)
          (λ _ w₁ _.
            next-Ensures (λ _. Unit {0}) (Responded request)
              (lift (map_err from_diddoc (validate R request.content.connection.did_doc)))
              (λ _. create R >>= λ info. answered request info) w₁
              (const-Ensures (map_err from_diddoc (validate R request.content.connection.did_doc))
                tt)
              (λ _ w₂ _.
                next-Ensures (λ _. Unit {0}) (Responded request) (create R)
                  (λ info. answered request info) w₂ (const-Ensures (create R w₂).0 tt)
                  (λ info w₃ _. answered-Responded request info w₃)))

  -- The completed connection has the document of the inviter's new identity and the thread on which
  -- the inviter answered, and the inviter ends on the same thread with the document of the request.
  abbrev pub AgreesWith :
      InviterConnection InviterStates.Requested
      → String
      → List String
      → Request
      → AriesMessage
      → Option (InviteeConnection InviteeStates.Completed)
      → Type 0
  AgreesWith i' endpoint routing request msg none = ⊥
  AgreesWith i' endpoint routing request msg (some c') =
      (c'.state.did_doc ≡ doc_of R i'.pairwise_info.pw_did endpoint routing i'.pairwise_info.pw_vk)
      × Returns
          (λ done.
            (done.state.thread_id ≡ c'.state.thread_id)
            × (done.state.did_doc ≡ request.content.connection.did_doc))
          (acknowledge_connection i' msg)

  response_taken :
      (i : InviterConnection InviterStates.Invited) (i' : InviterConnection InviterStates.Requested)
      (c : InviteeConnection InviteeStates.Requested) (endpoint : String)
      (routing rest : List String) (msg : AriesMessage) (v : World)
      → thread_of_request c.state.request ≡ c.state.thread_id
      → recipient_keys R c.state.did_doc ≡ ok (i.pairwise_info.pw_vk ∷ rest)
      → i'.state.signed_response.decorators.thread ≡ thread_of (thread_of_request c.state.request)
      → (decode_signed_connection_response R i'.state.signed_response.content i.pairwise_info.pw_vk
          v).0
        ≡ ok (some (con_data_of R i'.pairwise_info endpoint routing))
      → i'.state.did_doc ≡ c.state.request.content.connection.did_doc
      → Returns
          (AgreesWith i' endpoint routing c.state.request msg)
          (handle_response R c i'.state.signed_response v).0
  unfolding handle_response acknowledge_connection matches_thread_id
  response_taken i i' c endpoint routing rest msg v on keyed thread decoded doc =
      ground (arith, eq_refl c.state.thread_id)

  -- Where an inviter has taken the request of a party that waits on the thread of its request and
  -- knows the inviter's key as the first recipient key, the party takes the response: it completes
  -- the connection with the document of the inviter's new identity, and both end on one thread.
  pub response_completes :
      (laws : Signatures R) (i : InviterConnection InviterStates.Invited)
      (c : InviteeConnection InviteeStates.Requested) (endpoint : String)
      (routing rest : List String) (msg : AriesMessage) (w v : World)
      (reads : (info : PairwiseInfo) → Reads R (con_data_of R info endpoint routing))
      → thread_of_request c.state.request ≡ c.state.thread_id
      → recipient_keys R c.state.did_doc ≡ ok (i.pairwise_info.pw_vk ∷ rest)
      → Ensures
          (λ i'.
            Returns
              (AgreesWith i' endpoint routing c.state.request msg)
              (handle_response R c i'.state.signed_response v).0)
          (handle_request R i c.state.request endpoint routing w).0
  response_completes laws i c endpoint routing rest msg w v reads on keyed =
      weaken-Ensures (Responded laws v i endpoint routing reads c.state.request)
        (λ i'.
          Returns (AgreesWith i' endpoint routing c.state.request msg)
            (handle_response R c i'.state.signed_response v).0)
        (handle_request R i c.state.request endpoint routing w).0
        (request-Responded laws v i endpoint routing reads c.state.request w)
        (λ i' p. response_taken i i' c endpoint routing rest msg v on keyed p.0.0 p.0.1 p.1)

  abbrev Prepared :
      InviteeConnection InviteeStates.Invited → InviteeConnection InviteeStates.Requested → Type 0
  Prepared c c' =
      (thread_of_request c'.state.request ≡ c'.state.thread_id)
      × (c'.state.did_doc ≡ c.state.did_doc)

  prepare_request-Prepared :
      (c : InviteeConnection InviteeStates.Invited) (endpoint : String) (routing : List String)
      (w : World)
      → Returns (Prepared c) (prepare_request R c endpoint routing w).0
  unfolding prepare_request
  prepare_request-Prepared c endpoint routing w = ground arith

  -- What becomes of an invited party that sends its request to this inviter.
  abbrev pub Establishes :
      InviterConnection InviterStates.Invited
      → String × String
      → List String × List String
      → AriesMessage
      → World × World × World
      → InviteeConnection InviteeStates.Invited
      → Type 0
  Establishes i (endpoint, endpoint') (routing, routing') msg (w₂, w₃, v) c =
      Returns
        (λ c'.
          Ensures
            (λ i'.
              Returns (AgreesWith i' endpoint routing c'.state.request msg)
                (handle_response R c' i'.state.signed_response v).0)
            (handle_request R i c'.state.request endpoint routing w₃).0)
        (prepare_request R c endpoint' routing' w₂).0

  -- From a pairwise invitation to the connection: a party that accepts an invitation with the
  -- inviter's key and prepares its request takes every response that the inviter gives to this
  -- request. It completes the connection with the document of the inviter's new identity; the
  -- inviter completes it with the document of the request, and both end on one thread.
  pub connection_established :
      (laws : Signatures R) (i : InviterConnection InviterStates.Invited)
      (c : InviteeConnection InviteeStates.Initial) (invite : Invitation)
      (content : PwInvitationContent String) (endpoint endpoint' : String)
      (routing routing' : List String) (msg : AriesMessage) (w₁ w₂ w₃ v : World)
      (reads : (info : PairwiseInfo) → Reads R (con_data_of R info endpoint routing))
      → invite.content ≡ pairwise content
      → content.recipient_keys ≡ (i.pairwise_info.pw_vk ∷ [])
      → is_ok (validate_verkey R i.pairwise_info.pw_vk) ≡ true
      → Returns
          (Establishes i (endpoint, endpoint') (routing, routing') msg (w₂, w₃, v))
          (accept_invitation R c (con invite) w₁).0
  connection_established laws i c invite content endpoint endpoint' routing routing' msg w₁ w₂ w₃ v
        reads form keys valid =
      weaken-Returns
        (λ c₁.
          (c₁.state.did_doc
            ≡ doc_of R invite.id content.service_endpoint content.routing_keys
                i.pairwise_info.pw_vk)
          × (recipient_keys R c₁.state.did_doc ≡ ok (i.pairwise_info.pw_vk ∷ [])))
        (Establishes i (endpoint, endpoint') (routing, routing') msg (w₂, w₃, v))
        (accept_invitation R c (con invite) w₁).0
        (pairwise_accepted c invite content i.pairwise_info.pw_vk w₁ form keys valid)
        (λ c₁ accepted.
          weaken-Returns (Prepared c₁)
            (λ c₂.
              Ensures
                (λ i'.
                  Returns (AgreesWith i' endpoint routing c₂.state.request msg)
                    (handle_response R c₂ i'.state.signed_response v).0)
                (handle_request R i c₂.state.request endpoint routing w₃).0)
            (prepare_request R c₁ endpoint' routing' w₂).0
            (prepare_request-Prepared c₁ endpoint' routing' w₂)
            (λ c₂ prepared.
              response_completes laws i c₂ endpoint routing [] msg w₃ v reads prepared.0
                (rw prepared.1 accepted.1)))
