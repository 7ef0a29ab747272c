-- ===== src/Samples/Connection.antt =====
-- The theorems on connections and on their documents, at concrete ones.
use instnt_aries_vcx.Base.{String, ◌≡◌, refl, true, none, some, [], ◌∷◌, ok, Returns, Ensures}
use instnt_aries_vcx.DidDoc.Keys.{validate, recipient_keys, validate_verkey}
use instnt_aries_vcx.DidDoc.Built.{doc_of, doc_of-valid}
use instnt_aries_vcx.Messages.Parts.{thread_of}
use instnt_aries_vcx.Messages.Connection.{
  Invitation, PwInvitationContent, pairwise, Request, ConnectionSignature,
}
use instnt_aries_vcx.Messages.Aries as Aries
use instnt_aries_vcx.Messages.Aries.{AriesMessage}
use instnt_aries_vcx.Connection.States.{con, create, PairwiseInfo, as_inviter, as_invitee}
use instnt_aries_vcx.Connection.InviterStates as InviterStates
use instnt_aries_vcx.Connection.InviterStates.{InviterConnection}
use instnt_aries_vcx.Connection.InviteeStates as InviteeStates
use instnt_aries_vcx.Connection.InviteeStates.{InviteeConnection}
use instnt_aries_vcx.Connection.Signing.{
  from_index, get_signature_data, sign_connection_response, decode_signed_connection_response,
}
use instnt_aries_vcx.Connection.Inviter.{handle_request}
use instnt_aries_vcx.Connection.Invitee.{accept_invitation, prepare_request}
use instnt_aries_vcx.Connection.Signed.{Signatures, is_signed_by, AreSigned, response_authentic}
use instnt_aries_vcx.Connection.Handshake.{Establishes, Takes, connection_established, request_fits}
use instnt_aries_vcx.Samples.Unary.{encode, decode-encode}
use instnt_aries_vcx.Samples.Decode.{as_bytes}
use instnt_aries_vcx.Samples.Texts.{to_text, party, party-read}
use instnt_aries_vcx.Samples.World.{sample}

doc_of-valid_example :
    (validate sample (doc_of sample "n" "e" [] "key") ≡ ok tt)
    × (recipient_keys sample (doc_of sample "n" "e" [] "key") ≡ ok ("key" ∷ []))
unfolding validate_verkey
doc_of-valid_example = doc_of-valid sample "n" "e" [] "key" refl refl tt

sample-Signatures : Signatures sample
unfolding from_index
sample-Signatures = record {
  url_decode-encode = λ bytes. rw (decode-encode bytes) refl;
  eight_bytes = λ n bytes. refl;
  verify-sign = λ k bytes signature w w' v h. refl;
}

abbrev alice : PairwiseInfo
alice = record { pw_did = "m"; pw_vk = "key_m" }

abbrev carol : PairwiseInfo
carol = record { pw_did = "n"; pw_vk = "key_n" }

abbrev bob : PairwiseInfo
bob = record { pw_did = "o"; pw_vk = "key_o" }

abbrev content : PwInvitationContent String
content = record {
  label = "a";
  recipient_keys = "key_m" ∷ [];
  routing_keys = [];
  service_endpoint = "e";
}

abbrev invite : Invitation
invite = record { id = "t"; content = pairwise content; decorators = record { timing = none } }

abbrev inviting : InviterConnection InviterStates.Invited
inviting = record {
  source_id = "a";
  pairwise_info = alice;
  initiation_type = as_inviter;
  state = record { invitation = con invite };
}

abbrev invited : InviteeConnection InviteeStates.Invited
invited = record {
  source_id = "b";
  pairwise_info = bob;
  initiation_type = as_invitee;
  state = record { did_doc = doc_of sample "t" "e" [] "key_m"; invitation = con invite };
}

-- What `inviting` signs of its new identity at the world 1, the counter of identifiers.
abbrev first_signature : ConnectionSignature
first_signature =
    let bytes = 0 ∷ 0 ∷ 0 ∷ 0 ∷ 0 ∷ 0 ∷ 0 ∷ 0 ∷ as_bytes (to_text (party "n" "key_n")) in
    record { signature = encode bytes; sig_data = encode bytes; signer = "key_m" }

request_fits_example :
    Returns
      (λ c'.
        (recipient_keys sample c'.state.request.content.connection.did_doc ≡ ok ("key_o" ∷ []))
        × Returns
            (Takes sample carol first_signature c'.state.request c'.state.thread_id)
            (handle_request sample inviting c'.state.request "e" [] 0).0)
      (prepare_request sample invited "e" [] 0).0
unfolding validate_verkey create sign_connection_response get_signature_data
request_fits_example =
    request_fits sample invited inviting "e" "e" [] [] carol first_signature 0 0 0 1 refl refl refl
      tt refl refl

abbrev asked : Request
asked = record {
  id = "i";
  content = record {
    label = "b";
    connection = record { did = "o"; did_doc = doc_of sample "o" "e" [] "key_o" };
  };
  decorators = record { thread = some (thread_of "t"); timing = none };
}

abbrev message : AriesMessage
message = AriesMessage.connection (Aries.Connection.request asked)

abbrev starting : InviteeConnection InviteeStates.Initial
starting = record {
  source_id = "b";
  pairwise_info = bob;
  initiation_type = as_invitee;
  state = InviteeStates.initial;
}

connection_established_example :
    Returns
      (Establishes sample inviting ("e", "e") ([], []) message (0, 0, 0))
      (accept_invitation sample starting (con invite) 0).0
unfolding validate_verkey
connection_established_example =
    connection_established sample sample-Signatures inviting starting invite content "e" "e" [] []
      message 0 0 0 0 (λ info. party-read info.pw_did info.pw_vk) refl refl refl

abbrev signature : ConnectionSignature
signature = record {
  signature = encode [];
  sig_data = encode (0 ∷ 0 ∷ 0 ∷ 0 ∷ 0 ∷ 0 ∷ 0 ∷ 0 ∷ as_bytes (to_text (party "m" "key_m")));
  signer = "key_m";
}

response_authentic_example :
    Ensures
      (λ d. (is_signed_by sample signature "key_m" 0 ≡ true) × AreSigned sample signature d)
      (decode_signed_connection_response sample (record { connection_sig = signature }) "key_m" 0).0
response_authentic_example =
    response_authentic sample (record { connection_sig = signature }) "key_m" 0
