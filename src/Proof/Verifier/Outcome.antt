-- ===== src/Proof/Verifier/Outcome.antt =====
-- How a verifier's exchange ends, and the message that closes it.
use instnt_aries_vcx.Base.{
  String, ◌≡◌, Bool, ◌&&◌, not, true, false, some, List, ◌∷◌, ok, is_ok, Returns, Ensures, Fails,
  if◌then◌else◌, arith,
}
use instnt_aries_vcx.Errors.{invalid_json}
use instnt_aries_vcx.Messages.Parts.{Thread, Attachment}
use instnt_aries_vcx.Messages.Proof.{
  ProposePresentationV1, PresentationV1, PresentProofV1, presentation,
}
use instnt_aries_vcx.Messages.Aries.{AriesMessage, PresentProof, present_proof, proof_v1}
use instnt_aries_vcx.Proof.Verifier.Check.{validate_indy_proof}
use instnt_aries_vcx.Runtime.{Runtime, Codec}
use instnt_aries_vcx.Util.Thread.{is_match, verify_thread_id, matches_thread_id}
use instnt_aries_vcx.Util.Attach.{make_attach_from_str, get-make_attach}
use instnt_aries_vcx.Proof.Verifier.States.{
  PresentationVerificationStatus, valid, invalid, unavailable, VerifierSm, VerifierState,
  PresentationRequestSentState, presentation_request_sent, get_state,
}
use instnt_aries_vcx.Proof.Verifier.Machine.{
  new, receive_presentation_proposal, check_presentation, verify_presentation,
}
use instnt_aries_vcx.Proof.Verifier.Queries.{
  get_verification_status, get_final_message, get_presentation_msg, presentation_request_msg,
}
use instnt_aries_vcx.Proof.Verifier.Invariant.{IsValid}

abbrev pub is_last : VerifierState → Bool
is_last VerifierState.finished = true
is_last VerifierState.failed = true
is_last _ = false

abbrev pub is_valid : PresentationVerificationStatus → Bool
is_valid valid = true
is_valid _ = false

abbrev is_judged : PresentationVerificationStatus → Bool
is_judged unavailable = false
is_judged _ = true

abbrev is_success : VerifierState → Bool
is_success VerifierState.finished = true
is_success _ = false

abbrev pub is_ack : AriesMessage → Bool
is_ack (present_proof (PresentProof.v1 (PresentProofV1.ack _))) = true
is_ack _ = false

-- On a valid machine the protocol counts as a success exactly when there is a verdict, and the
-- presentation can be taken in exactly the same case; the request can be taken then too.
pub verdict_queries :
    (v : VerifierSm)
    → IsValid v
    → (is_judged (get_verification_status v) ≡ is_success (get_state v))
      × (is_ok (get_presentation_msg v) ≡ is_success (get_state v))
      × ((is_success (get_state v) && not (is_ok (presentation_request_msg v))) ≡ false)
unfolding get_verification_status get_presentation_msg presentation_request_msg
verdict_queries v i = ground arith

module _ (R : Runtime) where
  open R use {World}

  -- On a valid machine there is a closing message exactly at the end of the exchange, and it is an
  -- acknowledgement exactly if the presentation was found valid.
  pub verifier_final_message :
      (v : VerifierSm) (w : World)
      → IsValid v
      → (is_ok (get_final_message R v w).0 ≡ is_last (get_state v))
        × Ensures
            (λ msg. is_ack msg ≡ is_valid (get_verification_status v))
            (get_final_message R v w).0
  unfolding get_final_message get_verification_status
  verifier_final_message v w i = ground arith

  -- A presentation on the thread of the request, where both carry texts that were attached by
  -- `make_attach_from_str` and the library returns a verdict on exactly these two texts: that
  -- verdict is the machine's, and the closing message is an acknowledgement if it is positive and
  -- something else if it is not.
  pub verdict_followed :
      (c : Codec R) (v : VerifierSm) (s : PresentationRequestSentState) (m : PresentationV1)
      (proof request id id' : String) (rest rest' : List Attachment) (b : Bool) (w w' : World)
      → v.state ≡ presentation_request_sent s
      → is_match v.thread_id (proof_v1 (presentation m)) ≡ true
      → m.content.presentations_attach ≡ make_attach_from_str R proof id ∷ rest
      → s.presentation_request.content.request_presentations_attach
        ≡ make_attach_from_str R request id' ∷ rest'
      → validate_indy_proof R proof request w ≡ (ok b, w')
      → Returns
          (λ v'.
            (get_verification_status v' ≡ (if b then valid else invalid))
            × (get_presentation_msg v' ≡ ok m)
            × Returns (λ msg. is_ack msg ≡ b) (get_final_message R v' w').0)
          (verify_presentation R v m w).0
  unfolding verify_presentation check_presentation verify_thread_id is_match get_verification_status
      get_presentation_msg get_final_message
  verdict_followed c v s m proof request id id' rest rest' b w w' at on attached asked judged =
      ground (arith, get-make_attach R c proof id rest, get-make_attach R c request id' rest')

  -- A machine made by `new` refuses a proposal that stands on a thread, unless the id of the thread
  -- or of its parent is the empty text.
  pub new_refuses_thread :
      (source_id : String) (p : ProposePresentationV1) (t : Thread) (w : World)
      → p.decorators.thread ≡ some t
      → matches_thread_id t "" ≡ false
      → Fails (λ e. e.kind ≡ invalid_json) (receive_presentation_proposal R (new source_id) p w).0
  unfolding new receive_presentation_proposal verify_thread_id is_match
  new_refuses_thread source_id p t w at other = ground arith
