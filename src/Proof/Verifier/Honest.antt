-- ===== src/Proof/Verifier/Honest.antt =====
-- The attributes under `revealed_attrs` of a presentation, and what a verifier makes of one in which
-- the encoded value of such an attribute is not the encoding of its raw value. The attributes under
-- `revealed_attr_groups`, which the code does not look at, are not meant.
use instnt_aries_vcx.Base.{
  String, ◌≡◌, refl, Bool, true, false, ◌&&◌, Option, none, some, List, [], ◌∷◌, ok, err, Returns,
  Ensures, Fails, Map, and_then, lift, next-Ensures, const-Ensures, ◌==◌, arith,
}
use instnt_aries_vcx.Errors.{VcxResult, invalid_proof}
use instnt_aries_vcx.Messages.Parts.{Attachment}
use instnt_aries_vcx.Messages.Proof.{PresentationV1, presentation}
use instnt_aries_vcx.Messages.Aries.{proof_v1}
use instnt_aries_vcx.Runtime.{Runtime, Codec}
use instnt_aries_vcx.Issuance.Encoding.{encode}
use instnt_aries_vcx.Util.Thread.{is_match, verify_thread_id}
use instnt_aries_vcx.Util.Attach.{make_attach_from_str, get-make_attach}
use instnt_aries_vcx.Proof.Verifier.Check.{
  parsed_proof, revealed_attrs_of, check_revealed, check_all_revealed,
  validate_proof_revealed_attributes, validate_indy_proof, judge,
}
use instnt_aries_vcx.Proof.Verifier.States.{
  invalid, VerifierSm, PresentationRequestSentState, presentation_request_sent,
}
use instnt_aries_vcx.Proof.Verifier.Machine.{check_presentation, verify_presentation}
use instnt_aries_vcx.Proof.Verifier.Queries.{get_verification_status, get_final_message}
use instnt_aries_vcx.Proof.Verifier.Outcome.{is_ack}

abbrev same_text : VcxResult String → String → Bool
same_text (ok t) u = t == u
same_text (err _) u = false

module _ (R : Runtime) where
  open R use {World, Value}

  abbrev encodes : Option String → Option String → Bool
  encodes (some raw) (some encoded) = same_text (encode R raw) encoded
  encodes _ _ = false

  -- The attribute has a raw and an encoded text, and this is the encoding of that.
  abbrev honest_info : Value → Bool
  honest_info info =
      encodes (R.value_as_str (R.value_index info "raw"))
        (R.value_as_str (R.value_index info "encoded"))

  unfoldable pub all_honest : Map Value → Bool
  all_honest [] = true
  all_honest ((referent, info) ∷ rest) = honest_info info && all_honest rest

  abbrev honest_object : Option (Map Value) → Bool
  honest_object none = true
  honest_object (some attrs) = all_honest attrs

  abbrev honest_value : VcxResult Value → Bool
  honest_value (ok v) = honest_object (revealed_attrs_of R v)
  honest_value (err _) = false

  -- The text is JSON in which `requested_proof.revealed_attrs` is no object, or all its entries are
  -- honest.
  abbrev pub honest_proof : String → Bool
  honest_proof proof = honest_value (parsed_proof R proof)

  -- Whether a check came out as it should: with no error, or as an invalid proof.
  abbrev Decides : Bool → VcxResult Unit → Type 0
  Decides true r = r ≡ ok tt
  Decides false r = Fails (λ e. e.kind ≡ invalid_proof) r

  check-Decides : (entry : String × Value) → Decides (honest_info entry.1) (check_revealed R entry)
  unfolding check_revealed encode
  check-Decides entry = ground arith

  check_all-Decides : (m : Map Value) → Decides (all_honest m) (check_all_revealed R m)
  unfolding check_all_revealed all_honest
  check_all-Decides [] = refl
  check_all-Decides ((referent, info) ∷ rest) =
      ground (arith, check-Decides (referent, info), check_all-Decides rest)

  object_honest :
      (o : Option (Map Value))
      → Ensures
          (λ _. honest_object o ≡ true)
          (elim o [ none ↦ ok tt | some m ↦ check_all_revealed R m ])
  object_honest none = refl
  object_honest (some m) = ground (arith, check_all-Decides m)

  value_honest :
      (r : VcxResult Value)
      → Ensures
          (λ _. honest_value r ≡ true)
          (and_then r
            λ v. elim (revealed_attrs_of R v) [ none ↦ ok tt | some m ↦ check_all_revealed R m ])
  value_honest (ok v) = object_honest (revealed_attrs_of R v)
  value_honest (err e) = tt

  attributes_honest :
      (proof : String)
      → Ensures (λ _. honest_proof proof ≡ true) (validate_proof_revealed_attributes R proof)
  unfolding validate_proof_revealed_attributes
  attributes_honest proof = value_honest (parsed_proof R proof)

  -- If the check of a presentation gives a verdict, its text is JSON in which
  -- `requested_proof.revealed_attrs` is no object, or has in every entry a raw value and the
  -- encoding of this value as the encoded one.
  pub verdict_needs_honesty :
      (proof request : String) (w : World)
      → Ensures (λ _. honest_proof proof ≡ true) (validate_indy_proof R proof request w).0
  unfolding validate_indy_proof
  verdict_needs_honesty proof request w =
      next-Ensures (λ _. honest_proof proof ≡ true) (λ _. honest_proof proof ≡ true)
        (lift (validate_proof_revealed_attributes R proof)) (λ _ w'. judge R proof request w') w
        (attributes_honest proof) (λ _ w' h. const-Ensures (judge R proof request w').0 h)

  -- A presentation on the thread of the request that was sent, where both carry texts that were
  -- attached by `make_attach_from_str` and the presentation's is JSON: if an entry under its
  -- `requested_proof.revealed_attrs` lacks a raw or an encoded value, or has another encoded value
  -- than the encoding of its raw value, it is found invalid, and the closing message is no
  -- acknowledgement.
  pub tampered_refused :
      (c : Codec R) (v : VerifierSm) (s : PresentationRequestSentState) (m : PresentationV1)
      (proof request id id' : String) (rest rest' : List Attachment) (parsed : Value)
      (attrs : Map Value) (w : World)
      → v.state ≡ presentation_request_sent s
      → is_match v.thread_id (proof_v1 (presentation m)) ≡ true
      → m.content.presentations_attach ≡ make_attach_from_str R proof id ∷ rest
      → s.presentation_request.content.request_presentations_attach
        ≡ make_attach_from_str R request id' ∷ rest'
      → R.value_from_str proof ≡ ok parsed
      → revealed_attrs_of R parsed ≡ some attrs
      → all_honest attrs ≡ false
      → Returns
          (λ v'.
            (get_verification_status v' ≡ invalid)
            × Returns (λ msg. is_ack msg ≡ false) (get_final_message R v' w).0)
          (verify_presentation R v m w).0
  unfolding verify_presentation check_presentation verify_thread_id is_match get_verification_status
      get_final_message validate_indy_proof validate_proof_revealed_attributes
  tampered_refused c v s m proof request id id' rest rest' parsed attrs w at on attached asked
        parses reveals tampered =
      ground (
        arith,
        get-make_attach R c proof id rest,
        get-make_attach R c request id' rest',
        check_all-Decides attrs,
      )
