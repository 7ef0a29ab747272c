-- ===== src/Samples/Presenting.antt =====
-- The theorems on the making and the checking of proofs, at concrete ones.
use instnt_aries_vcx.Base.{◌≡◌, refl, true, false, none, some, [], ◌∷◌, is_ok, Ensures, Returns}
use instnt_aries_vcx.Messages.Parts.{thread_of}
use instnt_aries_vcx.Messages.Proof.{PresentationV1}
use instnt_aries_vcx.Anoncreds.Request.{AttributeInfo, PresentationRequest, request_v1}
use instnt_aries_vcx.Anoncreds.Selection.{SelectedCredentials, SelectedCredentialForReferent}
use instnt_aries_vcx.Issuance.Encoding.{encode}
use instnt_aries_vcx.Util.Attach.{make_attach_from_str}
use instnt_aries_vcx.Util.Thread.{is_match, matches_thread_id}
use instnt_aries_vcx.Proof.Prover.Build.{CredInfoProver, credential_def_identifiers}
use instnt_aries_vcx.Proof.Prover.Selected.{asks_for_all, selection_accepted}
use instnt_aries_vcx.Proof.Prover.Timed.{AllStamped, states_made, times_of_states}
use instnt_aries_vcx.Proof.Verifier.States.{invalid, presentation_request_sent}
use instnt_aries_vcx.Proof.Verifier.Machine.{verify_presentation}
use instnt_aries_vcx.Proof.Verifier.Queries.{get_verification_status, get_final_message}
use instnt_aries_vcx.Proof.Verifier.Outcome.{is_ack}
use instnt_aries_vcx.Proof.Verifier.Check.{CredInfoVerifier, validate_indy_proof}
use instnt_aries_vcx.Proof.Verifier.Honest.{
  honest_proof, all_honest, verdict_needs_honesty, tampered_refused,
}
use instnt_aries_vcx.Samples.Json.{parse, revealed}
use instnt_aries_vcx.Samples.World.{sample, sample-Codec, payload}
use instnt_aries_vcx.Samples.Proof.{verifier, waiting}

verdict_needs_honesty_example :
    Ensures (λ _. honest_proof sample "p" ≡ true) (validate_indy_proof sample "p" "r" 0).0
verdict_needs_honesty_example = verdict_needs_honesty sample "p" "r" 0

abbrev tampered : PresentationV1
tampered = record {
  id = "j";
  content = record {
    comment = none;
    presentations_attach = make_attach_from_str sample "x" "b" ∷ [];
  };
  decorators = record { thread = thread_of "i"; please_ack = none; timing = none };
}

tampered_refused_example :
    Returns
      (λ v'.
        (get_verification_status v' ≡ invalid)
        × Returns (λ msg. is_ack msg ≡ false) (get_final_message sample v' 0).0)
      (verify_presentation sample (verifier (presentation_request_sent waiting)) tampered 0).0
unfolding is_match matches_thread_id all_honest encode
tampered_refused_example =
    tampered_refused sample sample-Codec (verifier (presentation_request_sent waiting)) waiting
      tampered "x" "r" "b" "a" [] [] (parse "x") (revealed "2") 0 refl refl refl refl refl refl refl

abbrev shown : CredInfoVerifier
shown = record { schema_id = "s"; cred_def_id = "d"; rev_reg_id = some "g"; timestamp = some 5 }

abbrev selected : SelectedCredentialForReferent
selected = record {
  credential = record {
    cred_info = record {
      referent = "c";
      schema_id = "s";
      cred_def_id = "d";
      rev_reg_id = some "g";
      cred_rev_id = some 7;
      revealed = none;
    };
  };
  tails_dir = some "t";
}

-- Two attributes that are shown from the same revocable credential.
abbrev selection : SelectedCredentials
selection = record { credential_for_referent = ("a", selected) ∷ ("b", selected) ∷ [] }

abbrev asked : AttributeInfo
asked = record {
  name = some "n";
  names = none;
  restrictions = none;
  non_revoked = some (record { from = none; to = some 9 });
  self_attest_allowed = none;
}

abbrev request : PresentationRequest
request = request_v1 (record payload { requested_attributes = ("a", asked) ∷ ("b", asked) ∷ [] })

selection_accepted_example :
    is_ok (credential_def_identifiers selection request)
    ≡ asks_for_all request selection.credential_for_referent
selection_accepted_example = selection_accepted selection request

times_of_states_example :
    Ensures (λ built. AllStamped sample built.0 built.1) (states_made sample selection request 0).0
times_of_states_example = times_of_states sample selection request 0

abbrev info : CredInfoProver
info = record {
  referent = "a";
  credential_referent = "c";
  schema_id = "s";
  cred_def_id = "d";
  rev_reg_id = some "g";
  cred_rev_id = some 7;
  revocation_interval = none;
  tails_dir = some "t";
  timestamp = some 9;
  revealed = none;
}
