-- ===== src/Issuance/Issuer/Credential.antt =====
-- The issuer's messages and the making of a credential: `build_credential_message`,
-- `build_credential_offer` and `create_credential` of issuer/state_machine.rs.
use instnt_aries_vcx.Base.{
  ℕ, String, Option, none, some, [], ◌∷◌, Effect, not, if◌then◌else◌, and_then, ok, pure, throw,
  lift, perform, ◌>>=◌,
}
use instnt_aries_vcx.Errors.{VcxResult, from_msg, invalid_json}
use instnt_aries_vcx.Messages.Parts.{thread_of, timing_of}
use instnt_aries_vcx.Messages.Issuance.{
  OfferCredentialV1, RequestCredentialV1, IssueCredentialV1, CredentialPreviewV1,
}
use instnt_aries_vcx.Runtime.{Runtime, Vcx, converted, call}
use instnt_aries_vcx.Util.Thread.{matches_opt_thread_id}
use instnt_aries_vcx.Issuance.Encoding.{encode_attributes}
use instnt_aries_vcx.Util.Attach.{AttachmentId, as_ref, get_attach_as_string, make_attach_from_str}

module _ (R : Runtime) where
  open R use {World, Credential}

  unfoldable pub build_credential_message : Credential → String → Effect World IssueCredentialV1
  build_credential_message credential thread_id w =
      let (id, w') = R.new_v4 w in
      (
        record {
          id = id;
          content = record {
            comment = none;
            credentials_attach =
                make_attach_from_str R (R.credential_to_string credential)
                  (as_ref AttachmentId.credential)
                ∷ [];
          };
          decorators = record {
            thread = thread_of thread_id;
            please_ack = some (record { on = [] });
            timing = none;
          };
        },
        w',
      )

  unfoldable pub build_credential_offer :
      String → String → CredentialPreviewV1 → Option String → Effect World OfferCredentialV1
  build_credential_offer thread_id credential_offer credential_preview comment w =
      let (now, w') = R.utc_now w in
      (
        record {
          id = thread_id;
          content = record {
            comment = comment;
            credential_preview = credential_preview;
            offers_attach =
                make_attach_from_str R credential_offer (as_ref AttachmentId.credential_offer) ∷ [];
          };
          decorators = record { thread = none; timing = some (timing_of now) };
        },
        w',
      )

  -- `rev_reg_id.map(TryInto::try_into).transpose()?`
  abbrev rev_reg_id_of : Option String → VcxResult (Option String)
  rev_reg_id_of none = ok none
  rev_reg_id_of (some id) = and_then (converted R (R.rev_reg_id_try_from id)) (λ i. ok (some i))

  unfoldable pub create_credential :
      RequestCredentialV1
      → Option String
      → Option String
      → OfferCredentialV1
      → String
      → String
      → Vcx R (IssueCredentialV1 × Option ℕ)
  create_credential request rev_reg_id tails_file offer cred_data thread_id = do
    offer_text ← lift (get_attach_as_string R offer.content.offers_attach)
    if not (matches_opt_thread_id request.decorators.thread thread_id)
        then throw
            (from_msg invalid_json "Cannot handle credential request: thread id does not match")
        else (do
          request_text ← lift (get_attach_as_string R request.content.requests_attach)
          values_text ← encode_attributes R cred_data
          offer_json ← lift (converted R (R.offer_from_str offer_text))
          request_json ← lift (converted R (R.request_from_str request_text))
          values_json ← lift (converted R (R.values_from_str values_text))
          rev_reg ← lift (rev_reg_id_of rev_reg_id)
          made ←
              call R
                (R.issuer_create_credential offer_json request_json values_json rev_reg tails_file)
          msg ← perform (build_credential_message made.0 thread_id)
          pure (msg, made.1))
