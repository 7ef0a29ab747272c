-- ===== src/Issuance/Holder/Request.antt =====
-- The credential request: `_build_credential_request_msg`, `create_anoncreds_credential_request`
-- and `build_credential_request_msg` of holder/state_machine.rs.
use Prim.Native.String.{◌++◌}
use instnt_aries_vcx.Base.{String, none, some, [], ◌∷◌, Effect, map_err, pure, lift, perform, ◌>>=◌}
use instnt_aries_vcx.Errors.{from_msg, invalid_state}
use instnt_aries_vcx.Messages.Parts.{thread_of, timing_of}
use instnt_aries_vcx.Messages.Issuance.{OfferCredentialV1, RequestCredentialV1}
use instnt_aries_vcx.Runtime.{Runtime, Vcx, converted, call}
use instnt_aries_vcx.Util.Attach.{AttachmentId, as_ref, get_attach_as_string, make_attach_from_str}

-- `settings::DEFAULT_LINK_SECRET_ALIAS`
abbrev pub default_link_secret_alias : String
default_link_secret_alias = "main"

module _ (R : Runtime) where
  open R use {World}

  unfoldable pub credential_request_msg : String → String → Effect World RequestCredentialV1
  credential_request_msg credential_request_attach thread_id w =
      let (now, w₁) = R.utc_now w in
      let (id, w₂) = R.new_v4 w₁ in
      (
        record {
          id = id;
          content = record {
            comment = none;
            requests_attach =
                make_attach_from_str R credential_request_attach
                  (as_ref AttachmentId.credential_request)
                ∷ [];
          };
          decorators = record {
            thread = some (thread_of thread_id);
            timing = some (timing_of now);
          };
        },
        w₂,
      )

  -- The request, its metadata, the id and the text of the credential definition, the schema's id.
  unfoldable pub create_anoncreds_credential_request :
      String → String → Vcx R (String × String × String × String × String)
  create_anoncreds_credential_request prover_did cred_offer = do
    offer ← lift (converted R (R.offer_from_str cred_offer))
    cred_def ← call R (R.get_cred_def (R.offer_cred_def_id offer))
    copy ← lift (converted R (R.cred_def_try_clone cred_def))
    made ← λ w.
        let (r, w') =
          R.prover_create_credential_req prover_did offer copy default_link_secret_alias w in
        (
          map_err
              (λ e. from_msg invalid_state ("Cannot create credential request; " ++ R.display e)) r,
          w',
        )
    pure (
      R.request_to_string made.0,
      R.metadata_to_string made.1,
      R.offer_cred_def_id offer,
      R.cred_def_to_string cred_def,
      R.offer_schema_id offer,
    )

  -- The message, the metadata, the credential definition and the schema's id.
  unfoldable pub build_credential_request_msg :
      String → String → OfferCredentialV1 → Vcx R (RequestCredentialV1 × String × String × String)
  build_credential_request_msg thread_id my_pw_did offer = do
    cred_offer ← lift (get_attach_as_string R offer.content.offers_attach)
    made ← create_anoncreds_credential_request my_pw_did cred_offer
    msg ← perform (credential_request_msg made.0 thread_id)
    pure (msg, made.1, made.3, made.4)
