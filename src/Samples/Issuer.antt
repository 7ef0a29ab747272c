-- ===== src/Samples/Issuer.antt =====
-- The issuer's theorems, and those of both parties of an issuance, at concrete machines.
use instnt_aries_vcx.Base.{◌≡◌, refl, List, none, some, [], ◌∷◌, true, false, is_ok, ok, Returns}
use instnt_aries_vcx.Messages.Parts.{timing_of}
use instnt_aries_vcx.Messages.Issuance.{IssueCredentialV1, ack}
use instnt_aries_vcx.Messages.Aries.{issuance_v1}
use instnt_aries_vcx.Util.Thread.{is_match, verify_thread_id, matches_thread_id}
use instnt_aries_vcx.Util.Attach.{get_attach_as_string, make_attach_from_str}
use instnt_aries_vcx.Util.Report.{success}
use instnt_aries_vcx.Issuance.Encoding.{none_left, same, PrintSame, styles_agree}
use instnt_aries_vcx.Issuance.Holder.States as HolderStates
use instnt_aries_vcx.Issuance.Holder.States.{HolderSm, HolderState, HolderFullState}
use instnt_aries_vcx.Issuance.Holder.Machine.{
  from_offer, prepare_credential_request, decline_offer, receive_credential,
}
use instnt_aries_vcx.Issuance.Holder.Store.{
  store_credential, parse_rev_reg_id_from_credential, fetch_rev_reg_def, rev_reg_def_text,
}
use instnt_aries_vcx.Issuance.Holder.Queries
use instnt_aries_vcx.Issuance.Holder.Handler
use instnt_aries_vcx.Issuance.Issuer.States.{
  OfferInfo, OfferSetState, RequestReceivedState, CredentialSetState, IssuerSm, IssuerState,
  initial, offer_set, request_received, credential_set, finished, get_state,
  from_credential_set_state, from_offer_set_and_request,
}
use instnt_aries_vcx.Issuance.Issuer.Machine.{receive_ack, receive_problem_report}
use instnt_aries_vcx.Issuance.Issuer.Queries.{
  get_revocation_info, is_revokable, get_problem_report, get_rev_id, get_msg_issue_credential,
}
use instnt_aries_vcx.Issuance.Issuer.Revoke.{revoke_credential_local, revoke_needs_id}
use instnt_aries_vcx.Issuance.Issuer.Handler.{Issuer}
use instnt_aries_vcx.Issuance.Issuer.Invariant.{IsValid}
use instnt_aries_vcx.Issuance.Issuer.Run.{
  IssuerCall, set_offer, request, build, acknowledge, call, run, issuer_run-IsValid,
}
use instnt_aries_vcx.Issuance.Issuer.Order.{needed, issuer_success_needs}
use instnt_aries_vcx.Issuance.Issuer.Outcome.{report_after_credential}
use instnt_aries_vcx.Issuance.Exchange.{
  IsTaken, refused_offer, request_accepted, decline_reaches_issuer, credential_acknowledged,
}
use instnt_aries_vcx.Query.Json.{string}
use instnt_aries_vcx.Samples.World.{named, sample}
use instnt_aries_vcx.Samples.Messages

abbrev info : OfferInfo
info = record { credential_json = "v"; cred_def_id = "d"; rev_reg_id = none; tails_file = none }

abbrev fresh : IssuerSm
fresh = record { source_id = "u"; thread_id = "i"; state = initial }

abbrev with_offer : OfferSetState
with_offer = record {
  offer = Messages.offer;
  credential_json = "v";
  cred_def_id = "d";
  rev_reg_id = none;
  tails_file = none;
}

abbrev offered : IssuerSm
offered = record fresh { state = offer_set with_offer }

abbrev with_request : RequestReceivedState
with_request = from_offer_set_and_request with_offer Messages.request

abbrev requested : IssuerSm
requested = record fresh { state = request_received with_request }

abbrev with_credential : CredentialSetState
with_credential = record {
  revocation_info_v1 =
      some (record { cred_rev_id = some "aab"; rev_reg_id = none; tails_file = none });
  msg_issue_credential = Messages.credential;
}

abbrev issued : IssuerSm
issued = record fresh { state = credential_set with_credential }

abbrev ended : IssuerSm
ended = record fresh { state = finished (from_credential_set_state with_credential) }

abbrev calls : List IssuerCall
calls =
    set_offer "o" Messages.preview none info
    ∷ request Messages.request
    ∷ build
    ∷ acknowledge Messages.credential_ack
    ∷ []

issuer_run-IsValid_example : IsValid (run sample calls fresh 0).0
issuer_run-IsValid_example = issuer_run-IsValid sample calls fresh 0 tt

issuer_success_needs_example :
    needed IssuerState.credential_set (acknowledge Messages.credential_ack ∷ []) ≡ true
unfolding run call receive_ack verify_thread_id is_match matches_thread_id
issuer_success_needs_example =
    issuer_success_needs sample (acknowledge Messages.credential_ack ∷ []) issued 0 refl

report_after_credential_example :
    (receive_problem_report sample issued Messages.report
      ≡ receive_ack sample issued Messages.credential_ack)
    × Returns
        (λ i'. (get_state i' ≡ IssuerState.finished) × (is_ok (get_problem_report i') ≡ false))
        (receive_problem_report sample issued Messages.report)
unfolding is_match matches_thread_id
report_after_credential_example =
    report_after_credential sample issued with_credential Messages.report Messages.credential_ack
      refl refl refl

abbrev object : IssuerSm → Issuer
object sm = record { issuer_sm = sm }

request_accepted_example :
    Returns
      (λ h. IsTaken sample offered with_offer h h.state)
      (prepare_credential_request sample (from_offer Messages.offer "h") "did" 0).0
request_accepted_example = request_accepted sample offered with_offer "h" "did" 0 refl refl

decline_reaches_issuer_example :
    Returns
      (λ h.
        Returns
          (λ r.
            receive_problem_report sample offered r
            ≡ ok (record offered { state = finished (refused_offer with_offer r) }))
          (Queries.get_problem_report h)
        × (is_ok (Queries.get_problem_report h) ≡ true)
        × (HolderStates.get_state h ≡ HolderStates.HolderState.failed))
      (decline_offer sample (from_offer Messages.offer "h") none 0).0
decline_reaches_issuer_example =
    decline_reaches_issuer sample offered with_offer "h" none 0 refl refl

abbrev wanted : HolderStates.RequestSetState
wanted = record {
  req_meta = "m";
  cred_def_json = "d";
  schema_id = "s";
  msg_credential_request = Messages.request;
}

abbrev holder : HolderFullState → HolderSm
holder s = record { state = s; source_id = "h"; thread_id = "i" }

abbrev sent : IssueCredentialV1
sent = record Messages.credential {
  decorators = record Messages.credential.decorators { timing = some (timing_of 0) };
}

abbrev storing : HolderSm
storing = holder (HolderFullState.finished (HolderStates.stored wanted "stored" sent none))

credential_acknowledged_example :
    let a = (Handler.build_credential_ack sample "i" 0).0 in
    ((Handler.get_final_message sample (record { holder_sm = storing }) 0).0
      ≡ ok (some (issuance_v1 (ack a))))
    × Returns (λ i'. get_state i' ≡ IssuerState.finished) (receive_ack sample issued a)
    × (is_ok (receive_ack sample issued a) ≡ true)
unfolding get_msg_issue_credential receive_credential store_credential get_attach_as_string
    make_attach_from_str parse_rev_reg_id_from_credential fetch_rev_reg_def rev_reg_def_text
credential_acknowledged_example =
    credential_acknowledged sample issued with_credential
      (holder (HolderFullState.request_set wanted)) storing wanted sent 0 0 0 (refl, refl, refl)
      refl refl refl refl refl refl

styles_agree_example : PrintSame sample ("m", 0) ("v", 0) (0, 0)
styles_agree_example =
    styles_agree sample "m" "v" (("a", string "1") ∷ []) (named "a" "1" ∷ []) "no map" 0 0 0 0 refl
      refl refl (same refl refl refl refl refl none_left)

abbrev revocable : IssuerSm
revocable = record fresh {
  state = finished (record {
    cred_id = none;
    revocation_info_v1 =
        some (record { cred_rev_id = some "aab"; rev_reg_id = some "g"; tails_file = some "f" });
    status = success;
  });
}

revoke_needs_id_example :
    (is_revokable revocable ≡ true)
    × (is_ok (get_rev_id sample revocable) ≡ true)
    × ¬ (get_state revocable ≡ IssuerState.failed)
unfolding revoke_credential_local get_revocation_info
revoke_needs_id_example = revoke_needs_id sample (object revocable) 0 (refl, tt) refl
