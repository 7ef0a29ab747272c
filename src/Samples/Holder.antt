-- ===== src/Samples/Holder.antt =====
-- The holder's theorems at concrete machines and messages.
use instnt_aries_vcx.Base.{◌≡◌, refl, none, List, [], ◌∷◌, true, ok}
use instnt_aries_vcx.Util.Attach.{get_attach_as_string, make_attach_from_str}
use instnt_aries_vcx.Issuance.Holder.States.{
  HolderSm, HolderState, RequestSetState, OfferReceivedState, initial, offer_received, request_set,
  finished, stored,
}
use instnt_aries_vcx.Issuance.Holder.Store.{
  store_credential, parse_rev_reg_id_from_credential, fetch_rev_reg_def, rev_reg_def_text,
}
use instnt_aries_vcx.Issuance.Holder.Machine.{receive_credential}
use instnt_aries_vcx.Issuance.Holder.Handler.{Holder}
use instnt_aries_vcx.Issuance.Holder.Invariant.{IsValid}
use instnt_aries_vcx.Issuance.Holder.Run.{
  HolderCall, propose, offer, prepare, credential, call, run, holder_run-IsValid,
}
use instnt_aries_vcx.Issuance.Holder.Order.{needed, holder_success_needs}
use instnt_aries_vcx.Issuance.Holder.Outcome.{receive_credential_ends, EndsAs}
use instnt_aries_vcx.Samples.World.{sample}
use instnt_aries_vcx.Samples.Messages

abbrev fresh : HolderSm
fresh = record { state = initial; source_id = "h"; thread_id = "i" }

abbrev asked : OfferReceivedState
asked = record { offer = Messages.offer }

abbrev offered : HolderSm
offered = record fresh { state = offer_received asked }

abbrev wanted : RequestSetState
wanted = record {
  req_meta = "m";
  cred_def_json = "d";
  schema_id = "s";
  msg_credential_request = Messages.request;
}

abbrev requested : HolderSm
requested = record fresh { state = request_set wanted }

abbrev ended : HolderSm
ended = record fresh { state = finished (stored wanted "stored" Messages.credential none) }

abbrev calls : List HolderCall
calls =
    propose Messages.proposal
    ∷ offer Messages.offer
    ∷ prepare "did"
    ∷ credential Messages.credential
    ∷ []

holder_run-IsValid_example : IsValid (run sample calls fresh 0).0
holder_run-IsValid_example = holder_run-IsValid sample calls fresh 0 tt

holder_success_needs_example :
    needed HolderState.request_set (credential Messages.credential ∷ []) ≡ true
unfolding run call receive_credential store_credential get_attach_as_string make_attach_from_str
    parse_rev_reg_id_from_credential fetch_rev_reg_def rev_reg_def_text
holder_success_needs_example =
    holder_success_needs sample (credential Messages.credential ∷ []) requested 0 refl

receive_credential_ends_example :
    (h' : HolderSm) × ((receive_credential sample requested Messages.credential 0).0 ≡ ok h')
    × EndsAs sample requested Messages.credential (ok ("stored", none)) h'
unfolding store_credential get_attach_as_string make_attach_from_str
    parse_rev_reg_id_from_credential fetch_rev_reg_def rev_reg_def_text
receive_credential_ends_example =
    receive_credential_ends sample requested wanted Messages.credential 0 0 0 "s" "s"
      (ok ("stored", none)) refl refl refl refl

abbrev object : HolderSm → Holder
object sm = record { holder_sm = sm }
