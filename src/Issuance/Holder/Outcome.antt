-- ===== src/Issuance/Holder/Outcome.antt =====
-- How a holder's exchange ends, and what its caller learns of it.
use instnt_aries_vcx.Base.{
  ℕ, String, is_ok, ◌≡◌, Bool, true, false, Option, none, some, Result, ok, err, Returns, arith,
}
use instnt_aries_vcx.Errors.{AriesVcxError, to_string}
use instnt_aries_vcx.Messages.Parts.{Thread}
use instnt_aries_vcx.Messages.Issuance.{IssueCredentialV1, issue_credential}
use instnt_aries_vcx.Messages.Aries.{issuance_v1}
use instnt_aries_vcx.Runtime.{Runtime}
use instnt_aries_vcx.Util.Report.{problem_report_of}
use instnt_aries_vcx.Issuance.Holder.States.{
  HolderSm, HolderState, RequestSetState, request_set, finished, get_state, stored, refused,
}
use instnt_aries_vcx.Issuance.Holder.Store.{store_credential}
use instnt_aries_vcx.Issuance.Holder.Machine.{receive_credential}
use instnt_aries_vcx.Issuance.Holder.Queries.{
  credential_status, is_terminal_state, get_credential, get_cred_id, get_problem_report,
}
use instnt_aries_vcx.Issuance.Holder.Finished.{cred_id_of}
use instnt_aries_vcx.Issuance.Holder.Invariant.{IsValid}

abbrev code_of : HolderState → ℕ
code_of HolderState.finished = 1
code_of HolderState.failed = 2
code_of _ = 0

abbrev is_last : HolderState → Bool
is_last HolderState.finished = true
is_last HolderState.failed = true
is_last _ = false

abbrev is_failed : HolderState → Bool
is_failed HolderState.failed = true
is_failed _ = false

abbrev is_success : HolderState → Bool
is_success HolderState.finished = true
is_success _ = false

-- The queries agree on a valid machine: the status code is 1 after success, 2 after a failure and 0
-- before, the machine is terminal in just these two cases, a credential and its id can be taken
-- exactly after success, and a problem report exactly after a failure.
pub holder_queries_agree :
    (h : HolderSm)
    → IsValid h
    → (credential_status h ≡ code_of (get_state h))
      × (is_terminal_state h ≡ is_last (get_state h))
      × (is_ok (get_credential h) ≡ is_success (get_state h))
      × (is_ok (get_cred_id h) ≡ is_success (get_state h))
      × (is_ok (get_problem_report h) ≡ is_failed (get_state h))
unfolding credential_status is_terminal_state get_credential get_cred_id cred_id_of
    get_problem_report
holder_queries_agree h v = ground arith

module _ (R : Runtime) where
  open R use {World, Fault, Schema}

  -- How the exchange ends when the wallet has answered.
  abbrev pub EndsAs :
      HolderSm
      → IssueCredentialV1
      → Result AriesVcxError (String × Option String)
      → HolderSm
      → Type 0
  EndsAs h c (ok (id, rev)) h' =
      (get_state h' ≡ HolderState.finished)
      × (get_credential h' ≡ ok (id, issuance_v1 (issue_credential c)))
      × (get_cred_id h' ≡ ok id)
  EndsAs h c (err e) h' =
      (get_state h' ≡ HolderState.failed)
      × (Returns (λ r. r.content.description.code ≡ to_string e) (get_problem_report h'))

  -- A credential that comes after a request, where the ledger gives its schema and this can be
  -- printed: the machine ends. If the wallet stores the credential, in success, with the wallet's id and this very
  -- credential; if it does not, in failure, with the error in the problem report.
  pub receive_credential_ends :
      (h : HolderSm) (s : RequestSetState) (c : IssueCredentialV1) (w w₁ w₂ : World)
      (schema : Schema) (schema_json : String) (r : Result AriesVcxError (String × Option String))
      → h.state ≡ request_set s
      → R.get_schema s.schema_id w ≡ (ok schema, w₁)
      → R.schema_to_string schema ≡ ok schema_json
      → store_credential R c s.req_meta s.cred_def_json schema_json w₁ ≡ (r, w₂)
      → (h' : HolderSm) × ((receive_credential R h c w).0 ≡ ok h') × EndsAs h c r h'
  unfolding receive_credential get_credential get_cred_id get_problem_report cred_id_of
  receive_credential_ends h s c w w₁ w₂ schema schema_json (ok (id, rev)) at_request got text done =
      (record h { state = finished (stored s id c rev) }, ground arith, ground arith)
  receive_credential_ends h s c w w₁ w₂ schema schema_json (err e) at_request got text done = (
    record h {
      state =
          finished (refused (problem_report_of (R.new_v4 w₂).0 (some (to_string e)) h.thread_id));
    },
    ground arith,
    ground arith,
  )

  -- The same credential, as if it had come on another thread.
  abbrev pub on_thread : Thread → IssueCredentialV1 → IssueCredentialV1
  on_thread t c = record c { decorators = record c.decorators { thread = t } }

  abbrev pub ends_in : Result AriesVcxError HolderSm → Option HolderState
  ends_in (ok h) = some (get_state h)
  ends_in (err e) = none

  -- `receive_credential` does not look at the thread of the credential: on any other thread it is
  -- taken with the same outcome and the same effects.
  pub receive_credential_any_thread :
      (h : HolderSm) (c : IssueCredentialV1) (t : Thread) (w : World)
      → (ends_in (receive_credential R h (on_thread t c) w).0
          ≡ ends_in (receive_credential R h c w).0)
        × ((receive_credential R h (on_thread t c) w).1 ≡ (receive_credential R h c w).1)
  unfolding receive_credential store_credential
  receive_credential_any_thread h c t w = ground arith
