-- ===== src/Issuance/Issuer/Outcome.antt =====
-- How an issuer's exchange ends, and what its caller learns of it.
use instnt_aries_vcx.Base.{ℕ, ◌≡◌, Bool, ◌&&◌, true, false, err, is_ok, Returns, arith}
use instnt_aries_vcx.Errors.{AriesVcxError}
use instnt_aries_vcx.Messages.Parts.{ProblemReport}
use instnt_aries_vcx.Messages.Issuance.{AckCredentialV1, ack, CredentialIssuanceV1}
use instnt_aries_vcx.Messages.Aries.{
  AriesMessage, CredentialIssuance, Notification, credential_issuance, notification, issuance_v1,
  report_problem,
}
use instnt_aries_vcx.Runtime.{Runtime}
use instnt_aries_vcx.Util.Thread.{is_match, verify_thread_id}
use instnt_aries_vcx.Issuance.Issuer.States.{
  IssuerSm, IssuerState, CredentialSetState, credential_set, get_state,
}
use instnt_aries_vcx.Issuance.Issuer.Machine.{receive_ack, receive_problem_report}
use instnt_aries_vcx.Issuance.Issuer.Queries.{
  credential_status, is_terminal_state, is_revokable, get_problem_report,
}
use instnt_aries_vcx.Issuance.Issuer.Invariant.{IsValid}
use instnt_aries_vcx.Issuance.Issuer.Handler.{Issuer, process_aries_msg}

abbrev code_of : IssuerState → ℕ
code_of IssuerState.finished = 1
code_of IssuerState.failed = 2
code_of _ = 0

abbrev is_failed : IssuerState → Bool
is_failed IssuerState.failed = true
is_failed _ = false

abbrev is_last : IssuerState → Bool
is_last IssuerState.finished = true
is_last IssuerState.failed = true
is_last _ = false

-- The queries agree on a valid machine: the status code is 1 after success, 2 after a failure and 0
-- before, the machine is terminal in just these two cases, a problem report can be taken exactly
-- after a failure, and after a failure the credential counts as not revokable.
pub issuer_queries_agree :
    (i : IssuerSm)
    → IsValid i
    → (credential_status i ≡ code_of (get_state i))
      × (is_terminal_state i ≡ is_last (get_state i))
      × (is_ok (get_problem_report i) ≡ is_failed (get_state i))
      × ((is_failed (get_state i) && is_revokable i) ≡ false)
unfolding credential_status is_terminal_state get_problem_report is_revokable
issuer_queries_agree i v = ground arith

module _ (R : Runtime) where
  open R use {World}

  -- A problem report on the thread that comes when the credential was sent ends the exchange in
  -- success, exactly as an acknowledgement would: the report cannot be taken from the machine.
  pub report_after_credential :
      (i : IssuerSm) (s : CredentialSetState) (r : ProblemReport) (a : AckCredentialV1)
      → i.state ≡ credential_set s
      → is_match i.thread_id (report_problem r) ≡ true
      → is_match i.thread_id (issuance_v1 (ack a)) ≡ true
      → (receive_problem_report R i r ≡ receive_ack R i a)
        × Returns
            (λ i'. (get_state i' ≡ IssuerState.finished) × (is_ok (get_problem_report i') ≡ false))
            (receive_problem_report R i r)
  unfolding receive_problem_report receive_ack verify_thread_id get_problem_report
  report_after_credential i s r a at on_r on_a = ground arith

  -- A call of `process_aries_msg` that fails leaves the object as it was, whatever the message.
  pub issuer_message_error :
      (self : Issuer) (m : AriesMessage) (w : World) {e : AriesVcxError}
      → (process_aries_msg R self m w).0 ≡ err e
      → (process_aries_msg R self m w).1 ≡ self
  unfolding process_aries_msg
  issuer_message_error self
        (credential_issuance (CredentialIssuance.v1 (CredentialIssuanceV1.propose_credential p))) w
        h =
      ground arith
  issuer_message_error self (notification (Notification.problem_report r)) w h = ground arith
  issuer_message_error self _ w h = ground arith
