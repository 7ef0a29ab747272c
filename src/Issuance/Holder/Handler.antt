-- ===== src/Issuance/Holder/Handler.antt =====
-- aries/aries_vcx/src/handlers/issuance/holder.rs: the object `Holder` that an agent keeps.
-- A `&mut self` method returns its result, the object after the call, and the world. Each runs the
-- machine on a copy and assigns only after the `?`, so an error leaves the object as it was.
use instnt_aries_vcx.Base.{
  String, Option, none, some, true, Effect, ok, err, pure, throw, lift, perform, ◌>>=◌,
}
use instnt_aries_vcx.Errors.{VcxResult, from_msg, not_ready, invalid_state}
use instnt_aries_vcx.Messages.Parts.{ProblemReport, AckStatus, thread_of, timing_of}
use instnt_aries_vcx.Messages.Issuance.{
  AckCredentialV1, CredentialIssuanceV1, ProposeCredentialV1, RequestCredentialV1,
  IssueCredentialV1, request_credential,
}
use instnt_aries_vcx.Messages.Aries.{
  AriesMessage, CredentialIssuance, credential_issuance, report_problem, issuance_v1,
}
use instnt_aries_vcx.Runtime.{Runtime, Vcx}
use instnt_aries_vcx.Issuance.Holder.States.{
  HolderSm, HolderState, request_set, finished, get_state,
}
use instnt_aries_vcx.Issuance.Holder.Machine
use instnt_aries_vcx.Issuance.Holder.Machine.{
  receive_offer, receive_credential, receive_problem_report,
}
use instnt_aries_vcx.Issuance.Holder.Queries.{get_problem_report}

pub record Holder : Type 0 where
  pub holder_sm : HolderSm

module _ (R : Runtime) where
  open R use {World}

  -- The result of a `&mut self` method.
  abbrev pub Method : Type 0 → Type 0
  Method A = World → VcxResult A × Holder × World

  -- `self.holder_sm = <machine>?; Ok(())`
  abbrev assign : Holder → VcxResult HolderSm → World → VcxResult Unit × Holder × World
  assign self (ok sm) w = (ok tt, record { holder_sm = sm }, w)
  assign self (err e) w = (err e, self, w)

  abbrev update : Holder → Vcx R HolderSm → Method Unit
  update self m w = let (r, w') = m w in assign self r w'

  unfoldable pub build_credential_ack : String → Effect World AckCredentialV1
  build_credential_ack thread_id w =
      let (now, w₁) = R.utc_now w in
      let (id, w₂) = R.new_v4 w₁ in
      (
        record {
          id = id;
          content = record { inner = record { status = AckStatus.accepted } };
          decorators = record { thread = thread_of thread_id; timing = some (timing_of now) };
        },
        w₂,
      )

  unfoldable pub get_msg_credential_request : Holder → Vcx R RequestCredentialV1
  get_msg_credential_request self = elim self.holder_sm.state [
    | request_set s ↦ do
      now ← perform R.utc_now
      let msg = s.msg_credential_request
      pure (record msg { decorators = record msg.decorators { timing = some (timing_of now) } })
    | _ ↦ throw (from_msg not_ready "Invalid action")
  ]

  unfoldable pub set_proposal : Holder → ProposeCredentialV1 → Method Unit
  set_proposal self proposal = update self (lift (Machine.set_proposal R self.holder_sm proposal))

  -- The reply that `prepare_credential_request` takes from the state that was reached.
  prepared : Holder → Vcx R AriesMessage
  prepared self = elim (get_state self.holder_sm) [
    | HolderState.failed ↦ do
      report ← lift (get_problem_report self.holder_sm)
      pure (report_problem report)
    | HolderState.request_set ↦ do
      msg ← get_msg_credential_request self
      pure (issuance_v1 (request_credential msg))
    | _ ↦ throw (
        from_msg invalid_state
          "Holder::prepare_credential_request >> reached unexpected state after calling prepare_credential_request")
  ]

  abbrev reply :
      {A : Type 0}
      → (Holder → Vcx R A)
      → VcxResult Unit × Holder × World
      → VcxResult A × Holder × World
  reply f (ok _, self, w) = let (r, w') = f self w in (r, self, w')
  reply f (err e, self, w) = (err e, self, w)

  unfoldable pub prepare_credential_request : Holder → String → Method AriesMessage
  unfolding prepared
  prepare_credential_request self my_pw_did w =
      reply prepared (update self (Machine.prepare_credential_request R self.holder_sm my_pw_did) w)

  unfoldable pub decline_offer : Holder → Option String → Method ProblemReport
  decline_offer self comment w =
      reply (λ h. lift (get_problem_report h.holder_sm))
        (update self (Machine.decline_offer R self.holder_sm comment) w)

  unfoldable pub process_credential : Holder → IssueCredentialV1 → Method Unit
  process_credential self credential = update self (receive_credential R self.holder_sm credential)

  unfoldable pub process_aries_msg : Holder → AriesMessage → Method Unit
  process_aries_msg self
        (credential_issuance
          (CredentialIssuance.v1 (CredentialIssuanceV1.offer_credential offer))) =
      update self (lift (receive_offer R self.holder_sm offer))
  process_aries_msg self
        (credential_issuance
          (CredentialIssuance.v1 (CredentialIssuanceV1.issue_credential credential))) =
      update self (receive_credential R self.holder_sm credential)
  process_aries_msg self (report_problem report) =
      update self (lift (receive_problem_report R self.holder_sm report))
  process_aries_msg self _ = update self (pure self.holder_sm)

  unfoldable pub get_final_message : Holder → Vcx R (Option AriesMessage)
  get_final_message self = elim self.holder_sm.state [
    | finished s ↦ elim s.ack_requested [
      | some true ↦ do
        msg ← perform (build_credential_ack self.holder_sm.thread_id)
        pure (some (issuance_v1 (CredentialIssuanceV1.ack msg)))
      | _ ↦ pure none
    ]
    | _ ↦ pure none
  ]
