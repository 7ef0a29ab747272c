-- ===== src/Issuance/Holder/Machine.antt =====
-- The transitions of `HolderSM` in holder/state_machine.rs. A method takes the machine and returns
-- it, or an error; on an error the caller keeps the machine that it had.
use instnt_aries_vcx.Base.{
  String, Option, some, Effect, ok, and_then, pure, lift, perform, on_result, ◌>>=◌,
}
use instnt_aries_vcx.Errors.{VcxResult, to_string}
use instnt_aries_vcx.Messages.Parts.{ProblemReport}
use instnt_aries_vcx.Messages.Issuance.{
  OfferCredentialV1, ProposeCredentialV1, IssueCredentialV1, offer_credential, propose_credential,
}
use instnt_aries_vcx.Messages.Aries.{issuance_v1}
use instnt_aries_vcx.Runtime.{Runtime, Vcx, converted, call}
use instnt_aries_vcx.Util.Thread.{verify_thread_id}
use instnt_aries_vcx.Util.Report.{build_problem_report_msg}
use instnt_aries_vcx.Issuance.Holder.States.{
  HolderSm, initial, proposal_set, offer_received, request_set, finished, refused, stored,
}
use instnt_aries_vcx.Issuance.Holder.Request.{build_credential_request_msg}
use instnt_aries_vcx.Issuance.Holder.Store.{store_credential}

unfoldable pub from_offer : OfferCredentialV1 → String → HolderSm
from_offer offer source_id = record {
  state = offer_received (record { offer = offer });
  source_id = source_id;
  thread_id = offer.id;
}

unfoldable pub with_proposal : ProposeCredentialV1 → String → HolderSm
with_proposal proposal source_id = record {
  state = proposal_set (record { credential_proposal = proposal });
  source_id = source_id;
  thread_id = proposal.id;
}

module _ (R : Runtime) where
  open R use {World}

  unfoldable pub new : String → Effect World HolderSm
  new source_id w =
      let (id, w') = R.new_v4 w in
      (record { state = initial; source_id = source_id; thread_id = id }, w')

  unfoldable pub set_proposal : HolderSm → ProposeCredentialV1 → VcxResult HolderSm
  set_proposal self proposal =
      and_then (verify_thread_id R self.thread_id (issuance_v1 (propose_credential proposal))) λ _.
        let renamed = record proposal { id = self.thread_id } in
        ok (record self {
          state = elim self.state [
            | initial ↦ proposal_set (record { credential_proposal = renamed })
            | offer_received _ ↦ proposal_set (record { credential_proposal = renamed })
            | s ↦ s
          ];
        })

  unfoldable pub receive_offer : HolderSm → OfferCredentialV1 → VcxResult HolderSm
  receive_offer self offer =
      and_then (verify_thread_id R self.thread_id (issuance_v1 (offer_credential offer))) λ _.
        ok (record self {
          state = elim self.state [
            | proposal_set _ ↦ offer_received (record { offer = offer })
            | s ↦ s
          ];
        })

  -- The problem report of a failure ends the exchange.
  abbrev give_up : HolderSm → Option String → Vcx R HolderSm
  give_up self comment = do
    report ← perform (build_problem_report_msg R comment self.thread_id)
    pure (record self { state = finished (refused report) })

  unfoldable pub prepare_credential_request : HolderSm → String → Vcx R HolderSm
  prepare_credential_request self my_pw_did = elim self.state [
    | offer_received s ↦
        on_result (build_credential_request_msg R self.thread_id my_pw_did s.offer)
          (λ made. pure (record self {
            state = request_set (record {
              req_meta = made.1;
              cred_def_json = made.2;
              schema_id = made.3;
              msg_credential_request = made.0;
            });
          }))
          (λ e. give_up self (some (to_string e)))
    | _ ↦ pure self
  ]

  unfoldable pub decline_offer : HolderSm → Option String → Vcx R HolderSm
  decline_offer self comment = elim self.state [
    | offer_received _ ↦ give_up self comment
    | _ ↦ pure self
  ]

  unfoldable pub receive_credential : HolderSm → IssueCredentialV1 → Vcx R HolderSm
  receive_credential self credential = elim self.state [
    | request_set s ↦ do
      schema ← call R (R.get_schema s.schema_id)
      schema_json ← lift (converted R (R.schema_to_string schema))
      on_result (store_credential R credential s.req_meta s.cred_def_json schema_json)
          (λ made. pure (record self { state = finished (stored s made.0 credential made.1) }))
          (λ e. give_up self (some (to_string e)))
    | _ ↦ pure self
  ]

  unfoldable pub receive_problem_report : HolderSm → ProblemReport → VcxResult HolderSm
  receive_problem_report self report = ok (record self {
    state = elim self.state [
      | proposal_set _ ↦ finished (refused report)
      | request_set _ ↦ finished (refused report)
      | s ↦ s
    ];
  })
