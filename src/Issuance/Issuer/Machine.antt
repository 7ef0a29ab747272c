-- ===== src/Issuance/Issuer/Machine.antt =====
-- The transitions of `IssuerSM` in issuer/state_machine.rs. A method takes the machine and returns
-- it, or an error; on an error the caller keeps the machine that it had.
use Prim.Native.String.{◌++◌}
use instnt_aries_vcx.Base.{
  ℕ, String, Option, none, some, Effect, ok, and_then, pure, throw, perform, on_result, ◌>>=◌,
}
use instnt_aries_vcx.Errors.{VcxResult, from_msg, to_string, invalid_state, not_ready}
use instnt_aries_vcx.Messages.Parts.{ProblemReport}
use instnt_aries_vcx.Messages.Issuance.{
  ProposeCredentialV1, RequestCredentialV1, AckCredentialV1, CredentialPreviewV1,
  propose_credential, request_credential, ack,
}
use instnt_aries_vcx.Messages.Aries.{issuance_v1, report_problem}
use instnt_aries_vcx.Runtime.{Runtime, Vcx}
use instnt_aries_vcx.Util.Thread.{verify_thread_id}
use instnt_aries_vcx.Util.Report.{build_problem_report_msg}
use instnt_aries_vcx.Issuance.Issuer.States.{
  IssuerSm, IssuerFullState, OfferInfo, initial, proposal_received, offer_set, request_received,
  credential_set, finished, from_offer_set_and_request, from_offer_set_and_error,
  from_request_and_error, from_credential_set_state,
}
use instnt_aries_vcx.Issuance.Issuer.Credential.{build_credential_offer, create_credential}

-- `Display` of `IssuerFullState`
abbrev pub shown : IssuerFullState → String
shown initial = "Initial"
shown (offer_set _) = "OfferSet"
shown (proposal_received _) = "ProposalReceived"
shown (request_received _) = "RequestReceived"
shown (credential_set _) = "CredentialSet"
shown (finished _) = "Finished"

unfoldable pub from_proposal : String → ProposeCredentialV1 → IssuerSm
from_proposal source_id proposal = record {
  source_id = source_id;
  thread_id = proposal.id;
  state = proposal_received (record { credential_proposal = proposal; offer_info = none });
}

-- `cred_rev_id.as_ref().map(ToString::to_string)`
abbrev pub text_of : (ℕ → String) → Option ℕ → Option String
text_of f none = none
text_of f (some n) = some (f n)

module _ (R : Runtime) where
  open R use {World}

  unfoldable pub new : String → Effect World IssuerSm
  new source_id w =
      let (id, w') = R.new_v4 w in
      (record { source_id = source_id; thread_id = id; state = initial }, w')

  -- The offer that `build_credential_offer_msg` sets in the three states that allow one.
  abbrev offer_with :
      IssuerSm → String → CredentialPreviewV1 → Option String → OfferInfo → Vcx R IssuerSm
  offer_with self credential_offer preview comment info = do
    msg ← perform (build_credential_offer R self.thread_id credential_offer preview comment)
    pure (record self {
      state = offer_set (record {
        offer = msg;
        credential_json = info.credential_json;
        cred_def_id = info.cred_def_id;
        rev_reg_id = info.rev_reg_id;
        tails_file = info.tails_file;
      });
    })

  unfoldable pub build_credential_offer_msg :
      IssuerSm → String → CredentialPreviewV1 → Option String → OfferInfo → Vcx R IssuerSm
  build_credential_offer_msg self credential_offer preview comment info = elim self.state [
    | initial ↦ offer_with self credential_offer preview comment info
    | offer_set _ ↦ offer_with self credential_offer preview comment info
    | proposal_received _ ↦ offer_with self credential_offer preview comment info
    | s ↦ throw (from_msg invalid_state ("Can not set_offer in current state " ++ (shown s ++ ".")))
  ]

  unfoldable pub receive_proposal : IssuerSm → ProposeCredentialV1 → VcxResult IssuerSm
  receive_proposal self proposal =
      and_then (verify_thread_id R self.thread_id (issuance_v1 (propose_credential proposal))) λ _.
        ok (elim self.state [
          | initial ↦ record self {
            state =
                proposal_received (record { credential_proposal = proposal; offer_info = none });
            thread_id = proposal.id;
          }
          | offer_set _ ↦ record self {
            state =
                proposal_received (record { credential_proposal = proposal; offer_info = none });
          }
          | _ ↦ self
        ])

  unfoldable pub receive_request : IssuerSm → RequestCredentialV1 → VcxResult IssuerSm
  receive_request self request =
      and_then (verify_thread_id R self.thread_id (issuance_v1 (request_credential request))) λ _.
        ok (record self {
          state = elim self.state [
            | offer_set s ↦ request_received (from_offer_set_and_request s request)
            | s ↦ s
          ];
        })

  unfoldable pub build_credential : IssuerSm → Vcx R IssuerSm
  build_credential self = elim self.state [
    | request_received s ↦
        on_result
          (create_credential R s.request s.rev_reg_id s.tails_file s.offer s.cred_data
            self.thread_id)
          (λ made. pure (record self {
            state = credential_set (record {
              msg_issue_credential = made.0;
              revocation_info_v1 = some (record {
                cred_rev_id = text_of R.u32_to_string made.1;
                rev_reg_id = s.rev_reg_id;
                tails_file = s.tails_file;
              });
            });
          }))
          (λ e. do
            report ← perform (build_problem_report_msg R (some (to_string e)) self.thread_id)
            pure (record self { state = finished (from_request_and_error s report) }))
    | _ ↦ throw (from_msg not_ready "Invalid action")
  ]

  unfoldable pub receive_ack : IssuerSm → AckCredentialV1 → VcxResult IssuerSm
  receive_ack self msg = and_then (verify_thread_id R self.thread_id (issuance_v1 (ack msg))) λ _.
      ok (record self {
        state = elim self.state [
          | credential_set s ↦ finished (from_credential_set_state s)
          | s ↦ s
        ];
      })

  unfoldable pub receive_problem_report : IssuerSm → ProblemReport → VcxResult IssuerSm
  receive_problem_report self report =
      and_then (verify_thread_id R self.thread_id (report_problem report)) λ _. ok (record self {
        state = elim self.state [
          | offer_set s ↦ finished (from_offer_set_and_error s report)
          | credential_set s ↦ finished (from_credential_set_state s)
          | s ↦ s
        ];
      })
