-- ===== src/Issuance/Holder/States.antt =====
-- protocols/issuance/holder/states/*.rs, and the types at the head of holder/state_machine.rs.
use instnt_aries_vcx.Base.{String, Bool, Option, none, some, is_some}
use instnt_aries_vcx.Messages.Parts.{ProblemReport}
use instnt_aries_vcx.Messages.Issuance.{
  OfferCredentialV1, ProposeCredentialV1, RequestCredentialV1, IssueCredentialV1,
}
use instnt_aries_vcx.Util.Report.{Status, success}

pub record ProposalSetState : Type 0 where
  pub credential_proposal : ProposeCredentialV1

pub record OfferReceivedState : Type 0 where
  pub offer : OfferCredentialV1

pub record RequestSetState : Type 0 where
  pub req_meta : String
  pub cred_def_json : String
  pub schema_id : String
  pub msg_credential_request : RequestCredentialV1

pub record FinishedHolderState : Type 0 where
  pub cred_id : Option String
  pub credential : Option IssueCredentialV1
  pub status : Status
  pub rev_reg_def_json : Option String
  pub ack_requested : Option Bool

pub data HolderFullState : Type 0 where
  initial : HolderFullState
  proposal_set : ProposalSetState → HolderFullState
  offer_received : OfferReceivedState → HolderFullState
  request_set : RequestSetState → HolderFullState
  finished : FinishedHolderState → HolderFullState

pub data HolderState : Type 0 where
  initial proposal_set offer_received request_set finished failed : HolderState

pub record HolderSm : Type 0 where
  pub state : HolderFullState
  pub source_id : String
  pub thread_id : String

-- `FinishedHolderState::new`
abbrev pub refused : ProblemReport → FinishedHolderState
refused report = record {
  cred_id = none;
  credential = none;
  status = Status.failed report;
  rev_reg_def_json = none;
  ack_requested = none;
}

-- `From<(RequestSetState, String, IssueCredentialV1, Option<String>)>`
abbrev pub stored :
    RequestSetState → String → IssueCredentialV1 → Option String → FinishedHolderState
stored _ id msg rev_reg_def = record {
  cred_id = some id;
  credential = some msg;
  status = success;
  rev_reg_def_json = rev_reg_def;
  ack_requested = some (is_some msg.decorators.please_ack);
}

abbrev pub get_state : HolderSm → HolderState
get_state self = elim self.state [
  | initial ↦ HolderState.initial
  | proposal_set _ ↦ HolderState.proposal_set
  | offer_received _ ↦ HolderState.offer_received
  | request_set _ ↦ HolderState.request_set
  | finished s ↦ elim s.status [ success ↦ HolderState.finished | _ ↦ HolderState.failed ]
]
