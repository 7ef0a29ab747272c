-- ===== src/Issuance/Issuer/States.antt =====
-- protocols/issuance/issuer/states/*.rs, the types at the head of issuer/state_machine.rs, and
-- `OfferInfo` of handlers/util.rs.
use instnt_aries_vcx.Base.{String, Option, none, some}
use instnt_aries_vcx.Messages.Parts.{ProblemReport}
use instnt_aries_vcx.Messages.Issuance.{
  OfferCredentialV1, ProposeCredentialV1, RequestCredentialV1, IssueCredentialV1,
}
use instnt_aries_vcx.Util.Report.{Status, success}

pub record OfferInfo : Type 0 where
  pub credential_json : String
  pub cred_def_id : String
  pub rev_reg_id : Option String
  pub tails_file : Option String

pub record RevocationInfoV1 : Type 0 where
  pub cred_rev_id : Option String
  pub rev_reg_id : Option String
  pub tails_file : Option String

pub record ProposalReceivedState : Type 0 where
  pub credential_proposal : ProposeCredentialV1
  pub offer_info : Option OfferInfo

pub record OfferSetState : Type 0 where
  pub offer : OfferCredentialV1
  pub credential_json : String
  pub cred_def_id : String
  pub rev_reg_id : Option String
  pub tails_file : Option String

pub record RequestReceivedState : Type 0 where
  pub offer : OfferCredentialV1
  pub cred_data : String
  pub rev_reg_id : Option String
  pub tails_file : Option String
  pub request : RequestCredentialV1

pub record CredentialSetState : Type 0 where
  pub revocation_info_v1 : Option RevocationInfoV1
  pub msg_issue_credential : IssueCredentialV1

pub record FinishedState : Type 0 where
  pub cred_id : Option String
  pub revocation_info_v1 : Option RevocationInfoV1
  pub status : Status

pub data IssuerFullState : Type 0 where
  initial : IssuerFullState
  offer_set : OfferSetState → IssuerFullState
  proposal_received : ProposalReceivedState → IssuerFullState
  request_received : RequestReceivedState → IssuerFullState
  credential_set : CredentialSetState → IssuerFullState
  finished : FinishedState → IssuerFullState

pub data IssuerState : Type 0 where
  initial offer_set proposal_received request_received credential_set finished failed : IssuerState

pub record IssuerSm : Type 0 where
  pub source_id : String
  pub thread_id : String
  pub state : IssuerFullState

-- `RequestReceivedState::from_offer_set_and_request`
abbrev pub from_offer_set_and_request : OfferSetState → RequestCredentialV1 → RequestReceivedState
from_offer_set_and_request s request = record {
  offer = s.offer;
  cred_data = s.credential_json;
  rev_reg_id = s.rev_reg_id;
  tails_file = s.tails_file;
  request = request;
}

-- A failure keeps what was known of the registry, with no credential revocation id.
abbrev refused : Option String → Option String → ProblemReport → FinishedState
refused rev_reg_id tails_file report = record {
  cred_id = none;
  revocation_info_v1 =
      some (record { cred_rev_id = none; rev_reg_id = rev_reg_id; tails_file = tails_file });
  status = Status.failed report;
}

abbrev pub from_offer_set_and_error : OfferSetState → ProblemReport → FinishedState
from_offer_set_and_error s report = refused s.rev_reg_id s.tails_file report

abbrev pub from_request_and_error : RequestReceivedState → ProblemReport → FinishedState
from_request_and_error s report = refused s.rev_reg_id s.tails_file report

abbrev pub from_credential_set_state : CredentialSetState → FinishedState
from_credential_set_state s = record {
  cred_id = none;
  revocation_info_v1 = s.revocation_info_v1;
  status = success;
}

abbrev pub get_state : IssuerSm → IssuerState
get_state self = elim self.state [
  | initial ↦ IssuerState.initial
  | proposal_received _ ↦ IssuerState.proposal_received
  | offer_set _ ↦ IssuerState.offer_set
  | request_received _ ↦ IssuerState.request_received
  | credential_set _ ↦ IssuerState.credential_set
  | finished s ↦ elim s.status [ success ↦ IssuerState.finished | _ ↦ IssuerState.failed ]
]
