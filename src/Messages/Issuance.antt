-- ===== src/Messages/Issuance.antt =====
-- aries/messages/src/msg_fields/protocols/cred_issuance/: the messages of `issue-credential` 1.0.
use instnt_aries_vcx.Base.{String, Option, List}
use instnt_aries_vcx.Messages.Parts.{
  MsgParts, MimeType, Attachment, OptThreadDecorators, AnswerDecorators, AckContent, AckDecorators,
  ProblemReportContent, ProblemReportDecorators,
}

pub record CredentialAttr : Type 0 where
  pub name : String
  pub value : String
  pub mime_type : Option MimeType

pub record CredentialPreviewV1 : Type 0 where
  pub attributes : List CredentialAttr

pub record OfferCredentialV1Content : Type 0 where
  pub comment : Option String
  pub credential_preview : CredentialPreviewV1
  pub offers_attach : List Attachment

abbrev pub OfferCredentialV1 : Type 0
OfferCredentialV1 = MsgParts OfferCredentialV1Content OptThreadDecorators

pub record ProposeCredentialV1Content : Type 0 where
  pub comment : Option String
  pub credential_proposal : CredentialPreviewV1
  pub schema_id : String
  pub cred_def_id : String

abbrev pub ProposeCredentialV1 : Type 0
ProposeCredentialV1 = MsgParts ProposeCredentialV1Content OptThreadDecorators

pub record RequestCredentialV1Content : Type 0 where
  pub comment : Option String
  pub requests_attach : List Attachment

abbrev pub RequestCredentialV1 : Type 0
RequestCredentialV1 = MsgParts RequestCredentialV1Content OptThreadDecorators

pub record IssueCredentialV1Content : Type 0 where
  pub comment : Option String
  pub credentials_attach : List Attachment

abbrev pub IssueCredentialV1 : Type 0
IssueCredentialV1 = MsgParts IssueCredentialV1Content AnswerDecorators

pub record AckCredentialV1Content : Type 0 where
  pub inner : AckContent

abbrev pub AckCredentialV1 : Type 0
AckCredentialV1 = MsgParts AckCredentialV1Content AckDecorators

pub record CredIssuanceV1ProblemReportContent : Type 0 where
  pub inner : ProblemReportContent

abbrev pub CredIssuanceV1ProblemReport : Type 0
CredIssuanceV1ProblemReport = MsgParts CredIssuanceV1ProblemReportContent ProblemReportDecorators

pub data CredentialIssuanceV1 : Type 0 where
  offer_credential : OfferCredentialV1 → CredentialIssuanceV1
  propose_credential : ProposeCredentialV1 → CredentialIssuanceV1
  request_credential : RequestCredentialV1 → CredentialIssuanceV1
  issue_credential : IssueCredentialV1 → CredentialIssuanceV1
  ack : AckCredentialV1 → CredentialIssuanceV1
  problem_report : CredIssuanceV1ProblemReport → CredentialIssuanceV1
