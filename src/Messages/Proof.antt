-- ===== src/Messages/Proof.antt =====
-- aries/messages/src/msg_fields/protocols/present_proof/v1: the messages of `present-proof` 1.0.
use instnt_aries_vcx.Base.{ℕ, String, Option, List}
use instnt_aries_vcx.Messages.Parts.{
  MsgParts, MimeType, Attachment, OptThreadDecorators, AnswerDecorators, AckContent, AckDecorators,
  ProblemReportContent, ProblemReportDecorators,
}

pub record PresentationAttr : Type 0 where
  pub name : String
  pub cred_def_id : Option String
  pub mime_type : Option MimeType
  pub value : Option String
  pub referent : Option String

pub data PredicateOperator : Type 0 where
  greater_or_equal less_or_equal greater_than less_than : PredicateOperator

pub record Referent : Type 0 where
  pub cred_def_id : String
  pub referent : String

-- An `i64`: `negative n` is -(n + 1).
pub data Threshold : Type 0 where
  nonnegative negative : ℕ → Threshold

pub record Predicate : Type 0 where
  pub name : String
  pub predicate : PredicateOperator
  pub threshold : Threshold
  pub referent : Option Referent

pub record PresentationPreview : Type 0 where
  pub attributes : List PresentationAttr
  pub predicates : List Predicate

pub record ProposePresentationV1Content : Type 0 where
  pub comment : Option String
  pub presentation_proposal : PresentationPreview

abbrev pub ProposePresentationV1 : Type 0
ProposePresentationV1 = MsgParts ProposePresentationV1Content OptThreadDecorators

pub record RequestPresentationV1Content : Type 0 where
  pub comment : Option String
  pub request_presentations_attach : List Attachment

abbrev pub RequestPresentationV1 : Type 0
RequestPresentationV1 = MsgParts RequestPresentationV1Content OptThreadDecorators

pub record PresentationV1Content : Type 0 where
  pub comment : Option String
  pub presentations_attach : List Attachment

abbrev pub PresentationV1 : Type 0
PresentationV1 = MsgParts PresentationV1Content AnswerDecorators

pub record AckPresentationV1Content : Type 0 where
  pub inner : AckContent

abbrev pub AckPresentationV1 : Type 0
AckPresentationV1 = MsgParts AckPresentationV1Content AckDecorators

pub record PresentProofV1ProblemReportContent : Type 0 where
  pub inner : ProblemReportContent

abbrev pub PresentProofV1ProblemReport : Type 0
PresentProofV1ProblemReport = MsgParts PresentProofV1ProblemReportContent ProblemReportDecorators

pub data PresentProofV1 : Type 0 where
  propose_presentation : ProposePresentationV1 → PresentProofV1
  request_presentation : RequestPresentationV1 → PresentProofV1
  presentation : PresentationV1 → PresentProofV1
  ack : AckPresentationV1 → PresentProofV1
  problem_report : PresentProofV1ProblemReport → PresentProofV1
