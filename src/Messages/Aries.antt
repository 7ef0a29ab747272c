-- ===== src/Messages/Aries.antt =====
-- aries/messages/src/lib.rs and the `mod.rs` of each protocol: the sum of all messages.
-- The messages of the protocols that the development does not go into carry their own fields as
-- JSON text; their identifier and their thread stand as in the source.
use instnt_aries_vcx.Base.{String}
use instnt_aries_vcx.Messages.Parts.{
  MsgParts, Thread, OptThreadDecorators, ProblemReport, ProblemReportContent,
  ProblemReportDecorators, Ack,
}
use instnt_aries_vcx.Messages.Connection.{Invitation, Request, Response}
use instnt_aries_vcx.Messages.Issuance.{CredentialIssuanceV1}
use instnt_aries_vcx.Messages.Proof.{PresentProofV1}
use instnt_aries_vcx.Messages.Revocation.{Revoke, AckRevoke}

-- `NoDecorators`, or decorators without a thread.
pub record Undecorated : Type 0 where
  pub extra : String

-- A required `~thread`.
pub record ThreadDecorators : Type 0 where
  pub thread : Thread
  pub extra : String

abbrev pub OtherMessage : Type 0 → Type 0
OtherMessage D = MsgParts String D

pub data Connection : Type 0 where
  invitation : Invitation → Connection
  request : Request → Connection
  response : Response → Connection
  problem_report : OtherMessage ThreadDecorators → Connection

pub data Revocation : Type 0 where
  revoke : Revoke → Revocation
  ack : AckRevoke → Revocation

pub data CredentialIssuanceV2 : Type 0 where
  offer_credential : OtherMessage OptThreadDecorators → CredentialIssuanceV2
  propose_credential : OtherMessage OptThreadDecorators → CredentialIssuanceV2
  request_credential : OtherMessage OptThreadDecorators → CredentialIssuanceV2
  issue_credential : OtherMessage ThreadDecorators → CredentialIssuanceV2
  ack : OtherMessage ThreadDecorators → CredentialIssuanceV2
  problem_report : OtherMessage OptThreadDecorators → CredentialIssuanceV2

pub data PresentProofV2 : Type 0 where
  propose_presentation : OtherMessage OptThreadDecorators → PresentProofV2
  request_presentation : OtherMessage OptThreadDecorators → PresentProofV2
  presentation : OtherMessage ThreadDecorators → PresentProofV2
  ack : OtherMessage ThreadDecorators → PresentProofV2
  problem_report : OtherMessage OptThreadDecorators → PresentProofV2

pub data TrustPing : Type 0 where
  ping : OtherMessage OptThreadDecorators → TrustPing
  ping_response : OtherMessage ThreadDecorators → TrustPing

pub data DiscoverFeatures : Type 0 where
  query : OtherMessage Undecorated → DiscoverFeatures
  disclose : OtherMessage ThreadDecorators → DiscoverFeatures

pub data OutOfBand : Type 0 where
  invitation : OtherMessage Undecorated → OutOfBand
  handshake_reuse : OtherMessage ThreadDecorators → OutOfBand
  handshake_reuse_accepted : OtherMessage ThreadDecorators → OutOfBand

pub record NotificationProblemReportContent : Type 0 where
  pub inner : ProblemReportContent

abbrev pub NotificationProblemReport : Type 0
NotificationProblemReport = MsgParts NotificationProblemReportContent ProblemReportDecorators

pub data Notification : Type 0 where
  ack : Ack → Notification
  problem_report : NotificationProblemReport → Notification

pub data Pickup : Type 0 where
  status : OtherMessage OptThreadDecorators → Pickup
  status_request : OtherMessage OptThreadDecorators → Pickup
  delivery_request : OtherMessage OptThreadDecorators → Pickup
  delivery : OtherMessage OptThreadDecorators → Pickup
  messages_received : OtherMessage OptThreadDecorators → Pickup
  live_delivery_change : OtherMessage OptThreadDecorators → Pickup

pub data CoordinateMediation : Type 0 where
  mediate_request : OtherMessage OptThreadDecorators → CoordinateMediation
  mediate_deny : OtherMessage OptThreadDecorators → CoordinateMediation
  mediate_grant : OtherMessage OptThreadDecorators → CoordinateMediation
  keylist_update : OtherMessage OptThreadDecorators → CoordinateMediation
  keylist_update_response : OtherMessage OptThreadDecorators → CoordinateMediation
  keylist_query : OtherMessage OptThreadDecorators → CoordinateMediation
  keylist : OtherMessage OptThreadDecorators → CoordinateMediation

pub data DidExchangeV10 : Type 0 where
  request : OtherMessage OptThreadDecorators → DidExchangeV10
  response : OtherMessage ThreadDecorators → DidExchangeV10
  problem_report : OtherMessage ThreadDecorators → DidExchangeV10
  complete : OtherMessage ThreadDecorators → DidExchangeV10

pub data DidExchangeV11 : Type 0 where
  request : OtherMessage OptThreadDecorators → DidExchangeV11
  response : OtherMessage ThreadDecorators → DidExchangeV11
  problem_report : OtherMessage ThreadDecorators → DidExchangeV11
  complete : OtherMessage ThreadDecorators → DidExchangeV11

pub data CredentialIssuance : Type 0 where
  v1 : CredentialIssuanceV1 → CredentialIssuance
  v2 : CredentialIssuanceV2 → CredentialIssuance

pub data PresentProof : Type 0 where
  v1 : PresentProofV1 → PresentProof
  v2 : PresentProofV2 → PresentProof

pub data DidExchange : Type 0 where
  v1_0 : DidExchangeV10 → DidExchange
  v1_1 : DidExchangeV11 → DidExchange

pub data AriesMessage : Type 0 where
  routing : OtherMessage Undecorated → AriesMessage
  connection : Connection → AriesMessage
  revocation : Revocation → AriesMessage
  credential_issuance : CredentialIssuance → AriesMessage
  report_problem : ProblemReport → AriesMessage
  present_proof : PresentProof → AriesMessage
  trust_ping : TrustPing → AriesMessage
  discover_features : DiscoverFeatures → AriesMessage
  basic_message : OtherMessage OptThreadDecorators → AriesMessage
  out_of_band : OutOfBand → AriesMessage
  notification : Notification → AriesMessage
  pickup : Pickup → AriesMessage
  coordinate_mediation : CoordinateMediation → AriesMessage
  did_exchange : DidExchange → AriesMessage

-- The `From` instances that `.into()` calls.
abbrev pub issuance_v1 : CredentialIssuanceV1 → AriesMessage
issuance_v1 m = credential_issuance (CredentialIssuance.v1 m)

abbrev pub proof_v1 : PresentProofV1 → AriesMessage
proof_v1 m = present_proof (PresentProof.v1 m)

-- `report.into()`, from the problem report of a protocol to the general one.
abbrev pub general :
    {C D : Type 0} → (C → ProblemReportContent) → MsgParts C D → MsgParts ProblemReportContent D
general inner report = record {
  id = report.id;
  content = inner report.content;
  decorators = report.decorators;
}
