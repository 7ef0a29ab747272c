-- ===== src/Messages/Connection.antt =====
-- aries/messages/src/msg_fields/protocols/connection: the messages of the connection protocol. A
-- URL and a DID stand for their texts.
use instnt_aries_vcx.Base.{String, Option, List}
use instnt_aries_vcx.Messages.Parts.{MsgParts, Thread, Timing, PleaseAck}
use instnt_aries_vcx.DidDoc.Doc.{AriesDidDoc}

pub record PublicInvitationContent : Type 0 where
  pub label : String
  pub did : String

pub record PwInvitationContent (T : Type 0) : Type 0 where
  pub label : String
  pub recipient_keys : List String
  pub routing_keys : List String
  pub service_endpoint : T

pub data InvitationContent : Type 0 where
  public : PublicInvitationContent → InvitationContent
  pairwise_did : PwInvitationContent String → InvitationContent
  pairwise : PwInvitationContent String → InvitationContent

pub record InvitationDecorators : Type 0 where
  pub timing : Option Timing

abbrev pub Invitation : Type 0
Invitation = MsgParts InvitationContent InvitationDecorators

pub record ConnectionData : Type 0 where
  pub did : String
  pub did_doc : AriesDidDoc

pub record RequestContent : Type 0 where
  pub label : String
  pub connection : ConnectionData

pub record RequestDecorators : Type 0 where
  pub thread : Option Thread
  pub timing : Option Timing

abbrev pub Request : Type 0
Request = MsgParts RequestContent RequestDecorators

-- The type of the signature is always the same.
pub record ConnectionSignature : Type 0 where
  pub signature : String
  pub sig_data : String
  pub signer : String

pub record ResponseContent : Type 0 where
  pub connection_sig : ConnectionSignature

pub record ResponseDecorators : Type 0 where
  pub thread : Thread
  pub please_ack : Option PleaseAck
  pub timing : Option Timing

abbrev pub Response : Type 0
Response = MsgParts ResponseContent ResponseDecorators
