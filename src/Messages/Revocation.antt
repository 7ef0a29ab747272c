-- ===== src/Messages/Revocation.antt =====
-- aries/messages/src/msg_fields/protocols/revocation: the messages of `revocation_notification`
-- 2.0.
use instnt_aries_vcx.Base.{String, Option}
use instnt_aries_vcx.Messages.Parts.{
  MsgParts, MaybeKnown, PleaseAck, Thread, Timing, AckContent, AckDecorators,
}

pub data RevocationFormat : Type 0 where
  indy_anoncreds : RevocationFormat

pub record RevokeContent : Type 0 where
  pub credential_id : String
  pub revocation_format : MaybeKnown RevocationFormat
  pub comment : Option String

pub record RevokeDecorators : Type 0 where
  pub please_ack : Option PleaseAck
  pub timing : Option Timing
  pub thread : Option Thread

abbrev pub Revoke : Type 0
Revoke = MsgParts RevokeContent RevokeDecorators

pub record AckRevokeContent : Type 0 where
  pub inner : AckContent

abbrev pub AckRevoke : Type 0
AckRevoke = MsgParts AckRevokeContent AckDecorators
