-- ===== src/Connection/InviteeStates.antt =====
-- connection/invitee/states. A protocol descriptor stands for its text.
use instnt_aries_vcx.Base.{String, Option, List}
use instnt_aries_vcx.DidDoc.Doc.{AriesDidDoc}
use instnt_aries_vcx.Messages.Connection.{Request}
use instnt_aries_vcx.Connection.States.{AnyInvitation, Invitee, Connection}

pub data Initial : Type 0 where
  initial : Initial

pub record Invited : Type 0 where
  pub did_doc : AriesDidDoc
  pub invitation : AnyInvitation

pub record Requested : Type 0 where
  pub did_doc : AriesDidDoc
  pub thread_id : String
  pub request : Request

pub record Completed : Type 0 where
  pub did_doc : AriesDidDoc
  pub bootstrap_did_doc : AriesDidDoc
  pub thread_id : String
  pub protocols : Option (List String)

abbrev pub InviteeConnection : Type 0 → Type 0
InviteeConnection S = Connection Invitee S
