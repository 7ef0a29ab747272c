-- ===== src/Connection/InviterStates.antt =====
-- connection/inviter/states. A protocol descriptor stands for its text.
use instnt_aries_vcx.Base.{String, Option, List}
use instnt_aries_vcx.DidDoc.Doc.{AriesDidDoc}
use instnt_aries_vcx.Messages.Connection.{Response}
use instnt_aries_vcx.Connection.States.{AnyInvitation, Inviter, Connection}

pub data Initial : Type 0 where
  initial : Initial

pub record Invited : Type 0 where
  pub invitation : AnyInvitation

pub record Requested : Type 0 where
  pub signed_response : Response
  pub did_doc : AriesDidDoc

pub record Completed : Type 0 where
  pub did_doc : AriesDidDoc
  pub thread_id : String
  pub protocols : Option (List String)

abbrev pub InviterConnection : Type 0 → Type 0
InviterConnection S = Connection Inviter S
