-- ===== src/Connection/States.antt =====
-- connection/mod.rs, pairwise_info.rs and initiation_type.rs, and `AnyInvitation` of
-- handlers/util.rs: what the states of both parties share.
use instnt_aries_vcx.Base.{String}
use instnt_aries_vcx.Messages.Connection.{Invitation}
use instnt_aries_vcx.Messages.Aries.{OtherMessage, Undecorated}
use instnt_aries_vcx.Runtime.{Runtime, Vcx, call}
use instnt_aries_vcx.Base.{pure, ◌>>=◌}

pub data AnyInvitation : Type 0 where
  con : Invitation → AnyInvitation
  oob : OtherMessage Undecorated → AnyInvitation

-- `ThreadId for Invited`, of both parties
abbrev pub invitation_id : AnyInvitation → String
invitation_id (con i) = i.id
invitation_id (oob i) = i.id

pub record PairwiseInfo : Type 0 where
  pub pw_did : String
  pub pw_vk : String

pub data Inviter : Type 0 where
  as_inviter : Inviter

pub data Invitee : Type 0 where
  as_invitee : Invitee

pub record Connection (I S : Type 0) : Type 0 where
  pub source_id : String
  pub pairwise_info : PairwiseInfo
  pub initiation_type : I
  pub state : S

-- `PairwiseInfo::create`
unfoldable pub create : (R : Runtime) → Vcx R PairwiseInfo
create R = do
  did_data ← call R R.create_and_store_my_did
  pure (record { pw_did = did_data.0; pw_vk = did_data.1 })
