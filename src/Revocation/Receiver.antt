-- ===== src/Revocation/Receiver.antt =====
-- protocols/revocation_notification/receiver: the holder's side. `send_message` is the closure that
-- the caller passes.
use instnt_aries_vcx.Base.{
  ℕ, String, Bool, true, false, not, ◌||◌, ◌==◌, nat_eq, Option, none, some, List, [], ◌∷◌,
  if◌then◌else◌, and_then, ok, pure, throw, perform, ◌>>=◌,
}
use instnt_aries_vcx.Errors.{VcxResult, from_msg, fail, invalid_state, invalid_revocation_details}
use instnt_aries_vcx.Messages.Parts.{
  AckOn, PleaseAck, MaybeKnown, known, unknown, AckStatus, thread_of, timing_of,
}
use instnt_aries_vcx.Messages.Revocation.{Revoke, RevocationFormat}
use instnt_aries_vcx.Messages.Aries.{AriesMessage, Revocation}
use instnt_aries_vcx.Runtime.{Runtime, Vcx, converted}
use instnt_aries_vcx.Revocation.Sender.{asks_for_none, thread_of_revoke}

pub record NotificationReceivedState : Type 0 where
  pub rev_msg : Revoke

pub record FinishedState : Type 0 where
  pub rev_msg : Revoke

pub data ReceiverFullState : Type 0 where
  initial : ReceiverFullState
  notification_received : NotificationReceivedState → ReceiverFullState
  finished : FinishedState → ReceiverFullState

pub record RevocationNotificationReceiverSm : Type 0 where
  pub state : ReceiverFullState
  pub rev_reg_id : String
  pub cred_rev_id : ℕ

unfoldable pub create : String → ℕ → RevocationNotificationReceiverSm
create rev_reg_id cred_rev_id = record {
  state = initial;
  rev_reg_id = rev_reg_id;
  cred_rev_id = cred_rev_id;
}

abbrev contains_receipt : List AckOn → Bool
contains_receipt [] = false
contains_receipt (AckOn.receipt ∷ _) = true
contains_receipt (AckOn.outcome ∷ on) = contains_receipt on

-- `please_ack.as_ref().map(|d| d.on.contains(&AckOn::Receipt)).unwrap_or(false)`
abbrev asks_for_receipt : Option PleaseAck → Bool
asks_for_receipt none = false
asks_for_receipt (some p) = contains_receipt p.on

module _ (R : Runtime) where
  abbrev check_rev_format : MaybeKnown RevocationFormat → VcxResult Unit
  check_rev_format (known _) = ok tt
  check_rev_format (unknown _) =
      fail invalid_revocation_details
        "Received revocation notification with unsupported revocation format, only IndyAnoncreds supported"

  abbrev pub check_rev_reg_id : String → List String → VcxResult Unit
  check_rev_reg_id own [] =
      fail invalid_revocation_details "Invalid credential ID, missing revocation registry ID"
  check_rev_reg_id own (id ∷ _) =
      if not (id == own)
      then fail invalid_revocation_details
          "Revocation registry ID in received notification does not match revocation registry ID of this credential"
      else ok tt

  abbrev pub check_cred_rev_id : ℕ → List String → VcxResult Unit
  check_cred_rev_id own (_ ∷ id ∷ _) = and_then (converted R (R.parse_u32 id)) λ n.
      if not (nat_eq n own)
      then fail invalid_revocation_details
          "Credential revocation ID in received notification does not match revocation ID of this credential"
      else ok tt
  check_cred_rev_id own _ =
      fail invalid_revocation_details "Invalid credential ID, missing revocation registry ID"

  unfoldable pub validate_revocation_notification :
      RevocationNotificationReceiverSm → Revoke → VcxResult Unit
  validate_revocation_notification self msg =
      let parts = R.split msg.content.credential_id "::" in
      and_then (check_rev_format msg.content.revocation_format) λ _.
        and_then (check_rev_reg_id self.rev_reg_id parts)
          λ _. check_cred_rev_id self.cred_rev_id parts

  abbrev received_state : Revoke → ReceiverFullState
  received_state msg =
      if not (asks_for_none msg.decorators.please_ack) || asks_for_receipt msg.decorators.please_ack
      then finished (record { rev_msg = msg })
      else notification_received (record { rev_msg = msg })

  unfoldable pub handle_revocation_notification :
      RevocationNotificationReceiverSm → Revoke → VcxResult RevocationNotificationReceiverSm
  handle_revocation_notification self msg = elim self.state [
    | initial ↦
        and_then (validate_revocation_notification self msg)
          (λ _. ok (record self { state = received_state msg }))
    | _ ↦ fail invalid_state "Ack already received"
  ]

  abbrev acknowledge :
      RevocationNotificationReceiverSm
      → Revoke
      → (AriesMessage → Vcx R Unit)
      → Vcx R RevocationNotificationReceiverSm
  acknowledge self msg send_message = do
    id ← perform R.new_v4
    now ← perform R.utc_now
    _ ← send_message (
        AriesMessage.revocation (
          Revocation.ack (record {
            id = id;
            content = record { inner = record { status = AckStatus.accepted } };
            decorators = record {
              thread = thread_of (thread_of_revoke msg);
              timing = some (timing_of now);
            };
          })))
    pure (record self { state = finished (record { rev_msg = msg }) })

  unfoldable pub send_ack :
      RevocationNotificationReceiverSm
      → (AriesMessage → Vcx R Unit)
      → Vcx R RevocationNotificationReceiverSm
  send_ack self send_message = elim self.state [
    | notification_received s ↦ acknowledge self s.rev_msg send_message
    | finished s ↦ acknowledge self s.rev_msg send_message
    | initial ↦ throw (from_msg invalid_state "Ack already sent")
  ]
