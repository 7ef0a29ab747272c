-- ===== src/Revocation/Sender.antt =====
-- protocols/revocation_notification/sender: the issuer's side. `send_message` is the closure that
-- the caller passes.
use Prim.Native.String.{◌++◌}
use instnt_aries_vcx.Base.{
  ℕ, String, Bool, true, false, not, Option, none, some, List, [], ◌∷◌, if◌then◌else◌, and_then, ok,
  pure, throw, perform, ◌>>=◌,
}
use instnt_aries_vcx.Errors.{VcxResult, from_msg, fail, invalid_state}
use instnt_aries_vcx.Messages.Parts.{AckOn, PleaseAck, Thread, known}
use instnt_aries_vcx.Messages.Revocation.{Revoke, AckRevoke, indy_anoncreds}
use instnt_aries_vcx.Messages.Aries.{AriesMessage, Revocation}
use instnt_aries_vcx.Runtime.{Runtime, Vcx}
use instnt_aries_vcx.Util.Thread.{verify_thread_id}

pub record NotificationSentState : Type 0 where
  pub rev_msg : Revoke

pub record FinishedState : Type 0 where
  pub rev_msg : Revoke
  pub ack : Option AckRevoke

pub data SenderFullState : Type 0 where
  initial : SenderFullState
  notification_sent : NotificationSentState → SenderFullState
  finished : FinishedState → SenderFullState

pub record RevocationNotificationSenderSm : Type 0 where
  pub state : SenderFullState

pub record SenderConfig : Type 0 where
  pub rev_reg_id : String
  pub cred_rev_id : ℕ
  pub comment : Option String
  pub ack_on : List AckOn

abbrev pub create : RevocationNotificationSenderSm
create = record { state = initial }

abbrev pub thid_or : Option Thread → String → String
thid_or none id = id
thid_or (some t) id = t.thid

-- `get_thread_id` of the states
abbrev pub thread_of_revoke : Revoke → String
thread_of_revoke msg = thid_or msg.decorators.thread msg.id

abbrev is_empty : List AckOn → Bool
is_empty [] = true
is_empty (_ ∷ _) = false

-- `please_ack.as_ref().map(|d| d.on.is_empty()).unwrap_or(false)`
abbrev pub asks_for_none : Option PleaseAck → Bool
asks_for_none none = false
asks_for_none (some p) = is_empty p.on

unfoldable pub get_notification : RevocationNotificationSenderSm → VcxResult Revoke
get_notification self = elim self.state [
  | notification_sent s ↦ ok s.rev_msg
  | finished s ↦ ok s.rev_msg
  | initial ↦ fail invalid_state "Revocation notification not yet known in this state"
]

module _ (R : Runtime) where
  -- The notification that `send` builds, with the given identifier.
  abbrev pub notification : SenderConfig → String → Revoke
  notification config id = record {
    id = id;
    content = record {
      credential_id = config.rev_reg_id ++ ("::" ++ R.u32_to_string config.cred_rev_id);
      revocation_format = known indy_anoncreds;
      comment = config.comment;
    };
    decorators = record {
      please_ack = some (record { on = config.ack_on });
      timing = none;
      thread = none;
    };
  }

  abbrev sent_state : Revoke → SenderFullState
  sent_state msg =
      if not (asks_for_none msg.decorators.please_ack)
      then finished (record { rev_msg = msg; ack = none })
      else notification_sent (record { rev_msg = msg })

  abbrev send_new :
      SenderConfig → (AriesMessage → Vcx R Unit) → Vcx R RevocationNotificationSenderSm
  send_new config send_message = do
    id ← perform R.new_v4
    let msg = notification config id
    _ ← send_message (AriesMessage.revocation (Revocation.revoke msg))
    pure (record { state = sent_state msg })

  unfoldable pub send :
      RevocationNotificationSenderSm
      → SenderConfig
      → (AriesMessage → Vcx R Unit)
      → Vcx R RevocationNotificationSenderSm
  send self config send_message = elim self.state [
    | initial ↦ send_new config send_message
    | notification_sent _ ↦ send_new config send_message
    | finished _ ↦ throw (from_msg invalid_state "Ack already received")
  ]

  unfoldable pub handle_ack :
      RevocationNotificationSenderSm → AckRevoke → VcxResult RevocationNotificationSenderSm
  handle_ack self a = elim self.state [
    | notification_sent s ↦
        if asks_for_none s.rev_msg.decorators.please_ack
        then and_then
            (verify_thread_id R (thread_of_revoke s.rev_msg)
              (AriesMessage.revocation (Revocation.ack a)))
            (λ _. ok (record { state = finished (record { rev_msg = s.rev_msg; ack = some a }) }))
        else fail invalid_state "Ack not expected in this state"
    | _ ↦ fail invalid_state "Ack not expected in this state"
  ]
