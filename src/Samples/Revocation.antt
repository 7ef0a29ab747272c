-- ===== src/Samples/Revocation.antt =====
-- The theorems on the revocation notification, at concrete machines.
use instnt_aries_vcx.Base.{◌≡◌, refl, none, [], ◌∷◌, true, false, is_ok, ok, Ensures, arith}
use instnt_aries_vcx.Messages.Parts.{AckOn, AckStatus, thread_of}
use instnt_aries_vcx.Messages.Revocation.{Revoke, AckRevoke}
use instnt_aries_vcx.Messages.Aries.{AriesMessage}
use instnt_aries_vcx.Runtime.{Vcx}
use instnt_aries_vcx.Revocation.Sender.{SenderConfig, notification, send, handle_ack}
use instnt_aries_vcx.Revocation.Sender
use instnt_aries_vcx.Revocation.Receiver.{
  create, handle_revocation_notification, validate_revocation_notification,
}
use instnt_aries_vcx.Revocation.Exchange.{IsFor, notification_taken, taken-IsFor, asked_ack_refused}
use instnt_aries_vcx.Samples.World.{sample, sample-Decimal, sample-Splitting}

abbrev config : SenderConfig
config = record { rev_reg_id = "g:4"; cred_rev_id = 2; comment = none; ack_on = AckOn.receipt ∷ [] }

abbrev message : Revoke
message = notification sample config "i"

abbrev deliver : AriesMessage → Vcx sample Unit
deliver _ w = (ok tt, w)

abbrev acknowledgement : AckRevoke
acknowledgement = record {
  id = "k";
  content = record { inner = record { status = AckStatus.accepted } };
  decorators = record { thread = thread_of "i"; timing = none };
}

notification_taken_example :
    is_ok (handle_revocation_notification sample (create "g:4" 2) message) ≡ true
notification_taken_example =
    notification_taken sample sample-Decimal sample-Splitting config "i" (omega arith) refl

taken-IsFor_example : IsFor sample "g:4" 2 ("g:4" ∷ "aab" ∷ [])
unfolding handle_revocation_notification validate_revocation_notification create
taken-IsFor_example = taken-IsFor sample "g:4" 2 message refl

asked_ack_refused_example :
    Ensures
      (λ sent. is_ok (handle_ack sample sent acknowledgement) ≡ false)
      (send sample Sender.create config deliver 0).0
asked_ack_refused_example =
    asked_ack_refused sample Sender.create config AckOn.receipt [] deliver acknowledgement 0 refl
