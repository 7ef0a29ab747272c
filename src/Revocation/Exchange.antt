-- ===== src/Revocation/Exchange.antt =====
-- The two machines of the revocation notification together.
use Prim.Native.Nat.{◌^◌}
use Prim.Native.String.{◌++◌}
use instnt_aries_vcx.Base.{
  ℕ, String, ◌≡◌, ◌<◌, and_then, List, [], ◌∷◌, ok, is_ok, false, true, Ensures, arith, eq_refl,
  eq_iff,
}
use instnt_aries_vcx.Messages.Parts.{AckOn}
use instnt_aries_vcx.Messages.Revocation.{Revoke, AckRevoke}
use instnt_aries_vcx.Messages.Aries.{AriesMessage}
use instnt_aries_vcx.Runtime.{Runtime, Decimal, Splitting, Vcx}
use instnt_aries_vcx.Revocation.Sender.{
  RevocationNotificationSenderSm, SenderConfig, notification, send, handle_ack,
}
use instnt_aries_vcx.Revocation.Receiver.{
  create, handle_revocation_notification, validate_revocation_notification, check_rev_reg_id,
  check_cred_rev_id,
}

module _ (R : Runtime) where
  open R use {World}

  -- A receiver made for a credential takes the notification that a sender builds for the same
  -- registry and the same revocation id, a `u32`, where the registry's id neither holds two colons
  -- side by side nor ends in one: where its text with a colon behind it does not split at "::".
  pub notification_taken :
      (d : Decimal R) (s : Splitting R) (config : SenderConfig) (id : String)
      → config.cred_rev_id < 2 ^ 32
      → R.split (config.rev_reg_id ++ ":") "::" ≡ (config.rev_reg_id ++ ":") ∷ []
      → is_ok (
          handle_revocation_notification R
            (create config.rev_reg_id config.cred_rev_id)
            (notification R config id))
        ≡ true
  unfolding handle_revocation_notification validate_revocation_notification create
  notification_taken d s config id small whole = ground (
    arith,
    s.split-append config.rev_reg_id (R.u32_to_string config.cred_rev_id),
    s.split-u32 config.cred_rev_id,
    d.parse-to_string config.cred_rev_id,
    eq_refl config.rev_reg_id,
  )

  -- The registry and the revocation id that the parts of a credential id stand for.
  abbrev pub IsFor : String → ℕ → List String → Type 0
  IsFor own n (a ∷ b ∷ rest) = (a ≡ own) × (R.parse_u32 b ≡ ok n)
  IsFor own n _ = ⊥

  check_parts-IsFor :
      (own : String) (n : ℕ) (parts : List String)
      → is_ok (and_then (check_rev_reg_id R own parts) (λ _. check_cred_rev_id R n parts)) ≡ true
      → IsFor own n parts
  check_parts-IsFor own n [] h = ground arith
  check_parts-IsFor own n (a ∷ []) h = ground (arith, eq_iff a own)
  check_parts-IsFor own n (a ∷ b ∷ rest) h = ground (arith, eq_iff a own)

  -- Whatever a new receiver takes is about its credential: the first part of the notification's
  -- credential id is its registry, and the second parses to its revocation id.
  pub taken-IsFor :
      (own : String) (n : ℕ) (msg : Revoke)
      → is_ok (handle_revocation_notification R (create own n) msg) ≡ true
      → IsFor own n (R.split msg.content.credential_id "::")
  unfolding handle_revocation_notification validate_revocation_notification create
  taken-IsFor own n msg h =
      ground (arith, check_parts-IsFor own n (R.split msg.content.credential_id "::"))

  -- A sender that has asked for an acknowledgement, on receipt or on outcome, takes none: if its
  -- message was sent, it refuses every acknowledgement that comes.
  pub asked_ack_refused :
      (self : RevocationNotificationSenderSm) (config : SenderConfig) (on : AckOn)
      (more : List AckOn) (deliver : AriesMessage → Vcx R Unit) (a : AckRevoke) (w : World)
      → config.ack_on ≡ on ∷ more
      → Ensures (λ sent. is_ok (handle_ack R sent a) ≡ false) (send R self config deliver w).0
  unfolding send handle_ack
  asked_ack_refused self config on more deliver a w asks = ground arith
