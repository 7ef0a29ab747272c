-- ===== src/Issuance/Issuer/Revoke.antt =====
-- Revoking an issued credential: `get_revocation_id` and `revoke_credential_local` of
-- handlers/issuance/issuer.rs.
use instnt_aries_vcx.Base.{
  ℕ, String, ◌≡◌, true, Option, none, some, ok_or, and_then, is_ok, throw, lift, arith, ◌>>=◌,
}
use instnt_aries_vcx.Errors.{VcxResult, from_msg, invalid_state}
use instnt_aries_vcx.Runtime.{Runtime, Vcx, converted, call}
use instnt_aries_vcx.Issuance.Issuer.States.{IssuerState, get_state}
use instnt_aries_vcx.Issuance.Issuer.Queries.{get_revocation_info, is_revokable, get_rev_id}
use instnt_aries_vcx.Issuance.Issuer.Invariant.{IsValid}
use instnt_aries_vcx.Issuance.Issuer.Handler.{Issuer}

module _ (R : Runtime) where
  open R use {World}

  unfoldable pub get_revocation_id : Issuer → VcxResult ℕ
  get_revocation_id self =
      and_then
        (ok_or (get_revocation_info self.issuer_sm)
          (from_msg invalid_state "Credential has not yet been created"))
        λ info.
          and_then
            (ok_or info.cred_rev_id
              (from_msg invalid_state "Credential has not yet been created or is irrevocable"))
            (λ text. converted R (R.parse_u32 text))

  -- `if let (Some(cred_rev_id), Some(rev_reg_id), Some(_tails_file)) = .. { .. } else { .. }`
  abbrev revoke_at : Option String → Option String → Option String → Vcx R Unit
  revoke_at (some cred_rev_id) (some rev_reg_id) (some _) = do
    id ← lift (converted R (R.rev_reg_id_try_from rev_reg_id))
    delta ← call R (R.get_rev_reg_delta_json id none none)
    again ← lift (converted R (R.rev_reg_id_try_from rev_reg_id))
    n ← lift (converted R (R.parse_u32 cred_rev_id))
    call R (R.revoke_credential_local again n delta)
  revoke_at _ _ _ =
      throw (from_msg invalid_state "Revocation info is not complete, cannot revoke credential.")

  unfoldable pub revoke_credential_local : Issuer → Vcx R Unit
  revoke_credential_local self = do
    info ← lift (
        ok_or (get_revocation_info self.issuer_sm) (
          from_msg invalid_state "Credential is not revocable, no revocation info has been found."))
    revoke_at info.cred_rev_id info.rev_reg_id info.tails_file

  -- Where a credential counts as revokable, `get_revocation_id` of the object and `get_rev_id` of
  -- the machine give the same result.
  pub revocation_id_agrees :
      (self : Issuer)
      → is_revokable self.issuer_sm ≡ true
      → get_revocation_id self ≡ get_rev_id R self.issuer_sm
  unfolding get_revocation_id get_revocation_info is_revokable get_rev_id
  revocation_id_agrees self h = ground arith

  -- Only an issued credential is revoked: if `revoke_credential_local` succeeds on a valid object,
  -- the credential counts as revokable, its revocation id can be read, and the exchange has not
  -- failed.
  pub revoke_needs_id :
      (self : Issuer) (w : World)
      → IsValid self.issuer_sm
      → is_ok (revoke_credential_local self w).0 ≡ true
      → (is_revokable self.issuer_sm ≡ true)
        × (is_ok (get_rev_id R self.issuer_sm) ≡ true)
        × ¬ (get_state self.issuer_sm ≡ IssuerState.failed)
  unfolding revoke_credential_local get_revocation_info is_revokable get_rev_id
  revoke_needs_id self w v h = ground arith
