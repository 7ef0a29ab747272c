-- ===== src/Issuance/Ledger.antt =====
-- `is_cred_def_revokable` of protocols/issuance/mod.rs, and `get_cred_rev_id` and
-- `is_cred_revoked` of common/credentials/mod.rs, all under aries/aries_vcx/src.
use Prim.Native.String.{◌++◌}
use instnt_aries_vcx.Base.{
  ℕ, ◌+◌, String, Bool, false, not, ◌||◌, none, some, List, [], ◌∷◌, nat_eq, ok_or, map_err, pure,
  lift, perform, ◌>>=◌,
}
use instnt_aries_vcx.Errors.{
  from_msg, invalid_ledger_response, serialization_error, invalid_revocation_details,
}
use instnt_aries_vcx.Runtime.{Runtime, Vcx, converted, call}

-- `revoked.iter().any(|s| s.eq(&rev_id))`
abbrev pub contains_id : List ℕ → ℕ → Bool
contains_id [] n = false
contains_id (m ∷ ms) n = nat_eq m n || contains_id ms n

module _ (R : Runtime) where
  unfoldable pub is_cred_def_revokable : String → Vcx R Bool
  is_cred_def_revokable cred_def_id = do
    id ← lift (converted R (R.cred_def_id_try_from cred_def_id))
    cred_def ← λ w.
        let (r, w') = R.get_cred_def id w in
        (
          map_err
              (λ e.
                from_msg invalid_ledger_response
                  ("Failed to obtain credential definition from ledger or cache: " ++ R.display e))
              r,
          w',
        )
    parsed ← lift (
        map_err
          (λ e. from_msg serialization_error (
            "Failed deserialize credential definition json "
            ++ (R.cred_def_to_string cred_def ++ ("\nError: " ++ R.display e))))
          (R.cred_def_to_value cred_def))
    pure (not (R.value_is_null (R.value_index (R.value_index parsed "value") "revocation")))

  unfoldable pub get_cred_rev_id : String → Vcx R ℕ
  get_cred_rev_id cred_id = do
    rev_id ← call R (R.prover_get_credential cred_id)
    lift (
        ok_or rev_id (
          from_msg invalid_revocation_details
            "Credenial revocation id missing on credential - is this credential revokable?"))

  unfoldable pub is_cred_revoked : String → ℕ → Vcx R Bool
  is_cred_revoked rev_reg_id rev_id = do
    now ← perform R.unix_timestamp
    id ← lift (converted R (R.rev_reg_id_try_from rev_reg_id))
    delta ← call R (R.get_rev_reg_delta_json id none (some (now + 100)))
    pure (contains_id (R.delta_revoked delta) rev_id)
