-- ===== src/Connection/Signing.antt =====
-- common/signing.rs: the signature of an inviter on its connection data. Where the source takes a
-- slice that may be out of range, and panics, the result is `none`.
use Prim.Native.String.{◌++◌}
use instnt_aries_vcx.Base.{
  ℕ, zero, suc, String, Bool, not, Option, none, some, List, [], ◌∷◌, ok, and_then, map_err, pure,
  throw, lift, perform, ◌>>=◌, ◌==◌, if◌then◌else◌,
}
use instnt_aries_vcx.Base as Lists
use instnt_aries_vcx.Errors.{VcxResult, from_msg, invalid_json}
use instnt_aries_vcx.Messages.Connection.{ConnectionData, ConnectionSignature, ResponseContent}
use instnt_aries_vcx.Runtime.{Runtime, Vcx, converted, call}

-- `&bytes[n..]`
unfoldable pub from_index : ℕ → List ℕ → Option (List ℕ)
from_index zero bytes = some bytes
from_index (suc n) [] = none
from_index (suc n) (b ∷ bytes) = from_index n bytes

module _ (R : Runtime) where
  abbrev base64url_decode : String → VcxResult (List ℕ)
  base64url_decode encoded =
      map_err (λ e. from_msg invalid_json ("Cannot decode Base64URL data: " ++ R.debug_fault e))
        (R.url_base64_decode encoded)

  -- The signature, and the signed bytes: the time, and then the data.
  unfoldable pub get_signature_data : String → String → Vcx R (List ℕ × List ℕ)
  get_signature_data data_ key = do
    now ← perform R.unix_timestamp
    k ← lift (converted R (R.key_from_base58 key))
    signature ← call R (R.sign k (Lists.◌++◌ (R.to_be_bytes now) (R.as_bytes data_)))
    pure (signature, Lists.◌++◌ (R.to_be_bytes now) (R.as_bytes data_))

  unfoldable pub sign_connection_response : String → ConnectionData → Vcx R ConnectionSignature
  sign_connection_response key con_data = do
    signed ← get_signature_data (R.connection_data_to_string con_data) key
    pure (record {
      signature = R.url_base64_encode signed.0;
      sig_data = R.url_base64_encode signed.1;
      signer = key;
    })

  abbrev parsed : Option (List ℕ) → VcxResult (Option ConnectionData)
  parsed none = ok none
  parsed (some bytes) =
      map_err (λ e. from_msg invalid_json (R.display e))
        (and_then (R.connection_data_from_slice bytes) λ data_. ok (some data_))

  unfoldable pub decode_signed_connection_response :
      ResponseContent → String → Vcx R (Option ConnectionData)
  decode_signed_connection_response response their_vk = do
    signature ← lift (
        map_err
          (λ e. from_msg invalid_json ("Cannot decode ConnectionResponse: " ++ R.debug_fault e))
          (R.url_base64_decode response.connection_sig.signature))
    sig_data ← lift (base64url_decode response.connection_sig.sig_data)
    k ← lift (converted R (R.key_from_base58 their_vk))
    verified ← call R (R.verify k sig_data signature)
    if not verified
        then throw (
            from_msg invalid_json
              "ConnectionResponse signature is invalid for original Invite recipient key")
        else if not (response.connection_sig.signer == their_vk)
        then throw (
            from_msg invalid_json
              "Signer declared in ConnectionResponse signed response is not matching the actual signer. Connection ")
        else lift (parsed (from_index 8 sig_data))
