-- ===== src/Connection/Signed.antt =====
-- The signature on connection data: what it takes to be accepted, and that it is.
use instnt_aries_vcx.Base.{
  ℕ, zero, suc, String, ◌≡◌, refl, Bool, true, false, ◌&&◌, Option, none, some, List, [], ◌∷◌, ◌++◌,
  length, Result, ok, err, Ensures, weaken-Ensures, ap, ◌==◌, arith, eq_refl,
}
use instnt_aries_vcx.Messages.Connection.{ConnectionData, ConnectionSignature, ResponseContent}
use instnt_aries_vcx.Runtime.{Runtime}
use instnt_aries_vcx.Connection.Signing.{
  from_index, get_signature_data, sign_connection_response, decode_signed_connection_response,
}

-- Documented behaviour of base64 for URLs, of `u64::to_be_bytes`, which gives eight bytes, and
-- of the wallet: what was signed with a key verifies with it.
pub record Signatures (R : Runtime) : Type 0 where
  pub url_decode-encode :
      (bytes : List ℕ) → R.url_base64_decode (R.url_base64_encode bytes) ≡ ok bytes
  pub eight_bytes : (n : ℕ) (bytes : List ℕ) → from_index 8 (R.to_be_bytes n ++ bytes) ≡ some bytes
  pub verify-sign :
      (k : R.Key) (bytes signature : List ℕ) (w w' v : R.World)
      → R.sign k bytes w ≡ (ok signature, w')
      → (R.verify k bytes signature v).0 ≡ ok true

-- What a slice from an index leaves out is as long as the index says.
from_index-append :
    (n : ℕ) (bytes rest : List ℕ)
    → from_index n bytes ≡ some rest
    → (time : List ℕ) × (length time ≡ n) × (bytes ≡ time ++ rest)
unfolding from_index
from_index-append zero bytes rest e = ([], refl, ground (arith, e))
from_index-append (suc n) [] rest e = ground (arith, e)
from_index-append (suc n) (b ∷ bytes) rest e =
    let (time, counted, whole) = from_index-append n bytes rest e in
    (b ∷ time, ground (arith, counted), ap (λ l. b ∷ l) whole)

module _ (R : Runtime) where
  -- Documented behaviour of serde_json at these connection data: they are read back from their text.
  abbrev pub Reads : ConnectionData → Type 0
  Reads data_ =
      R.connection_data_from_slice (R.as_bytes (R.connection_data_to_string data_)) ≡ ok data_

  open R use {World, Fault, Key}

  abbrev verified_by :
      Result Fault Key → Result Fault (List ℕ) → Result Fault (List ℕ) → World → Bool
  verified_by (ok k) (ok bytes) (ok signature) w = elim (R.verify k bytes signature w).0 [
    | ok b ↦ b
    | err _ ↦ false
  ]
  verified_by _ _ _ w = false

  -- The wallet verifies the signature on the signed bytes with this key, whose owner it names.
  abbrev pub is_signed_by : ConnectionSignature → String → World → Bool
  is_signed_by s key w =
      verified_by (R.key_from_base58 key) (R.url_base64_decode s.sig_data)
        (R.url_base64_decode s.signature) w
      && (s.signer == key)

  -- Eight bytes, and behind them these connection data.
  abbrev pub Holds : ConnectionData → Result Fault (List ℕ) → Type 0
  Holds data_ (ok bytes) =
      (time rest : List ℕ) × (length time ≡ 8)
      × (bytes ≡ time ++ rest)
      × (R.connection_data_from_slice rest ≡ ok data_)
  Holds data_ (err _) = ⊥

  -- The data of a response, if there are any, stand in the bytes that are signed.
  abbrev pub AreSigned : ConnectionSignature → Option ConnectionData → Type 0
  AreSigned s none = Unit
  AreSigned s (some data_) = Holds data_ (R.url_base64_decode s.sig_data)

  abbrev ReadFrom : ConnectionData → Result Fault (List ℕ) → Type 0
  ReadFrom data_ (ok bytes) = elim (from_index 8 bytes) [
    | some rest ↦ R.connection_data_from_slice rest ≡ ok data_
    | none ↦ ⊥
  ]
  ReadFrom data_ (err _) = ⊥

  abbrev AreRead : ConnectionSignature → Option ConnectionData → Type 0
  AreRead s none = Unit
  AreRead s (some data_) = ReadFrom data_ (R.url_base64_decode s.sig_data)

  response-AreRead :
      (response : ResponseContent) (key : String) (w : World)
      → Ensures
          (λ d.
            (is_signed_by response.connection_sig key w ≡ true) × AreRead response.connection_sig d)
          (decode_signed_connection_response R response key w).0
  unfolding decode_signed_connection_response
  response-AreRead response key w = ground arith

  rest-Holds :
      (data_ : ConnectionData) (bytes : List ℕ) (r : Option (List ℕ))
      → from_index 8 bytes ≡ r
      → ReadFrom data_ (ok bytes)
      → Holds data_ (ok bytes)
  rest-Holds data_ bytes (some rest) e reads =
      let (time, eight, whole) = from_index-append 8 bytes rest e in
      (time, rest, eight, whole, ground (arith, e))
  rest-Holds data_ bytes none e reads = ground (arith, e)

  ReadFrom-Holds :
      (data_ : ConnectionData) (r : Result Fault (List ℕ)) → ReadFrom data_ r → Holds data_ r
  ReadFrom-Holds data_ (ok bytes) reads = rest-Holds data_ bytes (from_index 8 bytes) refl reads
  ReadFrom-Holds data_ (err _) reads = reads

  AreRead-AreSigned :
      (s : ConnectionSignature) (d : Option ConnectionData) → AreRead s d → AreSigned s d
  AreRead-AreSigned s none h = tt
  AreRead-AreSigned s (some data_) h = ReadFrom-Holds data_ (R.url_base64_decode s.sig_data) h

  -- A response is decoded only if the wallet verifies its signature on its signed bytes with the
  -- expected key, and it names this key as the signer's. Connection data that are then taken from it
  -- are those that stand behind the first eight of these signed bytes.
  pub response_authentic :
      (response : ResponseContent) (key : String) (w : World)
      → Ensures
          (λ d.
            (is_signed_by response.connection_sig key w ≡ true)
            × AreSigned response.connection_sig d)
          (decode_signed_connection_response R response key w).0
  response_authentic response key w =
      weaken-Ensures
        (λ d.
          (is_signed_by response.connection_sig key w ≡ true) × AreRead response.connection_sig d)
        (λ d.
          (is_signed_by response.connection_sig key w ≡ true) × AreSigned response.connection_sig d)
        (decode_signed_connection_response R response key w).0 (response-AreRead response key w)
        (λ d h. (h.0, AreRead-AreSigned response.connection_sig d h.1))

  module _ (laws : Signatures R) (key : String) (data_ : ConnectionData) (reads : Reads data_)
      (v : World) where
    abbrev bytes_at : ℕ → List ℕ
    bytes_at now = R.to_be_bytes now ++ R.as_bytes (R.connection_data_to_string data_)

    abbrev Decoded : ConnectionSignature → Type 0
    Decoded s =
        (decode_signed_connection_response R (record { connection_sig = s }) key v).0
        ≡ ok (some data_)

    signature-Decoded :
        (k : Key) (now : ℕ) (signature : List ℕ)
        → R.key_from_base58 key ≡ ok k
        → (R.verify k (bytes_at now) signature v).0 ≡ ok true
        → Decoded (record {
          signature = R.url_base64_encode signature;
          sig_data = R.url_base64_encode (bytes_at now);
          signer = key;
        })
    unfolding decode_signed_connection_response
    signature-Decoded k now signature known verified = ground (
      arith,
      laws.url_decode-encode signature,
      laws.url_decode-encode (bytes_at now),
      laws.eight_bytes now (R.as_bytes (R.connection_data_to_string data_)),
      reads,
      eq_refl key,
    )

    signed-Decoded :
        (k : Key) (now : ℕ) (w : World) (signed : Result Fault (List ℕ) × World)
        → R.key_from_base58 key ≡ ok k
        → R.sign k (bytes_at now) w ≡ signed
        → Ensures
            (λ signature. Decoded (record {
              signature = R.url_base64_encode signature;
              sig_data = R.url_base64_encode (bytes_at now);
              signer = key;
            }))
            signed.0
    signed-Decoded k now w (ok signature, w') known signed =
        signature-Decoded k now signature known
          (laws.verify-sign k (bytes_at now) signature w w' v signed)
    signed-Decoded k now w (err e, w') known signed = tt

    with_key :
        (r : Result Fault Key) (w : World)
        → R.key_from_base58 key ≡ r
        → Ensures Decoded (sign_connection_response R key data_ w).0
    unfolding sign_connection_response get_signature_data
    with_key (ok k) w known = ground (
      arith,
      signed-Decoded k (R.unix_timestamp w).0 (R.unix_timestamp w).1
          (R.sign k (bytes_at (R.unix_timestamp w).0) (R.unix_timestamp w).1) known refl,
    )
    with_key (err e) w known = ground (arith, known)

  -- What a party signs is taken by the other with its key, whenever that looks at it.
  pub signed_response_decoded :
      (laws : Signatures R) (key : String) (data_ : ConnectionData) (reads : Reads data_)
      (w v : World)
      → Ensures
          (λ s.
            (decode_signed_connection_response R (record { connection_sig = s }) key v).0
            ≡ ok (some data_))
          (sign_connection_response R key data_ w).0
  signed_response_decoded laws key data_ reads w v =
      with_key laws key data_ reads v (R.key_from_base58 key) w refl
