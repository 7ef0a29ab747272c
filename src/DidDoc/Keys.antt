-- ===== src/DidDoc/Keys.antt =====
-- aries/diddoc.rs: the keys of a document and its validation, and `validate_verkey` of
-- aries/misc/shared/src/validation/verkey.rs.
use Prim.Native.String.{◌++◌}
use instnt_aries_vcx.Base.{
  ℕ, String, Bool, true, false, not, ◌||◌, ◌&&◌, Option, none, some, List, [], ◌∷◌, Result, ok, err,
  and_then, length, nat_eq, ◌==◌, if◌then◌else◌,
}
use instnt_aries_vcx.Errors.{AriesVcxErrorKind, AriesVcxError, from_msg}
use instnt_aries_vcx.DidDoc.Doc.{
  AriesDidDoc, AriesService, Ed25519PublicKey, Authentication, DdoKeyReference, did_context,
  key_type, key_authentication_type,
}
use instnt_aries_vcx.Runtime.{Runtime}

pub data DiddocErrorKind : Type 0 where
  invalid_state invalid_json serialization_error invalid_url invalid_did : DiddocErrorKind
  invalid_verkey not_base58 : DiddocErrorKind

pub record DiddocError : Type 0 where
  pub msg : String
  pub kind : DiddocErrorKind

abbrev pub DiddocResult : Type 0 → Type 0
DiddocResult A = Result DiddocError A

abbrev refuse : {A : Type 0} → DiddocErrorKind → String → DiddocResult A
refuse kind msg = err (record { msg = msg; kind = kind })

-- `From<DiddocErrorKind> for AriesVcxErrorKind`
abbrev kind_of : DiddocErrorKind → AriesVcxErrorKind
kind_of invalid_state = AriesVcxErrorKind.invalid_state
kind_of invalid_json = AriesVcxErrorKind.invalid_json
kind_of serialization_error = AriesVcxErrorKind.serialization_error
kind_of invalid_url = AriesVcxErrorKind.invalid_url
kind_of invalid_did = AriesVcxErrorKind.invalid_did
kind_of invalid_verkey = AriesVcxErrorKind.invalid_verkey
kind_of not_base58 = AriesVcxErrorKind.not_base58

-- `From<DiddocError> for AriesVcxError`, with the `Display` of the error.
abbrev pub from_diddoc : DiddocError → AriesVcxError
from_diddoc e = from_msg (kind_of e.kind) ("Error: " ++ (e.msg ++ "\n\n"))

-- `list.iter().find(f)`
module _ {A : Type 0} where
  abbrev pub find : (A → Bool) → List A → Option A
  find f [] = none
  find f (a ∷ rest) = if f a then some a else find f rest

  -- `list.iter().try_for_each(f)`
  unfoldable pub try_for_each : (A → DiddocResult Unit) → List A → DiddocResult Unit
  try_for_each f [] = ok tt
  try_for_each f (a ∷ rest) = and_then (f a) λ _. try_for_each f rest

module _ (R : Runtime) where
  open R use {Fault}

  -- A `ValidationError` that `?` makes a `DiddocError`.
  abbrev invalid : {A : Type 0} → DiddocErrorKind → String → DiddocResult A
  invalid kind msg = refuse kind ("Error: " ++ (msg ++ "\n\n"))

  abbrev decoded_verkey : String → Result Fault (List ℕ) → DiddocResult String
  decoded_verkey verkey (ok x) =
      if nat_eq (length x) 32
      then ok verkey
      else invalid DiddocErrorKind.invalid_verkey (
          "Invalid verkey length, expected 32 bytes, decoded "
          ++ (R.u64_to_string (length x) ++ " bytes"))
  decoded_verkey verkey (err e) =
      invalid DiddocErrorKind.not_base58 ("Verkey is not valid base58, details: " ++ R.display e)

  unfoldable pub validate_verkey : String → DiddocResult String
  validate_verkey verkey = decoded_verkey verkey (R.bs58_decode verkey)

  abbrev reference_of : String → List String → DiddocResult DdoKeyReference
  reference_of text [] =
      refuse DiddocErrorKind.invalid_json
        ("DIDDoc validation failed: Invalid key reference: " ++ R.debug_text text)
  reference_of text (key_id ∷ []) = ok (record { did = none; key_id = key_id })
  reference_of text (did ∷ (key_id ∷ _)) = ok (record { did = some did; key_id = key_id })

  unfoldable pub parse_key_reference : String → DiddocResult DdoKeyReference
  parse_key_reference key_reference = reference_of key_reference (R.split key_reference "#")

  abbrev refers_to : DdoKeyReference → Ed25519PublicKey → Bool
  refers_to key_ref key = elim key_ref.did [
    | none ↦ key.id == key_ref.key_id
    | some did ↦ (key.id == key_ref.key_id) || (key.id == (did ++ ("#" ++ key_ref.key_id)))
  ]

  abbrev found : {A : Type 0} → Option A → String → DiddocResult A
  found (some a) msg = ok a
  found none msg = refuse DiddocErrorKind.invalid_json msg

  unfoldable pub find_key_by_reference :
      AriesDidDoc → DdoKeyReference → DiddocResult Ed25519PublicKey
  find_key_by_reference self key_ref = found (find (refers_to key_ref) self.public_key) (
      "Failed to find entry in public_key by key reference: "
      ++ R.debug_key_reference key_ref.did key_ref.key_id)

  unfoldable pub find_key_by_value : AriesDidDoc → String → DiddocResult Ed25519PublicKey
  find_key_by_value self key =
      found (find (λ k. k.public_key_base_58 == key) self.public_key)
        ("Failed to find entry in public_key by key value: " ++ key)

  unfoldable pub validate_ed25519_key : Ed25519PublicKey → DiddocResult Unit
  validate_ed25519_key public_key =
      if not (public_key.type_ == key_type)
      then refuse DiddocErrorKind.invalid_json (
          "DIDDoc validation failed: Unsupported PublicKey type: " ++ R.debug_text public_key.type_)
      else and_then (validate_verkey public_key.public_key_base_58) (λ _. ok tt)

  abbrev key_by : AriesDidDoc → String → DiddocResult String → DiddocResult Ed25519PublicKey
  key_by self key_value_or_reference (ok key) = find_key_by_value self key
  key_by self key_value_or_reference (err _) =
      and_then (parse_key_reference key_value_or_reference) (find_key_by_reference self)

  unfoldable pub get_key : AriesDidDoc → String → DiddocResult Ed25519PublicKey
  get_key self key_value_or_reference =
      and_then (key_by self key_value_or_reference (validate_verkey key_value_or_reference))
        λ public_key. and_then (validate_ed25519_key public_key) λ _. ok public_key

  abbrev reference_has : DiddocResult DdoKeyReference → String → Bool
  reference_has (ok r) key = r.key_id == key
  reference_has (err _) key = false

  abbrev authenticates : String → Authentication → Bool
  authenticates key auth_key =
      if auth_key.public_key == key
      then true
      else reference_has (parse_key_reference auth_key.public_key) key

  unfoldable pub is_authentication_key : AriesDidDoc → String → DiddocResult Unit
  is_authentication_key self key = elim self.authentication [
    | [] ↦ ok tt
    | a ∷ rest ↦
        and_then
          (found (find (authenticates key) (a ∷ rest)) (
            "DIDDoc validation failed: Cannot find Authentication record key: "
            ++ R.debug_text key))
          λ authentication_key.
            if not (authentication_key.type_ == key_authentication_type)
              && not (authentication_key.type_ == key_type)
            then refuse DiddocErrorKind.invalid_json (
                "DIDDoc validation failed: Unsupported Authentication type: "
                ++ R.debug_text authentication_key.type_)
            else ok tt
  ]

  abbrev validate_service : AriesDidDoc → AriesService → DiddocResult Unit
  validate_service self service =
      and_then
        (try_for_each
          (λ entry. and_then (get_key self entry) λ key. is_authentication_key self key.id)
          service.recipient_keys)
        λ _.
          try_for_each (λ entry. and_then (validate_verkey entry) λ _. ok tt) service.routing_keys

  unfoldable pub validate : AriesDidDoc → DiddocResult Unit
  validate self =
      if not (self.context == did_context)
      then refuse DiddocErrorKind.invalid_json
          ("DIDDoc validation failed: Unsupported @context value: " ++ R.debug_text self.context)
      else if self.id == ""
      then refuse DiddocErrorKind.invalid_json "DIDDoc validation failed: id is empty"
      else try_for_each (validate_service self) self.service

  unfoldable pub keys_of : AriesDidDoc → List String → DiddocResult (List String)
  keys_of self [] = ok []
  keys_of self (entry ∷ rest) =
      and_then (get_key self entry)
        λ record_. and_then (keys_of self rest) λ keys. ok (record_.public_key_base_58 ∷ keys)

  unfoldable pub recipient_keys : AriesDidDoc → DiddocResult (List String)
  recipient_keys self = elim self.service [
    | [] ↦ ok []
    | service ∷ _ ↦ keys_of self service.recipient_keys
  ]

  unfoldable pub get_endpoint : AriesDidDoc → Option String
  get_endpoint self = elim self.service [ [] ↦ none | s ∷ _ ↦ some s.service_endpoint ]
