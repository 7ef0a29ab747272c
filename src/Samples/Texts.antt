-- ===== src/Samples/Texts.antt =====
-- Connection data as texts that are read back: the DID and the key of a party whose endpoint is "e".
use instnt_aries_vcx.Base.{
  ℕ, String, ◌≡◌, refl, zero, suc, Option, none, some, List, [], ◌∷◌, ◌++◌, Result, ok, err, length,
}
use instnt_aries_vcx.DidDoc.Doc.{
  AriesDidDoc, default_doc, set_id, set_service_endpoint, set_routing_keys, set_recipient_keys,
  add_recipient_keys,
}
use instnt_aries_vcx.Messages.Connection.{ConnectionData}
use instnt_aries_vcx.Samples.Decode.{as_bytes, from_utf8, from_utf8-as_bytes}
use instnt_aries_vcx.Samples.Unary.{encode, decode, decode-encode}

abbrev pub number : ℕ → String
number n = encode (n ∷ [])

abbrev pub party : String → String → ConnectionData
party did vk = record {
  did = did;
  did_doc =
      set_recipient_keys number
        (set_routing_keys (set_service_endpoint (set_id default_doc did) "e") []) (vk ∷ []);
}

abbrev key_in : AriesDidDoc → String
key_in d = elim d.public_key [ [] ↦ "" | k ∷ _ ↦ k.public_key_base_58 ]

abbrev pub to_text : ConnectionData → String
to_text d = let did = as_bytes d.did in encode (length did ∷ (did ++ as_bytes (key_in d.did_doc)))

abbrev split : ℕ → List ℕ → List ℕ × List ℕ
split zero ns = ([], ns)
split (suc n) [] = ([], [])
split (suc n) (m ∷ ns) = let (a, b) = split n ns in (m ∷ a, b)

split-length : (a b : List ℕ) → split (length a) (a ++ b) ≡ (a, b)
split-length [] b = refl
split-length (m ∷ a) b = rw (split-length a b) refl

abbrev both_texts : Option String → Option String → Result String ConnectionData
both_texts (some did) (some vk) = ok (party did vk)
both_texts _ _ = err "no text"

abbrev of_numbers : Option (List ℕ) → Result String ConnectionData
of_numbers (some (n ∷ ns)) = let (a, b) = split n ns in both_texts (from_utf8 a) (from_utf8 b)
of_numbers _ = err "no numbers"

abbrev of_text : Option String → Result String ConnectionData
of_text (some t) = of_numbers (decode t)
of_text none = err "no text"

abbrev pub from_slice : List ℕ → Result String ConnectionData
from_slice bytes = of_text (from_utf8 bytes)

pub party-read :
    (did vk : String) → from_slice (as_bytes (to_text (party did vk))) ≡ ok (party did vk)
unfolding set_recipient_keys add_recipient_keys set_routing_keys set_service_endpoint
party-read did vk =
    rw
      (
        from_utf8-as_bytes (encode (length (as_bytes did) ∷ (as_bytes did ++ as_bytes vk))),
        decode-encode (length (as_bytes did) ∷ (as_bytes did ++ as_bytes vk)),
        split-length (as_bytes did) (as_bytes vk),
        from_utf8-as_bytes did,
        from_utf8-as_bytes vk,
      )
      refl
