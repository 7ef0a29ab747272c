-- ===== src/DidDoc/Doc.antt =====
-- aries/diddoc.rs, aries/service.rs and w3c/model.rs: documents and how they are filled. A URL
-- stands for its text.
use Prim.Native.String.{◌++◌}
use instnt_aries_vcx.Base.{ℕ, zero, suc, ◌+◌, String, Option, List, [], ◌∷◌}
use instnt_aries_vcx.Base as Lists

pub record Ed25519PublicKey : Type 0 where
  pub id : String
  pub type_ : String
  pub controller : String
  pub public_key_base_58 : String

pub record Authentication : Type 0 where
  pub type_ : String
  pub public_key : String

pub record DdoKeyReference : Type 0 where
  pub did : Option String
  pub key_id : String

pub record AriesService : Type 0 where
  pub id : String
  pub type_ : String
  pub priority : ℕ
  pub recipient_keys : List String
  pub routing_keys : List String
  pub service_endpoint : String

pub record AriesDidDoc : Type 0 where
  pub context : String
  pub id : String
  pub public_key : List Ed25519PublicKey
  pub authentication : List Authentication
  pub service : List AriesService

abbrev pub did_context : String
did_context = "https://w3id.org/did/v1"

abbrev pub key_type : String
key_type = "Ed25519VerificationKey2018"

abbrev pub key_authentication_type : String
key_authentication_type = "Ed25519SignatureAuthentication2018"

-- `AriesService::default`
abbrev pub default_service : AriesService
default_service = record {
  id = "did:example:123456789abcdefghi;indy";
  type_ = "IndyAgent";
  priority = 0;
  recipient_keys = [];
  routing_keys = [];
  service_endpoint = "https://dummy.dummy/dummy";
}

-- `AriesDidDoc::default`
abbrev pub default_doc : AriesDidDoc
default_doc = record {
  context = did_context;
  id = "";
  public_key = [];
  authentication = [];
  service = default_service ∷ [];
}

abbrev pub set_id : AriesDidDoc → String → AriesDidDoc
set_id self id = record self { id = id }

-- `if let Some(service) = self.service.get_mut(0) { .. }`
abbrev on_first : (AriesService → AriesService) → List AriesService → List AriesService
on_first f [] = []
on_first f (s ∷ rest) = f s ∷ rest

unfoldable pub set_service_endpoint : AriesDidDoc → String → AriesDidDoc
set_service_endpoint self service_endpoint = record self {
  service = on_first (λ s. record s { service_endpoint = service_endpoint }) self.service;
}

abbrev pub build_key_reference : String → String → String
build_key_reference did id = did ++ ("#" ++ id)

-- The body of the loop of `set_recipient_keys`, at the key with this number.
abbrev add_recipient_key : String → String → AriesDidDoc → AriesDidDoc
add_recipient_key key_id key_in_base58 self =
    let key_reference = build_key_reference self.id key_id in
    record self {
      public_key = Lists.◌++◌ self.public_key (
          record {
            id = key_reference;
            type_ = key_type;
            controller = self.id;
            public_key_base_58 = key_in_base58;
          }
          ∷ []);
      authentication =
          Lists.◌++◌ self.authentication
            (record { type_ = key_authentication_type; public_key = key_reference } ∷ []);
      service =
          on_first
            (λ s. record s { recipient_keys = Lists.◌++◌ s.recipient_keys (key_in_base58 ∷ []) })
            self.service;
    }

module _ (number : ℕ → String) where
  unfoldable pub add_recipient_keys : ℕ → List String → AriesDidDoc → AriesDidDoc
  add_recipient_keys key_id [] self = self
  add_recipient_keys key_id (key ∷ rest) self =
      add_recipient_keys (key_id + 1) rest (add_recipient_key (number (key_id + 1)) key self)

  -- The first argument prints the numbers of the keys, which count from 1.
  unfoldable pub set_recipient_keys : AriesDidDoc → List String → AriesDidDoc
  set_recipient_keys self recipient_keys = add_recipient_keys 0 recipient_keys self

unfoldable pub set_routing_keys : AriesDidDoc → List String → AriesDidDoc
set_routing_keys self [] = self
set_routing_keys self (key ∷ rest) =
    set_routing_keys
      (record self {
        service =
            on_first (λ s. record s { routing_keys = Lists.◌++◌ s.routing_keys (key ∷ []) })
              self.service;
      })
      rest
