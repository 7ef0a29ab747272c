-- ===== src/DidDoc/Built.antt =====
-- The documents that the connection protocol makes: one service, with one recipient key.
use instnt_aries_vcx.Base.{
  String, ◌≡◌, refl, ◌∙◌, ap, sym, true, false, List, [], ◌∷◌, ◌++◌, ok, is_ok, and_then, ◌==◌,
  arith, eq_refl,
}
use instnt_aries_vcx.DidDoc.Doc.{
  AriesDidDoc, default_doc, default_service, set_id, set_service_endpoint, set_routing_keys,
  set_recipient_keys, add_recipient_keys, build_key_reference, did_context, key_type,
  key_authentication_type,
}
use instnt_aries_vcx.DidDoc.Keys.{
  validate_verkey, validate_ed25519_key, find_key_by_value, get_key, is_authentication_key, keys_of,
  recipient_keys, try_for_each, validate,
}
use instnt_aries_vcx.Runtime.{Runtime}

append_nil : (xs : List String) → (xs ++ []) ≡ xs
append_nil [] = refl
append_nil (x ∷ xs) = ap (λ ys. x ∷ ys) (append_nil xs)

append_one : (xs ys : List String) (y : String) → ((xs ++ (y ∷ [])) ++ ys) ≡ (xs ++ (y ∷ ys))
append_one [] ys y = refl
append_one (x ∷ xs) ys y = ap (λ zs. x ∷ zs) (append_one xs ys y)

-- The document without keys for its subject.
abbrev routed : String → String → List String → AriesDidDoc
routed did endpoint routing = record default_doc {
  id = did;
  service = record default_service { service_endpoint = endpoint; routing_keys = routing } ∷ [];
}

routed-set_routing_keys :
    (did endpoint : String) (before keys : List String)
    → set_routing_keys (routed did endpoint before) keys ≡ routed did endpoint (before ++ keys)
unfolding set_routing_keys
routed-set_routing_keys did endpoint before [] = ap (routed did endpoint) (sym (append_nil before))
routed-set_routing_keys did endpoint before (k ∷ rest) =
    routed-set_routing_keys did endpoint (before ++ (k ∷ [])) rest
    ∙ ap (routed did endpoint) (append_one before rest k)

module _ (R : Runtime) where
  -- The document of a party with a DID and one key.
  abbrev pub doc_of : String → String → List String → String → AriesDidDoc
  doc_of did endpoint routing key =
      set_recipient_keys R.u64_to_string
        (set_routing_keys (set_service_endpoint (set_id default_doc did) endpoint) routing)
        (key ∷ [])

  -- The same document, written out.
  abbrev built : String → String → List String → String → AriesDidDoc
  built did endpoint routing key =
      let reference = build_key_reference did (R.u64_to_string 1) in
      record {
        context = did_context;
        id = did;
        public_key =
            record { id = reference; type_ = key_type; controller = did; public_key_base_58 = key }
            ∷ [];
        authentication = record { type_ = key_authentication_type; public_key = reference } ∷ [];
        service =
            record default_service {
              service_endpoint = endpoint;
              routing_keys = routing;
              recipient_keys = key ∷ [];
            }
            ∷ [];
      }

  doc_of-built :
      (did endpoint : String) (routing : List String) (key : String)
      → doc_of did endpoint routing key ≡ built did endpoint routing key
  unfolding set_recipient_keys add_recipient_keys set_service_endpoint
  doc_of-built did endpoint routing key =
      ap (λ d. set_recipient_keys R.u64_to_string d (key ∷ []))
        (routed-set_routing_keys did endpoint [] routing)

  built-set_routing_keys :
      (did endpoint : String) (before keys : List String) (key : String)
      → set_routing_keys (built did endpoint before key) keys
        ≡ built did endpoint (before ++ keys) key
  unfolding set_routing_keys
  built-set_routing_keys did endpoint before [] key =
      ap (λ routing. built did endpoint routing key) (sym (append_nil before))
  built-set_routing_keys did endpoint before (k ∷ rest) key =
      built-set_routing_keys did endpoint (before ++ (k ∷ [])) rest key
      ∙ ap (λ routing. built did endpoint routing key) (append_one before rest k)

  -- The same fields set in the other order, which makes the same document.
  pub keys_first :
      (did endpoint : String) (routing : List String) (key : String)
      → set_routing_keys
          (set_recipient_keys R.u64_to_string
            (set_service_endpoint (set_id default_doc did) endpoint)
            (key ∷ []))
          routing
        ≡ doc_of did endpoint routing key
  unfolding set_recipient_keys add_recipient_keys set_service_endpoint
  keys_first did endpoint routing key =
      built-set_routing_keys did endpoint [] routing key
      ∙ sym (doc_of-built did endpoint routing key)

  verkey_itself :
      (key : String) → is_ok (validate_verkey R key) ≡ true → validate_verkey R key ≡ ok key
  unfolding validate_verkey
  verkey_itself key valid = ground (arith, valid)

  abbrev pub AllValid : List String → Type 0
  AllValid [] = Unit
  AllValid (k ∷ rest) = (is_ok (validate_verkey R k) ≡ true) × AllValid rest

  routing_valid :
      (routing : List String)
      → AllValid routing
      → try_for_each (λ k. and_then (validate_verkey R k) λ _. ok tt) routing ≡ ok tt
  unfolding try_for_each
  routing_valid [] all = refl
  routing_valid (k ∷ rest) all = rw (verkey_itself k all.0) (routing_valid rest all.1)

  module _ (did endpoint : String) (routing : List String) (key : String)
      (valid : is_ok (validate_verkey R key) ≡ true) where
    built_key :
        get_key R (built did endpoint routing key) key
        ≡ ok (record {
          id = build_key_reference did (R.u64_to_string 1);
          type_ = key_type;
          controller = did;
          public_key_base_58 = key;
        })
    unfolding get_key find_key_by_value validate_ed25519_key
    built_key = rw (verkey_itself key valid, eq_refl key) (rw (verkey_itself key valid) refl)

    built_recipient_keys : recipient_keys R (built did endpoint routing key) ≡ ok (key ∷ [])
    unfolding recipient_keys keys_of
    built_recipient_keys = rw built_key refl

    built_authentication :
        is_authentication_key R
          (built did endpoint routing key)
          (build_key_reference did (R.u64_to_string 1))
        ≡ ok tt
    unfolding is_authentication_key
    built_authentication = rw (eq_refl (build_key_reference did (R.u64_to_string 1))) refl

    built_valid :
        (did == "") ≡ false → AllValid routing → validate R (built did endpoint routing key) ≡ ok tt
    unfolding validate try_for_each
    built_valid named all =
        rw (named, built_key, built_authentication, routing_valid routing all) refl

    pub doc_of-recipient_keys : recipient_keys R (doc_of did endpoint routing key) ≡ ok (key ∷ [])
    doc_of-recipient_keys = rw (doc_of-built did endpoint routing key) built_recipient_keys

    -- A document of a party with a DID, whose keys are all valid, passes the validation, and the
    -- keys at which the party is reached are the one key that was given.
    pub doc_of-valid :
        (did == "") ≡ false
        → AllValid routing
        → (validate R (doc_of did endpoint routing key) ≡ ok tt)
          × (recipient_keys R (doc_of did endpoint routing key) ≡ ok (key ∷ []))
    doc_of-valid named all =
        rw (doc_of-built did endpoint routing key) (built_valid named all, built_recipient_keys)
