-- ===== src/Anoncreds/Accepted.antt =====
-- Which presentation requests pass the validation.
use instnt_aries_vcx.Base.{
  String, ◌≡◌, refl, Bool, true, not, ◌&&◌, ◌||◌, List, [], ◌∷◌, ok, is_ok, Map, ◌==◌, arith,
}
use instnt_aries_vcx.Query.Defs.{AbstractQuery, and, or, in_, exist, Query, Queries, nil, cons}
use instnt_aries_vcx.Anoncreds.Request.{
  AttributeInfo, PredicateInfo, PresentationRequestPayload, request_v2,
}
use instnt_aries_vcx.Anoncreds.Validation.{
  v2, check_each, check_restriction, check_attribute, check_predicate, has_name, has_names,
  process_operator, process_all, both_empty, validate,
}

-- Every attribute has a name or a list of names, and not both.
unfoldable pub attributes_named : Map AttributeInfo → Bool
attributes_named [] = true
attributes_named ((_, a) ∷ rest) =
    ((has_name a.name && not (has_names a.names)) || (not (has_name a.name) && has_names a.names))
    && attributes_named rest

unfoldable pub predicates_named : Map PredicateInfo → Bool
predicates_named [] = true
predicates_named ((_, p) ∷ rest) = not (p.name == "") && predicates_named rest

module _ (is_uri_identifier : String → Bool) where
  values_free :
      (k : String) (vs : List String)
      → check_each (check_restriction is_uri_identifier v2 k) vs ≡ ok tt
  unfolding check_each
  values_free k [] = refl
  values_free k (v ∷ rest) = values_free k rest

  names_free :
      (ks : List String) → check_each (λ k. check_restriction is_uri_identifier v2 k "") ks ≡ ok tt
  unfolding check_each
  names_free [] = refl
  names_free (k ∷ rest) = names_free rest

  mutual
    unfolding process_operator

    restrictions_free : (q : Query) → process_operator is_uri_identifier v2 q ≡ ok tt
    restrictions_free (in_ k vs) = values_free k vs
    restrictions_free (exist ks) = names_free ks
    restrictions_free (and qs) = all_free qs
    restrictions_free (or qs) = all_free qs
    restrictions_free (AbstractQuery.not q) = restrictions_free q
    restrictions_free _ = refl

    all_free : (qs : Queries String String) → process_all is_uri_identifier v2 qs ≡ ok tt
    all_free nil = refl
    all_free (cons q qs) = rw (restrictions_free q) (all_free qs)

  module _ (debug_attribute : AttributeInfo → String)
      (debug_predicate : PredicateInfo → String) where
    attributes_accepted :
        (m : Map AttributeInfo)
        → is_ok
            (check_each (check_attribute is_uri_identifier debug_attribute debug_predicate v2) m)
          ≡ attributes_named m
    unfolding check_each attributes_named
    attributes_accepted [] = refl
    attributes_accepted ((i, a) ∷ rest) =
        grind (arith, attributes_accepted rest, λ (q : Query). restrictions_free q)

    predicates_accepted :
        (m : Map PredicateInfo)
        → is_ok
            (check_each (check_predicate is_uri_identifier debug_attribute debug_predicate v2) m)
          ≡ predicates_named m
    unfolding check_each predicates_named
    predicates_accepted [] = refl
    predicates_accepted ((i, p) ∷ rest) =
        grind (arith, predicates_accepted rest, λ (q : Query). restrictions_free q)

    -- A request of the second version passes the validation exactly if it asks for something, each
    -- attribute has a name or names and not both, and each predicate has a name: whatever the
    -- restrictions are.
    pub second_version_accepted :
        (p : PresentationRequestPayload)
        → is_ok (validate is_uri_identifier debug_attribute debug_predicate (request_v2 p)) ≡ (
            not (both_empty p.requested_attributes p.requested_predicates)
            && (attributes_named p.requested_attributes && predicates_named p.requested_predicates))
    unfolding validate
    second_version_accepted p = ground (
      arith,
      attributes_accepted p.requested_attributes,
      predicates_accepted p.requested_predicates,
    )
