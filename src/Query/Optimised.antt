-- ===== src/Query/Optimised.antt =====
-- The queries that `optimise` gives, and that it leaves them alone.
use instnt_aries_vcx.Base.{
  ◌≡◌, refl, Bool, true, false, not as negate, ◌&&◌, Option, none, some, List, [], ◌∷◌, arith,
}
use instnt_aries_vcx.Query.Defs.{
  AbstractQuery, and, or, in_, Queries, nil, cons, optimise, optimise_all, negated, keep, gathered,
  one_of,
}

both_left : (a b : Bool) → (a && b) ≡ true → a ≡ true
both_left a b h = ground arith

both_right : (a b : Bool) → (a && b) ≡ true → b ≡ true
both_right a b h = ground arith

module _ {V : Type 0} where
  abbrev is_one : List V → Bool
  is_one (v ∷ []) = true
  is_one _ = false

module _ {K V : Type 0} where
  abbrev is_not : AbstractQuery K V → Bool
  is_not (AbstractQuery.not _) = true
  is_not _ = false

  abbrev is_many : Queries K V → Bool
  is_many (cons _ (cons _ _)) = true
  is_many _ = false

  -- No negation of a negation, no conjunction or disjunction of fewer than two, no choice of one.
  unfoldable mutual
    pub is_optimal : AbstractQuery K V → Bool
    is_optimal (AbstractQuery.not q) = negate (is_not q) && is_optimal q
    is_optimal (and qs) = is_many qs && all_optimal qs
    is_optimal (or qs) = is_many qs && all_optimal qs
    is_optimal (in_ k vs) = negate (is_one vs)
    is_optimal _ = true

    all_optimal : Queries K V → Bool
    all_optimal nil = true
    all_optimal (cons q qs) = is_optimal q && all_optimal qs

  abbrev optimal_opt : Option (AbstractQuery K V) → Bool
  optimal_opt none = true
  optimal_opt (some q) = is_optimal q

  optimal-negated :
      (o : Option (AbstractQuery K V)) → optimal_opt o ≡ true → optimal_opt (negated o) ≡ true
  unfolding is_optimal
  optimal-negated none h = refl
  optimal-negated (some q) h = ground arith

  optimal-keep :
      (o : Option (AbstractQuery K V)) (qs : Queries K V)
      → optimal_opt o ≡ true
      → all_optimal qs ≡ true
      → all_optimal (keep o qs) ≡ true
  unfolding is_optimal
  optimal-keep o qs h g = ground arith

  optimal-gathered_and :
      (qs : Queries K V) → all_optimal qs ≡ true → optimal_opt (gathered and qs) ≡ true
  unfolding is_optimal
  optimal-gathered_and nil h = refl
  optimal-gathered_and (cons q nil) h = both_left _ _ h
  optimal-gathered_and (cons q (cons r qs)) h = h

  optimal-gathered_or :
      (qs : Queries K V) → all_optimal qs ≡ true → optimal_opt (gathered or qs) ≡ true
  unfolding is_optimal
  optimal-gathered_or nil h = refl
  optimal-gathered_or (cons q nil) h = both_left _ _ h
  optimal-gathered_or (cons q (cons r qs)) h = h

  optimal-one_of : (k : K) (vs : List V) → is_optimal (one_of k vs) ≡ true
  unfolding is_optimal
  optimal-one_of k vs = ground arith

  mutual
    unfolding optimise is_optimal

    optimal-optimised : (q : AbstractQuery K V) → optimal_opt (optimise q) ≡ true
    optimal-optimised (AbstractQuery.not q) = optimal-negated (optimise q) (optimal-optimised q)
    optimal-optimised (and qs) = optimal-gathered_and (optimise_all qs) (all_optimal-optimised qs)
    optimal-optimised (or qs) = optimal-gathered_or (optimise_all qs) (all_optimal-optimised qs)
    optimal-optimised (in_ k vs) = optimal-one_of k vs
    optimal-optimised _ = refl

    all_optimal-optimised : (qs : Queries K V) → all_optimal (optimise_all qs) ≡ true
    all_optimal-optimised nil = refl
    all_optimal-optimised (cons q qs) =
        optimal-keep (optimise q) (optimise_all qs) (optimal-optimised q) (all_optimal-optimised qs)

  negated-optimal :
      (q : AbstractQuery K V)
      → is_optimal (AbstractQuery.not q) ≡ true
      → negated (some q) ≡ some (AbstractQuery.not q)
  unfolding is_optimal
  negated-optimal q h = ground arith

  gathered-many :
      (c : Queries K V → AbstractQuery K V) (qs : Queries K V)
      → is_many qs ≡ true
      → gathered c qs ≡ some (c qs)
  gathered-many c qs h = ground arith

  mutual
    unfolding optimise is_optimal

    optimise_done : (q : AbstractQuery K V) → is_optimal q ≡ true → optimise q ≡ some q
    optimise_done (AbstractQuery.not q) h =
        rw (optimise_done q (both_right (negate (is_not q)) (is_optimal q) h)) (negated-optimal q h)
    optimise_done (and qs) h =
        rw (optimise_all_done qs (both_right (is_many qs) (all_optimal qs) h))
          (gathered-many and qs (both_left (is_many qs) (all_optimal qs) h))
    optimise_done (or qs) h =
        rw (optimise_all_done qs (both_right (is_many qs) (all_optimal qs) h))
          (gathered-many or qs (both_left (is_many qs) (all_optimal qs) h))
    optimise_done (in_ k vs) h = ground arith
    optimise_done _ h = refl

    optimise_all_done : (qs : Queries K V) → all_optimal qs ≡ true → optimise_all qs ≡ qs
    optimise_all_done nil h = refl
    optimise_all_done (cons q qs) h =
        rw
          (
            optimise_done q (both_left (is_optimal q) (all_optimal qs) h),
            optimise_all_done qs (both_right (is_optimal q) (all_optimal qs) h),
          )
          refl

  -- What `optimise` gives has no negation of a negation, no conjunction or disjunction of fewer than
  -- two queries and no choice of one value, and optimising it again changes nothing.
  pub optimise_idem :
      (q q' : AbstractQuery K V)
      → optimise q ≡ some q'
      → (is_optimal q' ≡ true) × (optimise q' ≡ some q')
  optimise_idem q q' h =
      let opt : is_optimal q' ≡ true = cc (h, optimal-optimised q) in (opt, optimise_done q' opt)
