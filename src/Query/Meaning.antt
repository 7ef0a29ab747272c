-- ===== src/Query/Meaning.antt =====
-- What a query asks of a record, and that `optimise` keeps it. A conjunction or disjunction with
-- nothing in it is no condition: `optimise` leaves it out.
use instnt_aries_vcx.Base.{
  ◌≡◌, refl, Bool, false, not as negate, ◌&&◌, ◌||◌, Option, none, some, List, [], ◌∷◌, arith,
}
use instnt_aries_vcx.Query.Defs.{
  AbstractQuery, and, or, eq, neq, gt, gte, lt, lte, like, in_, exist, Queries, nil, cons, optimise,
  optimise_all, negated, keep, gathered, one_of,
}

-- How a record answers each test on one of its fields.
pub record Matcher (K V : Type 0) : Type 0 where
  pub is_eq : K → V → Bool
  pub is_neq : K → V → Bool
  pub is_gt : K → V → Bool
  pub is_gte : K → V → Bool
  pub is_lt : K → V → Bool
  pub is_lte : K → V → Bool
  pub is_like : K → V → Bool
  pub has : K → Bool

abbrev any : {A : Type 0} → (A → Bool) → List A → Bool
any f [] = false
any f (a ∷ as_) = f a || any f as_

abbrev not_opt : Option Bool → Option Bool
not_opt none = none
not_opt (some b) = some (negate b)

-- Two conditions together, of which either can be missing.
abbrev join : (Bool → Bool → Bool) → Option Bool → Option Bool → Option Bool
join f none y = y
join f (some a) none = some a
join f (some a) (some b) = some (f a b)

module _ {K V : Type 0} (m : Matcher K V) where
  unfoldable mutual
    pub meaning : AbstractQuery K V → Option Bool
    meaning (and qs) = all_of (λ a b. a && b) qs
    meaning (or qs) = all_of (λ a b. a || b) qs
    meaning (AbstractQuery.not q) = not_opt (meaning q)
    meaning (eq k v) = some (m.is_eq k v)
    meaning (neq k v) = some (m.is_neq k v)
    meaning (gt k v) = some (m.is_gt k v)
    meaning (gte k v) = some (m.is_gte k v)
    meaning (lt k v) = some (m.is_lt k v)
    meaning (lte k v) = some (m.is_lte k v)
    meaning (like k v) = some (m.is_like k v)
    meaning (in_ k vs) = some (any (m.is_eq k) vs)
    meaning (exist ks) = some (any m.has ks)

    all_of : (Bool → Bool → Bool) → Queries K V → Option Bool
    all_of f nil = none
    all_of f (cons q qs) = join f (meaning q) (all_of f qs)

  -- The meaning of what is left, where something is left.
  abbrev pub meaning_opt : Option (AbstractQuery K V) → Option Bool
  meaning_opt none = none
  meaning_opt (some q) = meaning q

  meaning-negated :
      (o : Option (AbstractQuery K V)) → meaning_opt (negated o) ≡ not_opt (meaning_opt o)
  unfolding meaning
  meaning-negated o = ground arith

  all_of-keep :
      (f : Bool → Bool → Bool) (o : Option (AbstractQuery K V)) (qs : Queries K V)
      → all_of f (keep o qs) ≡ join f (meaning_opt o) (all_of f qs)
  unfolding meaning
  all_of-keep f o qs = ground arith

  meaning-gathered_and :
      (qs : Queries K V) → meaning_opt (gathered and qs) ≡ all_of (λ a b. a && b) qs
  unfolding meaning
  meaning-gathered_and qs = ground arith

  meaning-gathered_or :
      (qs : Queries K V) → meaning_opt (gathered or qs) ≡ all_of (λ a b. a || b) qs
  unfolding meaning
  meaning-gathered_or qs = ground arith

  any_one : (k : K) (vs : List V) → meaning (one_of k vs) ≡ some (any (m.is_eq k) vs)
  unfolding meaning
  any_one k vs = ground arith

  mutual
    unfolding optimise meaning

    meaning-optimised : (q : AbstractQuery K V) → meaning_opt (optimise q) ≡ meaning q
    meaning-optimised (AbstractQuery.not q) =
        rw (meaning-negated (optimise q), meaning-optimised q) refl
    meaning-optimised (and qs) =
        rw (meaning-gathered_and (optimise_all qs)) (all_of-optimised (λ a b. a && b) qs)
    meaning-optimised (or qs) =
        rw (meaning-gathered_or (optimise_all qs)) (all_of-optimised (λ a b. a || b) qs)
    meaning-optimised (in_ k vs) = any_one k vs
    meaning-optimised _ = refl

    all_of-optimised :
        (f : Bool → Bool → Bool) (qs : Queries K V) → all_of f (optimise_all qs) ≡ all_of f qs
    all_of-optimised f nil = refl
    all_of-optimised f (cons q qs) =
        rw
          (all_of-keep f (optimise q) (optimise_all qs), meaning-optimised q, all_of-optimised f qs)
          refl

  -- `optimise` keeps the meaning of a query: what is left asks the same of every record, and
  -- nothing is left only of a query that has no condition.
  pub meaning-optimise : (q : AbstractQuery K V) → meaning_opt (optimise q) ≡ meaning q
  meaning-optimise q = meaning-optimised q
