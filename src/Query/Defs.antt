-- ===== src/Query/Defs.antt =====
-- `AbstractQuery` and its operations `optimise`, `get_name`, `map`, `map_names` and `map_values`. A
-- closure is a function that may fail; the lists of subqueries are a type of the block.
use instnt_aries_vcx.Base.{String, Option, none, some, List, [], ◌∷◌, ◌++◌, Result, ok, and_then}

mutual
  pub data AbstractQuery (K V : Type 0) : Type 0 where
    and or : Queries K V → AbstractQuery K V
    not : AbstractQuery K V → AbstractQuery K V
    eq neq gt gte lt lte like : K → V → AbstractQuery K V
    in_ : K → List V → AbstractQuery K V
    exist : List K → AbstractQuery K V

  pub data Queries (K V : Type 0) : Type 0 where
    nil : Queries K V
    cons : AbstractQuery K V → Queries K V → Queries K V

abbrev pub Query : Type 0
Query = AbstractQuery String String

-- `AbstractQuery::default`
abbrev pub default_query : Query
default_query = and nil

module _ {K V : Type 0} where
  -- `match boxed_query.optimise()`
  abbrev pub negated : Option (AbstractQuery K V) → Option (AbstractQuery K V)
  negated none = none
  negated (some (AbstractQuery.not nested)) = some nested
  negated (some other) = some (AbstractQuery.not other)

  -- `filter_map` of a list, at its head
  abbrev pub keep : Option (AbstractQuery K V) → Queries K V → Queries K V
  keep none qs = qs
  keep (some q) qs = cons q qs

  -- `match subqueries.len()`
  abbrev pub gathered : (Queries K V → AbstractQuery K V) → Queries K V → Option (AbstractQuery K V)
  gathered c nil = none
  gathered c (cons q nil) = some q
  gathered c qs = some (c qs)

  abbrev pub one_of : K → List V → AbstractQuery K V
  one_of k (v ∷ []) = eq k v
  one_of k vs = in_ k vs

  unfoldable mutual
    pub optimise : AbstractQuery K V → Option (AbstractQuery K V)
    optimise (AbstractQuery.not q) = negated (optimise q)
    optimise (and qs) = gathered and (optimise_all qs)
    optimise (or qs) = gathered or (optimise_all qs)
    optimise (in_ k vs) = some (one_of k vs)
    optimise (eq k v) = some (eq k v)
    optimise (neq k v) = some (neq k v)
    optimise (gt k v) = some (gt k v)
    optimise (gte k v) = some (gte k v)
    optimise (lt k v) = some (lt k v)
    optimise (lte k v) = some (lte k v)
    optimise (like k v) = some (like k v)
    optimise (exist ks) = some (exist ks)

    pub optimise_all : Queries K V → Queries K V
    optimise_all nil = nil
    optimise_all (cons q qs) = keep (optimise q) (optimise_all qs)

  unfoldable mutual
    pub get_name : AbstractQuery K V → List K
    get_name (and qs) = get_names qs
    get_name (or qs) = get_names qs
    get_name (AbstractQuery.not q) = get_name q
    get_name (exist ks) = ks
    get_name (eq k _) = k ∷ []
    get_name (neq k _) = k ∷ []
    get_name (gt k _) = k ∷ []
    get_name (gte k _) = k ∷ []
    get_name (lt k _) = k ∷ []
    get_name (lte k _) = k ∷ []
    get_name (like k _) = k ∷ []
    get_name (in_ k _) = k ∷ []

    pub get_names : Queries K V → List K
    get_names nil = []
    get_names (cons q qs) = get_name q ++ get_names qs

-- `iter.map(f).collect::<Result<Vec<_>, E>>()`
module _ {E A B : Type 0} where
  abbrev pub collect : (A → Result E B) → List A → Result E (List B)
  collect f [] = ok []
  collect f (a ∷ as_) = and_then (f a) λ b. and_then (collect f as_) λ bs. ok (b ∷ bs)

module _ {K V K' V' E : Type 0} (kf : K → Result E K') (vf : K → V → Result E V') where
  -- The value first, and then the name.
  abbrev pub both : (K' → V' → AbstractQuery K' V') → K → V → Result E (AbstractQuery K' V')
  both c k v = and_then (vf k v) λ v'. and_then (kf k) λ k'. ok (c k' v')

  unfoldable mutual
    pub map : AbstractQuery K V → Result E (AbstractQuery K' V')
    map (eq k v) = both eq k v
    map (neq k v) = both neq k v
    map (gt k v) = both gt k v
    map (gte k v) = both gte k v
    map (lt k v) = both lt k v
    map (lte k v) = both lte k v
    map (like k v) = both like k v
    map (in_ k vs) = and_then (collect (vf k) vs) λ vs'. and_then (kf k) λ k'. ok (in_ k' vs')
    map (exist ks) = and_then (collect kf ks) λ ks'. ok (exist ks')
    map (and qs) = and_then (map_all qs) λ qs'. ok (and qs')
    map (or qs) = and_then (map_all qs) λ qs'. ok (or qs')
    map (AbstractQuery.not q) = and_then (map q) λ q'. ok (AbstractQuery.not q')

    pub map_all : Queries K V → Result E (Queries K' V')
    map_all nil = ok nil
    map_all (cons q qs) = and_then (map q) λ q'. and_then (map_all qs) λ qs'. ok (cons q' qs')

module _ {K V K' E : Type 0} where
  unfoldable pub map_names : (K → Result E K') → AbstractQuery K V → Result E (AbstractQuery K' V)
  map_names f = map f (λ _ v. ok v)

module _ {K V V' E : Type 0} where
  unfoldable pub map_values :
      (K → V → Result E V') → AbstractQuery K V → Result E (AbstractQuery K V')
  map_values f = map (λ k. ok k) f
