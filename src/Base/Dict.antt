-- ===== src/Base/Dict.antt =====
-- Python's `dict`, in insertion order.
use subscription_manager.Base.{
  ◌≡◌, refl, Bool, true, false, Option, none, some, List, [], ◌∷◌, ◌++◌, map, filter, ◌||◌, arith,
  Eq, ◌==◌, contains, contains-append, is_some, if◌then◌else◌,
}

abbrev pub Dict {ℓ κ} : Type ℓ → Type κ → Type (ℓ ⊔ κ)
Dict K V = List (K × V)

-- `d.keys()`
unfoldable pub keys {ℓ κ} : {K : Type ℓ} {V : Type κ} → Dict K V → List K
keys = map (λ (k, _). k)

module _ {ℓ κ} {K : Type ℓ} {V : Type κ} ⦃e : Eq K⦄ where
  -- `d.get(k)`
  unfoldable pub lookup : K → Dict K V → Option V
  lookup k [] = none
  lookup k ((j, v) ∷ d) = if k == j then some v else lookup k d

  -- `k in d`
  unfoldable pub has : K → Dict K V → Bool
  has k [] = false
  has k ((j, v) ∷ d) = if k == j then true else has k d

  -- `d[k] = v`
  unfoldable pub insert : K → V → Dict K V → Dict K V
  insert k v [] = (k, v) ∷ []
  insert k v ((j, w) ∷ d) = if k == j then (k, v) ∷ d else (j, w) ∷ insert k v d

  -- `d.pop(k, None)`, `del d[k]`. Every entry of the key goes; a real dict has at most one.
  unfoldable pub erase : K → Dict K V → Dict K V
  erase k [] = []
  erase k ((j, w) ∷ d) = let rest = erase k d in if k == j then rest else (j, w) ∷ rest

  pub lookup-nil : (k : K) → lookup k [] ≡ none
  unfolding lookup
  lookup-nil k = refl

  pub lookup-cons :
      (j k : K) (v : V) (d : Dict K V)
      → lookup j ((k, v) ∷ d) ≡ (if j == k then some v else lookup j d)
  unfolding lookup
  lookup-cons j k v d = refl

  pub lookup-insert :
      (j k : K) (v : V) (d : Dict K V)
      → lookup j (insert k v d) ≡ (if j == k then some v else lookup j d)
  unfolding insert lookup
  lookup-insert j k v [] = refl
  lookup-insert j k v ((i, w) ∷ d) = ground (arith, lookup-insert j k v d)

  pub lookup-erase :
      (j k : K) (d : Dict K V) → lookup j (erase k d) ≡ (if j == k then none else lookup j d)
  unfolding erase lookup
  lookup-erase j k [] = ground arith
  lookup-erase j k ((i, w) ∷ d) = ground (arith, lookup-erase j k d)

  pub lookup-append :
      (k : K) (c d : Dict K V)
      → lookup k (c ++ d) ≡ elim (lookup k c) [ some v ↦ some v | none ↦ lookup k d ]
  unfolding lookup
  lookup-append k [] d = refl
  lookup-append k ((j, v) ∷ c) d = ground (arith, lookup-append k c d)

  pub has-lookup : (k : K) (d : Dict K V) → has k d ≡ is_some (lookup k d)
  unfolding has lookup
  has-lookup k [] = refl
  has-lookup k ((i, w) ∷ d) = ground (arith, has-lookup k d)

  pub contains-keys : (k : K) (d : Dict K V) → contains (keys d) k ≡ has k d
  unfolding keys has
  contains-keys k [] = refl
  contains-keys k ((i, w) ∷ d) = ground (arith, contains-keys k d)

module _ {ℓ κ} {K : Type ℓ} {V : Type κ} ⦃e : Eq K⦄ ⦃f : Eq V⦄ where
  -- every entry of the first is an entry of the second
  abbrev agrees : Dict K V → Dict K V → List K → Bool
  agrees c d [] = true
  agrees c d (k ∷ ks) = elim (lookup k c) [
    | none ↦ elim (lookup k d) [ none ↦ agrees c d ks | some _ ↦ false ]
    | some v ↦ elim (lookup k d) [ none ↦ false | some w ↦ if v == w then agrees c d ks else false ]
  ]

  -- `c == d`: the same keys with equal values, in any order.
  unfoldable pub dict_eq : Dict K V → Dict K V → Bool
  unfolding lookup
  dict_eq c d = agrees c d (keys c ++ keys d)

  agrees-at :
      (c d : Dict K V) (ks : List K) (k : K)
      → agrees c d ks ≡ true
      → contains ks k ≡ true
      → lookup k c ≡ lookup k d
  agrees-at c d [] k h m = cc
  agrees-at c d (j ∷ ks) k h m = ground (arith, agrees-at c d ks k)

  agrees_of_eq :
      (c d : Dict K V) (ks : List K) → ((k : K) → lookup k c ≡ lookup k d) → agrees c d ks ≡ true
  agrees_of_eq c d [] h = refl
  agrees_of_eq c d (j ∷ ks) h = ground (arith, agrees_of_eq c d ks h, h j)

  pub dict_eq-lookup : (c d : Dict K V) (k : K) → dict_eq c d ≡ true → lookup k c ≡ lookup k d
  unfolding dict_eq
  dict_eq-lookup c d k h = ground (
    arith,
    agrees-at c d (keys c ++ keys d) k h,
    contains-append (keys c) (keys d) k,
    contains-keys k c,
    contains-keys k d,
    has-lookup k c,
    has-lookup k d,
  )

  pub dict_eq_of_lookup :
      (c d : Dict K V) → ((k : K) → lookup k c ≡ lookup k d) → dict_eq c d ≡ true
  unfolding dict_eq
  dict_eq_of_lookup c d h = agrees_of_eq c d _ h

-- the entry that is left of an entry by a filter on values
abbrev pub kept {κ} : {V : Type κ} → (V → Bool) → Option V → Option V
kept test none = none
kept test (some v) = if test v then some v else none

module _ {ℓ κ} {K : Type ℓ} {V : Type κ} ⦃e : Eq K⦄ where
  -- No key has two entries, as in every `dict`.
  abbrev pub NodupKeys : Dict K V → Type 0
  NodupKeys [] = Unit
  NodupKeys ((k, _) ∷ d) = (has k d ≡ false) × NodupKeys d

  pub has-insert : (j k : K) (v : V) (d : Dict K V) → has j (insert k v d) ≡ (j == k || has j d)
  unfolding insert has
  has-insert j k v [] = ground arith
  has-insert j k v ((i, w) ∷ d) = ground (arith, has-insert j k v d)

  pub insert-NodupKeys : (k : K) (v : V) (d : Dict K V) → NodupKeys d → NodupKeys (insert k v d)
  unfolding insert has
  insert-NodupKeys k v [] h = (refl, tt)
  insert-NodupKeys k v ((i, w) ∷ d) h =
      ground (arith, insert-NodupKeys k v d h.1, has-insert i k v d)

  pub lookup-filter :
      (test : V → Bool) (k : K) (d : Dict K V)
      → NodupKeys d
      → lookup k (filter (λ (j, v). test v) d) ≡ kept test (lookup k d)
  unfolding lookup
  lookup-filter test k [] h = refl
  lookup-filter test k ((i, w) ∷ d) h = ground (arith, lookup-filter test k d h.1, has-lookup i d)
