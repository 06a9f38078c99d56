-- ===== src/ProductIds/Manager/Removed.antt =====
-- Which certificates `update_removed` deletes.
use subscription_manager.Base.{
  ◌≡◌, refl, ◌∙◌, String, Bool, true, false, not, ◌&&◌, ◌||◌, none, some, List, [], ◌∷◌, ◌++◌, map,
  filter, any, all, contains, ◌==◌, string_eq, if◌then◌else◌, arith, Option-cases, ◌⊎◌, inl, inr,
}
use subscription_manager.Base.Dict.{Dict, lookup, has-lookup, lookup-erase, NodupKeys}
use subscription_manager.ProductIds.Database.{Content, find_repos, delete}
use subscription_manager.ProductIds.Manager.{
  Product, Place, product_dir, product_default, ProductCert, State, certs_of, product_id, list,
  delete_cert, delete_known, keeps_cert, delete_product_cert, is_protected, is_unneeded,
  delete_certs, update_removed,
}

-- Whether a product is idle: the database knows its repositories, and none of them had errors, is
-- active, or is disabled for a time.
abbrev pub is_idle : (errors active temp_disabled : List String) → Content → String → Bool
is_idle errors active temp_disabled db id = elim (lookup id db) [
  | none ↦ false
  | some repos ↦
      all (λ r. not (contains errors r || contains active r || contains temp_disabled r)) repos
]

any-append :
    {A : Type 0} (test : A → Bool) (xs ys : List A)
    → any test (xs ++ ys) ≡ (any test xs || any test ys)
any-append test [] ys = refl
any-append test (x ∷ xs) ys = ground (arith, any-append test xs ys)

any-filter :
    {A : Type 0} (test keep : A → Bool) (xs : List A)
    → any test (filter keep xs) ≡ any (λ x. keep x && test x) xs
any-filter test keep [] = refl
any-filter test keep (x ∷ xs) = ground (arith, any-filter test keep xs)

abbrev in_product_dir : Place → Bool
in_product_dir place = not (is_protected place)

delete_known-installed :
    (c : ProductCert) (s : State) (n : String)
    → lookup n (delete_known c s).installed
      ≡ (if in_product_dir c.place && n == c.name then none else lookup n s.installed)
unfolding delete_known delete_cert
delete_known-installed c s n =
    elim c.place
      as (λ place.
        lookup n (delete_known (record c { place = place }) s).installed
        ≡ (if in_product_dir place && n == c.name then none else lookup n s.installed)) [
          | product_dir ↦ ground (arith, lookup-erase n c.name s.installed)
          | product_default ↦ refl
        ]

pub Place-cases : (place : Place) → (place ≡ product_dir) ⊎ (place ≡ product_default)
Place-cases product_dir = inl refl
Place-cases product_default = inr refl

delete_known-defaults :
    (c : ProductCert) (s : State)
    → in_product_dir c.place ≡ true
    → (delete_known c s).defaults ≡ s.defaults
unfolding delete_known delete_cert
delete_known-defaults c s h = elim (Place-cases c.place) [
  | inl q ↦ ground (arith, q)
  | inr q ↦ ground (arith, q, h)
]

delete_cert-db : (c : ProductCert) (s : State) → (delete_cert c s).db ≡ s.db
unfolding delete_cert
delete_cert-db c s = elim (Place-cases c.place) [
  | inl q ↦ ground (arith, q)
  | inr q ↦ ground (arith, q)
]

delete_known-db :
    (c : ProductCert) (s : State) (i : String)
    → lookup i (delete_known c s).db ≡ (if i == product_id c then none else lookup i s.db)
unfolding delete_known delete
delete_known-db c s i = ground (arith, delete_cert-db c s, lookup-erase i (product_id c) s.db)

delete_certs-installed :
    (cs : List ProductCert) (s : State) (n : String)
    → lookup n (delete_certs cs s).installed
      ≡ (if any (λ c. in_product_dir c.place && n == c.name) cs then none else lookup n s.installed)
unfolding delete_certs
delete_certs-installed [] s n = refl
delete_certs-installed (c ∷ cs) s n =
    ground (arith, delete_certs-installed cs (delete_known c s) n, delete_known-installed c s n)

delete_certs-db :
    (cs : List ProductCert) (s : State) (i : String)
    → lookup i (delete_certs cs s).db
      ≡ (if any (λ c. i == product_id c) cs then none else lookup i s.db)
unfolding delete_certs
delete_certs-db [] s i = refl
delete_certs-db (c ∷ cs) s i =
    ground (arith, delete_certs-db cs (delete_known c s) i, delete_known-db c s i)

delete_certs-defaults :
    (cs : List ProductCert) (s : State)
    → all (λ c. in_product_dir c.place) cs ≡ true
    → (delete_certs cs s).defaults ≡ s.defaults
unfolding delete_certs
delete_certs-defaults [] s h = refl
delete_certs-defaults (c ∷ cs) s h =
    delete_certs-defaults cs (delete_known c s) (ground (arith, h))
    ∙ delete_known-defaults c s (ground (arith, h))

delete_product_cert_lem :
    (errors disabled active temp_disabled repos : List String)
    → delete_product_cert errors disabled active temp_disabled repos
      ≡ all (λ r. not (contains errors r || contains active r || contains temp_disabled r)) repos
unfolding delete_product_cert keeps_cert
delete_product_cert_lem errors disabled active temp_disabled [] = refl
delete_product_cert_lem errors disabled active temp_disabled (r ∷ repos) =
    ground (arith, delete_product_cert_lem errors disabled active temp_disabled repos)

module _ (errors disabled active temp_disabled : List String) (db : Content) where
  abbrev unneeded : ProductCert → Bool
  unneeded = is_unneeded errors disabled active temp_disabled db

  is_unneeded_lem :
      (c : ProductCert)
      → unneeded c
        ≡ (in_product_dir c.place && is_idle errors active temp_disabled db (product_id c))
  unfolding is_unneeded find_repos
  is_unneeded_lem c = elim (Option-cases (lookup (product_id c) db)) [
    | inl q ↦ ground (arith, q)
    | inr (repos, q) ↦
        ground (arith, q, delete_product_cert_lem errors disabled active temp_disabled repos)
  ]

  any-defaults :
      (test : ProductCert → Bool) (keep : ProductCert → Bool) (d : Dict String Product)
      → any (λ c. unneeded c && test c) (filter keep (certs_of product_default d)) ≡ false
  any-defaults test keep [] = refl
  any-defaults test keep ((n, p) ∷ d) = ground (
    arith,
    any-defaults test keep d,
    is_unneeded_lem (record { place = product_default; name = n; product = p }),
  )

  -- what a test of names finds among the unneeded files
  any-installed :
      (d : Dict String Product) (n : String)
      → NodupKeys d
      → any (λ c. unneeded c && (in_product_dir c.place && n == c.name)) (certs_of product_dir d)
        ≡ elim (lookup n d) [ none ↦ false | some p ↦ is_idle errors active temp_disabled db p.id ]
  unfolding lookup
  any-installed [] n h = refl
  any-installed ((k, p) ∷ d) n h = ground (
    arith,
    any-installed d n h.1,
    has-lookup k d,
    is_unneeded_lem (record { place = product_dir; name = k; product = p }),
  )

  any-ids :
      (d : Dict String Product) (i : String)
      → any (λ c. unneeded c && i == product_id c) (certs_of product_dir d) ≡ (
          contains (map product_id (certs_of product_dir d)) i
          && is_idle errors active temp_disabled db i)
  any-ids [] i = refl
  any-ids ((k, p) ∷ d) i =
      ground (
        arith,
        any-ids d i,
        is_unneeded_lem (record { place = product_dir; name = k; product = p }),
      )

  all-unneeded :
      (cs : List ProductCert) → all (λ c. in_product_dir c.place) (filter unneeded cs) ≡ true
  all-unneeded [] = refl
  all-unneeded (c ∷ cs) = ground (arith, all-unneeded cs, is_unneeded_lem c)

-- `update_removed` deletes the files of exactly the products that are idle, in the directory for
-- products, where the file names are distinct; it deletes their entries in the database, keeps the
-- directory of defaults, and does not depend on which repositories are disabled.
pub update_removed_lem :
    (errors disabled active temp_disabled : List String) (s : State)
    → NodupKeys s.installed
    → let after = update_removed errors disabled active temp_disabled s in
      let idle = is_idle errors active temp_disabled s.db in
      ((n : String)
        → lookup n after.installed ≡ elim (lookup n s.installed) [
          | none ↦ none
          | some p ↦ if idle p.id then none else some p
        ])
      × ((i : String)
          → lookup i after.db ≡ (
              if contains (map product_id (certs_of product_dir s.installed)) i && idle i
              then none
              else lookup i s.db))
      × (after.defaults ≡ s.defaults)
unfolding update_removed list
update_removed_lem errors disabled active temp_disabled s distinct =
    let unneeded = is_unneeded errors disabled active temp_disabled s.db in
    let own = certs_of product_dir s.installed in
    let more =
      filter (λ c. not (contains (map product_id own) (product_id c)))
        (certs_of product_default s.defaults) in
    let cs = filter unneeded (own ++ more) in
    (
      λ n.
          let test = λ (c : ProductCert). in_product_dir c.place && n == c.name in
          ground (
            arith,
            delete_certs-installed cs s n,
            any-filter test unneeded (own ++ more),
            any-append (λ c. unneeded c && test c) own more,
            any-defaults errors disabled active temp_disabled s.db test
                (λ c. not (contains (map product_id own) (product_id c))) s.defaults,
            any-installed errors disabled active temp_disabled s.db s.installed n distinct,
          ),
      λ i.
          let test = λ (c : ProductCert). i == product_id c in
          ground (
            arith,
            delete_certs-db cs s i,
            any-filter test unneeded (own ++ more),
            any-append (λ c. unneeded c && test c) own more,
            any-defaults errors disabled active temp_disabled s.db test
                (λ c. not (contains (map product_id own) (product_id c))) s.defaults,
            any-ids errors disabled active temp_disabled s.db s.installed i,
          ),
      delete_certs-defaults cs s
          (all-unneeded errors disabled active temp_disabled s.db (own ++ more)),
    )
