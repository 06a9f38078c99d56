-- ===== src/Caches/Products/Laws.antt =====
-- When the installed products count as changed.
use subscription_manager.Base.{
  ◌≡◌, refl, ◌∙◌, ap, String, true, false, some, Option, none, if◌then◌else◌, ◌++◌, ◌==◌, ◌||◌,
  Bool, any, contains-append, List, [], ◌∷◌, all, contains, nat_eq, string_eq, arith,
}
use subscription_manager.Base.Dict.{
  Dict, lookup, insert, lookup-insert, dict_eq-lookup, dict_eq_of_lookup,
}
use subscription_manager.Base.Slashes.{join}
use subscription_manager.Base.Result.{ok}
use subscription_manager.Caches.File.{stored}
use subscription_manager.Caches.Products.{
  Product, Installed, installed_product, Setup, installed_eq, add_tags, setup_loop,
  _setup_installed, to_dict, same_tags, products_changed,
}

all-contains :
    (us ts : List String) (t : String)
    → all (contains us) ts ≡ true
    → contains ts t ≡ true
    → contains us t ≡ true
all-contains us [] t h m = cc
all-contains us (x ∷ ts) t h m = ground (arith, all-contains us ts t)

same_tags_sound :
    (ts us : List String) (t : String) → same_tags ts us ≡ true → contains ts t ≡ contains us t
same_tags_sound ts us t h = ground (arith, all-contains us ts t, all-contains ts us t)

all_self :
    (ts us : List String)
    → ((t : String) → contains ts t ≡ true → contains us t ≡ true)
    → all (contains us) ts ≡ true
all_self [] us h = refl
all_self (t ∷ ts) us h = ground (arith, h t, all_self ts us (λ x m. h x (ground (arith, m))))

-- what is told of the last product with an identity, and `found` where there is none
abbrev pub told_from : Option Installed → String → List Product → Option Installed
told_from found k [] = found
told_from found k (p ∷ products) =
    told_from
      (if k == p.id
        then some (installed_product p.id p.name p.version (join "," p.architectures))
        else found)
      k products

-- whether a product provides a tag
abbrev pub provides : String → List Product → Bool
provides t products = any (λ p. contains p.provided_tags t) products

contains-add_tags :
    (tags more : List String) (t : String)
    → contains (add_tags tags more) t ≡ (contains tags t || contains more t)
contains-add_tags tags [] t = ground arith
contains-add_tags tags (x ∷ more) t = ground (
  arith,
  contains-add_tags tags more t,
  contains-add_tags (tags ++ (x ∷ [])) more t,
  contains-append tags (x ∷ []) t,
)

setup_loop-told :
    (products : List Product) (s : Setup) (k t : String)
    → (lookup k (setup_loop products s).installed ≡ told_from (lookup k s.installed) k products)
      × (contains (setup_loop products s).tags t ≡ (contains s.tags t || provides t products))
setup_loop-told [] s k t = ground arith
setup_loop-told (p ∷ products) s k t =
    let told = installed_product p.id p.name p.version (join "," p.architectures) in
    let s' : Setup = record {
      installed = insert p.id told s.installed;
      tags = add_tags s.tags p.provided_tags;
    } in
    let (same, tagged) = setup_loop-told products s' k t in
    (
      same ∙ ap (λ o. told_from o k products) (lookup-insert k p.id told s.installed),
      ground (arith, tagged, contains-add_tags s.tags p.provided_tags t),
    )

setup_installed-told :
    (products : List Product) (k t : String)
    → (lookup k (_setup_installed products).installed ≡ told_from none k products)
      × (contains (_setup_installed products).tags t ≡ provides t products)
unfolding _setup_installed lookup
setup_installed-told products k t =
    setup_loop-told products (record { installed = []; tags = [] }) k t

-- If the file holds products and tags and nothing counts as changed, then it holds, under every identity,
-- the name, the version and the architectures of the last installed product that has it, or nothing where none
-- has, and its tags are those that some installed product provides.
pub unchanged_sound :
    (products : List Product) (p : Dict String Installed) (tags : List String)
    → products_changed products (stored (record { products = some p; tags = some tags })) ≡ ok false
    → ((k : String) → lookup k p ≡ told_from none k products)
      × ((t : String) → contains tags t ≡ provides t products)
unfolding products_changed
unchanged_sound products p tags h =
    let s = _setup_installed products in
    (
      λ k.
          dict_eq-lookup p s.installed k (ground (arith, h))
          ∙ (setup_installed-told products k "").0,
      λ t.
          same_tags_sound tags s.tags t (ground (arith, h))
          ∙ (setup_installed-told products "" t).1,
    )

-- What is written after a synchronisation does not count as changed while the products stay the same.
pub to_dict-unchanged :
    (products : List Product)
    → products_changed products (stored (to_dict (_setup_installed products))) ≡ ok false
unfolding products_changed to_dict
to_dict-unchanged products =
    let s = _setup_installed products in
    ground (
      arith,
      dict_eq_of_lookup s.installed s.installed (λ k. refl),
      all_self s.tags s.tags (λ t m. m),
    )
