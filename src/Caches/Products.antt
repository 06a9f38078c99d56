-- ===== src/Caches/Products.antt =====
-- `InstalledProductsManager` of src/subscription_manager/cache.py.
pub mod Laws
use subscription_manager.Base.{
  String, String-discrete, ◌<>◌, Bool, true, false, not, ◌&&◌, Option, none, some, List, [], ◌∷◌,
  ◌++◌, map, filter, all, contains, length, ℕ, Eq, ◌==◌, nat_eq, string_eq, if◌then◌else◌,
}
use subscription_manager.Base.Dict.{Dict, keys, insert, dict_eq}
use subscription_manager.Base.Slashes.{join}
use subscription_manager.Base.Result.{Error, Result, ok, err, type_error}
use subscription_manager.Caches.File.{File, missing, unreadable, corrupt, stored}

-- the first product of a product certificate
pub record Product : Type 0 where
  pub id : String
  pub name : String
  pub version : String
  pub architectures : List String
  pub provided_tags : List String

-- what is told of a product
pub data Installed : Type 0 where
  installed_product : (product_id product_name version arch : String) → Installed

unfoldable pub Installed-discrete : Discrete Installed
Installed-discrete = hlevel String-discrete

instance abbrev pub installed_eq : Eq Installed
installed_eq = record { dec = Installed-discrete }

-- `self._installed` and `self.tags`
pub record Setup : Type 0 where
  pub installed : Dict String Installed
  pub tags : List String

-- `tags |= set(more)`
abbrev pub add_tags : List String → List String → List String
add_tags tags [] = tags
add_tags tags (t ∷ more) = add_tags (if contains tags t then tags else tags ++ (t ∷ [])) more

abbrev pub setup_loop : List Product → Setup → Setup
setup_loop [] s = s
setup_loop (p ∷ products) s = setup_loop products (record {
  installed =
      insert p.id (installed_product p.id p.name p.version (join "," p.architectures)) s.installed;
  tags = add_tags s.tags p.provided_tags;
})

-- `_setup_installed`, from the products of the directory
unfoldable pub _setup_installed : List Product → Setup
_setup_installed products = setup_loop products (record { installed = []; tags = [] })

-- The file's data: older formats lack a key.
pub record Cached : Type 0 where
  pub products : Option (Dict String Installed)
  pub tags : Option (List String)

-- `to_dict`
unfoldable pub to_dict : Setup → Cached
to_dict s = record { products = some s.installed; tags = some s.tags }

-- equality of two sets of tags
abbrev pub same_tags : List String → List String → Bool
same_tags ts us = all (contains us) ts && all (contains ts) us

abbrev pub differs : Dict String Installed → List String → Setup → Bool
differs products tags s =
    if not (length (keys products) == length (keys s.installed))
    then true
    else if not (dict_eq products s.installed)
    then true
    else not (same_tags tags s.tags)

-- the test on what the file holds; a missing key is a KeyError, which is caught
abbrev cached_differs : Option (Dict String Installed) → Option (List String) → Setup → Bool
cached_differs none tags s = true
cached_differs (some p) none s = true
cached_differs (some p) (some t) s = differs p t s

-- `has_changed`: what is read of a file that cannot be read or parsed is `None`, whose index is taken.
unfoldable pub products_changed : List Product → File Cached → Result Bool
products_changed products missing = ok true
products_changed products unreadable = err type_error
products_changed products corrupt = err type_error
products_changed products (stored c) =
    ok (cached_differs c.products c.tags (_setup_installed products))

-- the values of a dictionary
abbrev values : Dict String Installed → List Installed
values = map (λ (k, v). v)

-- `format_for_server`
unfoldable pub format_for_server : List Product → List Installed
format_for_server products = values (_setup_installed products).installed
