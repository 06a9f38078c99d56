-- ===== src/ProductIds/Manager.antt =====
-- `ProductManager` of src/subscription_manager/productid.py, with `ProductDirectory` of
-- src/subscription_manager/certdirectory.py.
pub mod Found
pub mod Marking
pub mod Installed
pub mod Removed
use Prim.Native.Char.{Char, code}
use subscription_manager.Base.{
  ℕ, String, Bool, true, false, not, ◌&&◌, ◌||◌, Option, none, some, is_some, List, [], ◌∷◌, ◌++◌,
  map, filter, any, contains, is_nil, Eq, ◌==◌, nat_eq, string_eq, if◌then◌else◌,
}
use subscription_manager.Base.Dict.{Dict, lookup, insert, erase}
use subscription_manager.Base.Slashes.{same_letters}
use subscription_manager.Repos.Repo.{Repo}
use subscription_manager.Repos.YumFile.{IniParser, section}
use subscription_manager.ProductIds.Versions.{Version, text, Sign, Evr, less}
use subscription_manager.ProductIds.Database.{Content, File, find_repos, add, delete, write}

pub record Product : Type 0 where
  pub id : String
  pub name : String
  pub version : Version
  pub provided_tags : List String

pub data Place : Type 0 where
  product_dir product_default : Place

-- A product certificate stands for its product; `name` is that of its file, without ".pem".
pub record ProductCert : Type 0 where
  pub place : Place
  pub name : String
  pub product : Product

-- What a plugin is told with: the hook and the products.
pub data Hook : Type 0 where
  pre_product_id_install post_product_id_install pre_product_id_update post_product_id_update : Hook

-- The files of the two directories, the database, its file, and the calls of plugins.
pub record State : Type 0 where
  pub installed : Dict String Product
  pub defaults : Dict String Product
  pub db : Content
  pub db_file : File
  pub hooks : List (Hook × List Product)

abbrev pub certs_of : Place → Dict String Product → List ProductCert
certs_of place [] = []
certs_of place ((n, p) ∷ d) = record { place = place; name = n; product = p } ∷ certs_of place d

abbrev pub product_id : ProductCert → String
product_id c = c.product.id

-- `ProductDirectory.list`
unfoldable pub list : State → List ProductCert
list s =
    let installed_prod_list = certs_of product_dir s.installed in
    let pids = map product_id installed_prod_list in
    installed_prod_list
    ++ filter (λ c. not (contains pids (product_id c))) (certs_of product_default s.defaults)

-- the loop of `find_by_product`
abbrev pub find_in : String → List ProductCert → Option Product
find_in p_hash [] = none
find_in p_hash (c ∷ certs) =
    let rest = find_in p_hash certs in if p_hash == product_id c then some c.product else rest

unfoldable pub find_by_product : String → State → Option Product
unfolding list
find_by_product p_hash s = find_in p_hash (list s)

-- `cert.delete()`, with the refresh of the listings
unfoldable pub delete_cert : ProductCert → State → State
delete_cert c s = elim c.place [
  | product_dir ↦ record s { installed = erase c.name s.installed }
  | product_default ↦ record s { defaults = erase c.name s.defaults }
]

-- a certificate goes with the entry of its product in the database, which is written
unfoldable pub delete_known : ProductCert → State → State
unfolding delete_cert
delete_known c s =
    let t = delete_cert c s in
    let db = delete (product_id c) t.db in record t { db = db; db_file = write db }

abbrev same_flag : Bool → Bool → Bool
same_flag true b = b
same_flag false b = not b

-- `utils.is_true_value`
abbrev is_true_value : String → Bool
is_true_value s = same_letters s "1" || same_letters s "true" || same_letters s "yes"

-- `utils.is_true_value(repo.get("enabled", "0"))` of a value that may be missing or None
unfoldable pub is_enabled : Option (Option String) → Bool
is_enabled none = false
is_enabled (some none) = false
is_enabled (some (some v)) = is_true_value v

-- whether one repository keeps the certificate, from the errors in metadata, the disabled and the
-- active repositories and those that are disabled for a time
unfoldable pub keeps_cert : (errors disabled active temp_disabled : List String) → String → Bool
keeps_cert errors disabled active temp_disabled repo =
    if contains errors repo
    then true
    else if contains disabled repo && contains active repo
    then true
    else if contains active repo
    then true
    else contains temp_disabled repo

-- the loop over the repositories of a product
unfoldable pub delete_product_cert :
    (errors disabled active temp_disabled repos : List String) → Bool
unfolding keeps_cert
delete_product_cert errors disabled active temp_disabled [] = true
delete_product_cert errors disabled active temp_disabled (repo ∷ repos) =
    let rest = delete_product_cert errors disabled active temp_disabled repos in
    if keeps_cert errors disabled active temp_disabled repo then false else rest

abbrev pub is_protected : Place → Bool
is_protected product_dir = false
is_protected product_default = true

-- The body of the loop of `update_removed`: whether a certificate is to be deleted. The test
-- `repos is []` is never true.
unfoldable pub is_unneeded :
    (errors disabled active temp_disabled : List String) → Content → ProductCert → Bool
unfolding delete_product_cert
is_unneeded errors disabled active temp_disabled db c =
    if is_protected c.place then false else elim (find_repos (product_id c) db) [
      | none ↦ false
      | some repos ↦ delete_product_cert errors disabled active temp_disabled repos
    ]

-- the loop over the certificates that are to be deleted
unfoldable pub delete_certs : List ProductCert → State → State
unfolding delete_known
delete_certs [] s = s
delete_certs (c ∷ certs_to_delete) s = delete_certs certs_to_delete (delete_known c s)

unfoldable pub update_removed : (errors disabled active temp_disabled : List String) → State → State
unfolding delete_certs is_unneeded list
update_removed errors disabled active temp_disabled s =
    delete_certs (filter (is_unneeded errors disabled active temp_disabled s.db) (list s)) s

-- `_is_workstation` and `_is_desktop`
abbrev is_version_5 : Version → Bool
is_version_5 v = code v.first == 53

unfoldable pub _is_workstation : Product → Bool
_is_workstation p =
    p.name == "Red Hat Enterprise Linux Workstation"
    && contains p.provided_tags "rhel-5-client-workstation"
    && is_version_5 p.version

unfoldable pub _is_desktop : Product → Bool
_is_desktop p =
    p.name == "Red Hat Enterprise Linux Desktop"
    && contains p.provided_tags "rhel-5-client"
    && is_version_5 p.version

unfoldable pub _workstation_cert_exists : State → Bool
unfolding list
_workstation_cert_exists s = any (λ c. _is_workstation c.product) (list s)

-- the loop that removes obsolete desktop certificates, over the listing before it
unfoldable pub remove_desktops : List ProductCert → State → State
unfolding delete_known
remove_desktops [] s = s
remove_desktops (c ∷ certs) s =
    remove_desktops certs (if _is_desktop c.product then delete_known c s else s)

-- `_list_has_workstation_and_desktop_cert`, and the cleanup of a list of products with something else
abbrev has_both : List Product → Bool
has_both products = any _is_desktop products && any _is_workstation products

unfoldable pub _desktop_workstation_cleanup : {A : Type 0} → (A → Product) → List A → List A
_desktop_workstation_cleanup product_of marked =
    if has_both (map product_of marked)
    then filter (λ m. not (_is_desktop (product_of m))) marked
    else marked

-- The lists that the loop of `update_installed` fills.
pub record Marked : Type 0 where
  pub products_to_install : List Product
  pub products_to_update : List Product
  pub products_to_update_db : List (Product × String)

-- `known_repos is None or repo not in known_repos`
abbrev pub is_unknown_repo : String → Option (List String) → Bool
is_unknown_repo repo none = true
is_unknown_repo repo (some repos) = not (contains repos repo)

-- What the code calls: rpm.labelCompare, and the plugins, which may change the list that they are given.
pub record Calls : Type 0 where
  pub label_compare : Evr → Evr → Sign
  pub run_plugins : Hook → List Product → List Product

unfoldable pub add_repos : List (Product × String) → Content → Content
unfolding add
add_repos [] db = db
add_repos ((p, repo) ∷ marked) db = add_repos marked (add p.id repo db)

unfoldable pub update_db : List (Product × String) → State → State
unfolding add_repos
update_db [] s = s
update_db (x ∷ marked) s =
    let db = add_repos (x ∷ marked) s.db in record s { db = db; db_file = write db }

-- the files that `write_product_certs` writes
unfoldable pub write_files : List Product → Dict String Product → Dict String Product
write_files [] files = files
write_files (p ∷ products) files = write_files products (insert p.id p files)

abbrev pub nothing_marked : Marked
nothing_marked = record {
  products_to_install = [];
  products_to_update = [];
  products_to_update_db = [];
}

module _ (calls : Calls) where
  -- `ComparableProductCert(cert) > ComparableProductCert(installed)`, for certificates of one product
  unfoldable pub is_newer : Product → Product → Bool
  is_newer p old = less calls.label_compare (text old.version) (text p.version)

  -- whether a product is to be installed and whether it is to be updated
  unfoldable pub mark : Product → String → State → Marked → Marked
  unfolding is_newer find_by_product
  mark p repo s m =
      let found = find_by_product p.id s in
      record {
        products_to_install = elim found [
          | none ↦ m.products_to_install ++ (p ∷ [])
          | some old ↦ m.products_to_install
        ];
        products_to_update = elim found [
          | none ↦ m.products_to_update
          | some old ↦
              if is_newer p old then m.products_to_update ++ (p ∷ []) else m.products_to_update
        ];
        products_to_update_db =
            if is_unknown_repo repo (find_repos p.id s.db)
            then m.products_to_update_db ++ ((p, repo) ∷ [])
            else m.products_to_update_db;
      }

  -- the body of the loop of `update_installed` for an active repository
  unfoldable pub consider : Product → String → Marked × State → Marked × State
  unfolding mark remove_desktops _workstation_cert_exists list
  consider p repo (m, s) =
      let t = if _is_workstation p then remove_desktops (list s) s else s in
      if _is_desktop p && _workstation_cert_exists t then (m, t) else (mark p repo t m, t)

  unfoldable pub mark_loop : List String → List (Product × String) → Marked × State → Marked × State
  unfolding consider
  mark_loop active [] w = w
  mark_loop active ((p, repo) ∷ enabled) w =
      mark_loop active enabled (if contains active repo then consider p repo w else w)

  -- `install_product_certs` and `update_product_certs`, between their hooks
  unfoldable pub write_product_certs : Hook → Hook → List Product → State → State
  unfolding write_files
  write_product_certs pre post products s =
      let written = calls.run_plugins pre products in
      record s {
        installed = write_files written s.installed;
        hooks = s.hooks ++ ((pre, products) ∷ (post, written) ∷ []);
      }

  -- the rest of `update_installed`, after the loop
  unfoldable pub finish : Marked × State → State
  unfolding write_product_certs update_db _desktop_workstation_cleanup
  finish (m, s) =
      let same = λ (p : Product). p in
      let first = λ (x : Product × String). x.0 in
      write_product_certs pre_product_id_update post_product_id_update
        (_desktop_workstation_cleanup same m.products_to_update)
        (write_product_certs pre_product_id_install post_product_id_install
          (_desktop_workstation_cleanup same m.products_to_install)
          (update_db (_desktop_workstation_cleanup first m.products_to_update_db) s))

  unfoldable pub update_installed : List (Product × String) → List String → State → State
  unfolding finish mark_loop
  update_installed enabled active s = finish (mark_loop active enabled (nothing_marked, s))

module _ {F : Type 0} (ini : IniParser F) where
  -- the identities of the repositories of redhat.repo that are enabled, or that are not
  abbrev repo_ids : Bool → Option Repo → List String
  repo_ids enabled none = []
  repo_ids enabled (some repo) =
      if same_flag (is_enabled (lookup "enabled" repo.values)) enabled then repo.id ∷ [] else []

  abbrev ids_in : Bool → List String → F → List String
  ids_in enabled [] repo_file = []
  ids_in enabled (s ∷ sections) repo_file =
      repo_ids enabled (section ini s repo_file) ++ ids_in enabled sections repo_file

  unfoldable pub find_disabled_repos : F → List String
  find_disabled_repos repo_file = ids_in false (ini.sections repo_file) repo_file

  unfoldable pub find_temp_disabled_repos : List (Product × String) → F → List String
  find_temp_disabled_repos enabled repo_file =
      let yum_enabled = map (λ (p, repo). repo) enabled in
      filter (λ repo. not (contains yum_enabled repo))
        (ids_in true (ini.sections repo_file) repo_file)

  -- `ProductManager.update`
  unfoldable pub update :
      Calls
      → F
      → (errors : List String) → List (Product × String)
      → List String
      → Bool
      → State
      → State
  update calls repo_file errors enabled active tracks_repos s =
      let temp_disabled_repos = find_temp_disabled_repos enabled repo_file in
      let removed =
        update_removed errors (find_disabled_repos repo_file) active temp_disabled_repos s in
      update_installed calls enabled active (
        if tracks_repos && not (is_nil enabled) && not (is_nil active && is_nil temp_disabled_repos)
        then removed
        else s)
