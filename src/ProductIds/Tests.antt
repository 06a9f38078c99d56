-- ===== src/ProductIds/Tests.antt =====
-- Runs of src/subscription_manager/productid.py on a small system.
use subscription_manager.Base.{
  ◌≡◌, refl, String, String-discrete, true, ◌&&◌, none, some, is_some, List, [], ◌∷◌, map, filter,
  contains, string_eq, ℕ_discrete, if◌then◌else◌,
}
use subscription_manager.Base.Dict.{lookup, has}
use subscription_manager.Base.Result.{ok}
use subscription_manager.Repos.YumFile.{IniParser}
use subscription_manager.ProductIds.Versions.{Version, zero}
use subscription_manager.ProductIds.Database.{corrupt}
use subscription_manager.ProductIds.Manager.{
  Product, product_dir, certs_of, product_id, State, find_by_product, _is_workstation, _is_desktop,
  Calls, update_removed, update_installed, update,
}
use subscription_manager.ProductIds.Manager.Removed.{is_idle, update_removed_lem}
use subscription_manager.ProductIds.Manager.Marking.{
  active_of, products_of, last_of, or_else, is_wanted, new_repos, with_repos,
}
use subscription_manager.ProductIds.Manager.Installed.{update_installed_lem}
use subscription_manager.ProductIds.Manager.Found.{update_found}

abbrev version_9 : Version
version_9 = record { first = "9"; rest = "" }

abbrev product : String → Product
product id = record { id = id; name = "P"; version = version_9; provided_tags = [] }

-- "69" is installed from "base" and "70" from "extra"
abbrev system : State
system = record {
  installed = ("69", product "69") ∷ ("70", product "70") ∷ [];
  defaults = [];
  db = ("69", "base" ∷ []) ∷ ("70", "extra" ∷ []) ∷ [];
  db_file = corrupt;
  hooks = [];
}

abbrev calls : Calls
calls = record { label_compare = λ v w. zero; run_plugins = λ h ps. ps }

update_removed_example :
    let after = update_removed [] [] ("base" ∷ []) [] system in
    let idle = is_idle [] ("base" ∷ []) [] system.db in
    ((n : String)
      → lookup n after.installed ≡ elim (lookup n system.installed) [
        | none ↦ none
        | some p ↦ if idle p.id then none else some p
      ])
    × ((i : String)
        → lookup i after.db ≡ (
            if contains (map product_id (certs_of product_dir system.installed)) i && idle i
            then none
            else lookup i system.db))
    × (after.defaults ≡ system.defaults)
unfolding has String-discrete
update_removed_example = update_removed_lem [] [] ("base" ∷ []) [] system (refl, (refl, tt))

-- "71" has packages of "more"
abbrev enabled : List (Product × String)
enabled = (product "71", "more") ∷ (product "69", "base") ∷ []

update_installed_example :
    let after = update_installed calls enabled ("more" ∷ []) system in
    let pairs = active_of ("more" ∷ []) enabled in
    (lookup "71" after.installed
      ≡ or_else
          (last_of "71" (filter (is_wanted calls system) (products_of pairs)))
          (lookup "71" system.installed))
    × (lookup "71" after.db ≡ with_repos (lookup "71" system.db) (new_repos "71" system.db pairs))
    × (after.defaults ≡ system.defaults)
unfolding _is_workstation _is_desktop String-discrete ℕ_discrete
update_installed_example =
    update_installed_lem calls system enabled ("more" ∷ []) "71" refl (λ h ps. refl)

-- a file without sections
abbrev no_sections : IniParser (Unit {0})
no_sections = record {
  empty = tt;
  sections = λ f. [];
  options = λ s f. [];
  add_section = λ s f. ok f;
  remove_section = λ s f. f;
  set = λ s k v f. f;
  remove_option = λ s k f. f;
}

update_found_example :
    is_some
      (find_by_product "71" (update no_sections calls tt [] enabled ("more" ∷ []) true system))
    ≡ true
unfolding _is_workstation _is_desktop String-discrete ℕ_discrete
update_found_example =
    update_found no_sections calls tt [] enabled ("more" ∷ []) true system "71" (refl, (refl, tt))
      refl (λ h ps. refl) refl
