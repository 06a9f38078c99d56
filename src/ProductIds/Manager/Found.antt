-- ===== src/ProductIds/Manager/Found.antt =====
-- The products of active repositories are found after `update`.
use subscription_manager.Base.{
  ◌≡◌, refl, ap, String, Bool, true, false, not, ◌&&◌, ◌||◌, is_some, is_nil, List, [], ◌∷◌, ◌++◌,
  map, filter, any, all, contains, All, ◌==◌, string_eq, if-both, arith, inl, inr,
}
use subscription_manager.Base.Dict.{Dict, lookup, insert, erase}
use subscription_manager.Repos.YumFile.{IniParser}
use subscription_manager.ProductIds.Manager.{
  Product, product_dir, product_default, ProductCert, State, pre_product_id_install,
  pre_product_id_update, Marked, certs_of, product_id, list, find_in, find_by_product, delete_cert,
  delete_known, is_unneeded, delete_certs, update_removed, Calls, update_db,
  _desktop_workstation_cleanup, nothing_marked, finish, write_product_certs, write_files,
  update_installed, find_disabled_repos, find_temp_disabled_repos, update,
}
use subscription_manager.ProductIds.Manager.Removed.{Place-cases}
use subscription_manager.ProductIds.Manager.Marking.{
  mark_loop_lem, marked_after, active_of, products_of, last_of, is_ordinary, is_wanted,
}
use subscription_manager.ProductIds.Manager.Installed.{
  update_db-installed, Quiet, update_installed_lem,
}

-- Every file is named by the identity of its product.
abbrev pub WellNamed : Dict String Product → Type 0
WellNamed = All (λ (n, p). n ≡ p.id)

erase-WellNamed : (n : String) (d : Dict String Product) → WellNamed d → WellNamed (erase n d)
unfolding erase
erase-WellNamed n [] h = tt
erase-WellNamed n ((k, p) ∷ d) h = ground (arith, erase-WellNamed n d h.1, h.0)

delete_known-WellNamed :
    (c : ProductCert) (s : State) → WellNamed s.installed → WellNamed (delete_known c s).installed
unfolding delete_known delete_cert
delete_known-WellNamed c s h = elim (Place-cases c.place) [
  | inl q ↦ rw (delete_cert, q) (erase-WellNamed c.name s.installed h)
  | inr q ↦ rw (delete_cert, q) h
]

delete_certs-WellNamed :
    (cs : List ProductCert) (s : State)
    → WellNamed s.installed
    → WellNamed (delete_certs cs s).installed
unfolding delete_certs
delete_certs-WellNamed [] s h = h
delete_certs-WellNamed (c ∷ cs) s h =
    delete_certs-WellNamed cs (delete_known c s) (delete_known-WellNamed c s h)

find_in-append :
    (t : String) (cs ds : List ProductCert)
    → is_some (find_in t (cs ++ ds)) ≡ (is_some (find_in t cs) || is_some (find_in t ds))
find_in-append t [] ds = refl
find_in-append t (c ∷ cs) ds = ground (arith, find_in-append t cs ds)

-- whether an identity is among the defaults
abbrev in_defaults : String → Dict String Product → Bool
in_defaults t d = is_some (find_in t (certs_of product_default d))

find_in-own :
    (t : String) (d : Dict String Product)
    → WellNamed d
    → is_some (find_in t (certs_of product_dir d)) ≡ is_some (lookup t d)
unfolding lookup
find_in-own t [] h = refl
find_in-own t ((n, p) ∷ d) h = ground (arith, find_in-own t d h.1, h.0)

find_in-contains :
    (t : String) (cs : List ProductCert) → contains (map product_id cs) t ≡ is_some (find_in t cs)
find_in-contains t [] = refl
find_in-contains t (c ∷ cs) = ground (arith, find_in-contains t cs)

find_in-filter :
    (t : String) (pids : List String) (cs : List ProductCert)
    → is_some (find_in t (filter (λ c. not (contains pids (product_id c))) cs))
      ≡ (not (contains pids t) && is_some (find_in t cs))
find_in-filter t pids [] = ground arith
find_in-filter t pids (c ∷ cs) = ground (arith, find_in-filter t pids cs)

found_lem :
    (t : String) (s : State)
    → WellNamed s.installed
    → is_some (find_by_product t s) ≡ (is_some (lookup t s.installed) || in_defaults t s.defaults)
unfolding find_by_product list
found_lem t s h =
    let own = certs_of product_dir s.installed in
    let pids = map product_id own in
    ground (
      arith,
      find_in-append t own
          (filter (λ c. not (contains pids (product_id c))) (certs_of product_default s.defaults)),
      find_in-filter t pids (certs_of product_default s.defaults),
      find_in-contains t own,
      find_in-own t s.installed h,
    )

insert-WellNamed :
    (p : Product) (d : Dict String Product) → WellNamed d → WellNamed (insert p.id p d)
unfolding insert
insert-WellNamed p [] h = (refl, tt)
insert-WellNamed p ((n, q) ∷ d) h = ground (arith, insert-WellNamed p d h.1, h.0)

write_files-WellNamed :
    (ps : List Product) (d : Dict String Product) → WellNamed d → WellNamed (write_files ps d)
unfolding write_files
write_files-WellNamed [] d h = h
write_files-WellNamed (p ∷ ps) d h =
    write_files-WellNamed ps (insert p.id p d) (insert-WellNamed p d h)

finish-WellNamed :
    (calls : Calls) (m : Marked) (s : State)
    → WellNamed s.installed
    → WellNamed (finish calls (m, s)).installed
unfolding finish write_product_certs _desktop_workstation_cleanup
finish-WellNamed calls m s h =
    let pairs =
      _desktop_workstation_cleanup (λ (x : Product × String). x.0) m.products_to_update_db in
    let same = λ (p : Product). p in
    let install =
      calls.run_plugins pre_product_id_install
        (_desktop_workstation_cleanup same m.products_to_install) in
    let renew =
      calls.run_plugins pre_product_id_update
        (_desktop_workstation_cleanup same m.products_to_update) in
    let files = (update_db pairs s).installed in
    write_files-WellNamed renew (write_files install files)
      (write_files-WellNamed install files (rw ((update_db-installed pairs s).0) h))

-- some product of a list has an identity
abbrev pub among : String → List Product → Bool
among t ps = any (λ p. t == p.id) ps

last_of-wanted_missing :
    (calls : Calls) (s : State) (t : String) (ps : List Product)
    → is_some (find_by_product t s) ≡ false
    → among t ps ≡ true
    → is_some (last_of t (filter (is_wanted calls s) ps)) ≡ true
last_of-wanted_missing calls s t [] q h = cc
last_of-wanted_missing calls s t (p ∷ ps) q h =
    ground (arith, last_of-wanted_missing calls s t ps q, q, h)

update_removed-kept :
    (errors disabled active temp_disabled : List String) (s : State)
    → WellNamed s.installed
    → WellNamed (update_removed errors disabled active temp_disabled s).installed
unfolding update_removed
update_removed-kept errors disabled active temp_disabled s h =
    delete_certs-WellNamed (filter (is_unneeded errors disabled active temp_disabled s.db) (list s))
      s h

update_installed_found :
    (calls : Calls) (enabled : List (Product × String)) (active : List String) (s : State)
    (t : String)
    → WellNamed s.installed
    → all is_ordinary (products_of enabled) ≡ true
    → Quiet calls s
    → among t (products_of (active_of active enabled)) ≡ true
    → is_some (find_by_product t (update_installed calls enabled active s)) ≡ true
unfolding update_installed
update_installed_found calls enabled active s t h ordinary quiet there =
    let ps = products_of (active_of active enabled) in
    let after = update_installed calls enabled active s in
    let (installed, db, defaults) = update_installed_lem calls s enabled active t ordinary quiet in
    let well : WellNamed after.installed =
      rw (mark_loop_lem calls s active enabled nothing_marked ordinary) (
        finish-WellNamed calls (marked_after calls s (active_of active enabled) nothing_marked) s
          h) in
    ground (
      arith,
      found_lem t s h,
      found_lem t after well,
      installed,
      ap (in_defaults t) defaults,
      last_of-wanted_missing calls s t ps,
      there,
    )

-- Where every file in the directory for products is named by the identity of its product, no enabled
-- product is a workstation or a desktop of RHEL 5, and plugins leave their lists alone, the product of
-- every enabled repository that is active has a certificate after `update`, also where that
-- has just deleted the one that was there.
pub update_found :
    {F : Type 0} (ini : IniParser F) (calls : Calls) (repo_file : F) (errors : List String)
    (enabled : List (Product × String)) (active : List String) (tracks_repos : Bool) (s : State)
    (t : String)
    → WellNamed s.installed
    → all is_ordinary (products_of enabled) ≡ true
    → Quiet calls s
    → among t (products_of (active_of active enabled)) ≡ true
    → is_some (find_by_product t (update ini calls repo_file errors enabled active tracks_repos s))
      ≡ true
unfolding update
update_found ini calls repo_file errors enabled active tracks_repos s t h ordinary quiet there =
    let temp = find_temp_disabled_repos ini enabled repo_file in
    let disabled = find_disabled_repos ini repo_file in
    let removed = update_removed errors disabled active temp s in
    update_installed_found calls enabled active _ t
      (if-both (λ (u : State). WellNamed u.installed)
        (tracks_repos && not (is_nil enabled) && not (is_nil active && is_nil temp)) removed s
        (update_removed-kept errors disabled active temp s h) h)
      ordinary quiet there
