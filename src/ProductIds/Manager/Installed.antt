-- ===== src/ProductIds/Manager/Installed.antt =====
-- Which certificates `update_installed` writes, and what the database knows then.
use subscription_manager.Base.{
  ◌≡◌, refl, ap, ◌∙◌, String, true, false, Option, none, some, List, [], ◌∷◌, ◌++◌, map, filter,
  any, all, string_eq, arith,
}
use subscription_manager.Base.Dict.{Dict, lookup, insert, lookup-insert}
use subscription_manager.ProductIds.Database.{Content, repos_or_empty, add}
use subscription_manager.ProductIds.Manager.{
  Product, Hook, pre_product_id_install, pre_product_id_update, State, _is_desktop,
  _desktop_workstation_cleanup, Marked, Calls, add_repos, update_db, write_files,
  write_product_certs, nothing_marked, finish, update_installed,
}
use subscription_manager.ProductIds.Manager.Marking.{
  active_of, products_of, last_of, or_else, new_repos, with_repos, is_ordinary, append_one,
  all_repos, is_missing, is_outdated, is_wanted, unknown_pairs, marked_after, mark_loop_lem,
  last_of-wanted, no_desktop_marked, no_desktop_pairs,
}

no_desktop :
    {A : Type 0} (product_of : A → Product) (marked : List A)
    → any _is_desktop (map product_of marked) ≡ false
    → _desktop_workstation_cleanup product_of marked ≡ marked
unfolding _desktop_workstation_cleanup
no_desktop product_of marked h = rw (h) refl

lookup-write_files :
    (t : String) (ps : List Product) (files : Dict String Product)
    → lookup t (write_files ps files) ≡ or_else (last_of t ps) (lookup t files)
unfolding write_files
lookup-write_files t [] files = refl
lookup-write_files t (p ∷ ps) files =
    ground (arith, lookup-write_files t ps (insert p.id p files), lookup-insert t p.id p files)

or_else_assoc : (a b c : Option Product) → or_else a (or_else b c) ≡ or_else (or_else a b) c
or_else_assoc none b c = refl
or_else_assoc (some p) b c = refl

map_id : {A : Type 0} (xs : List A) → map (λ x. x) xs ≡ xs
map_id [] = refl
map_id (x ∷ xs) = ap (λ l. x ∷ l) (map_id xs)

map_first : (pairs : List (Product × String)) → map (λ x. x.0) pairs ≡ products_of pairs
map_first [] = refl
map_first ((p, repo) ∷ pairs) = ap (λ l. p ∷ l) (map_first pairs)

with_repos-more :
    (old : Option (List String)) (r : String) (repos : List String)
    → with_repos (some (repos_or_empty old ++ (r ∷ []))) repos ≡ with_repos old (r ∷ repos)
with_repos-more old r [] = refl
with_repos-more old r (x ∷ repos) = ap (λ l. some l) (append_one (repos_or_empty old) (x ∷ repos) r)

lookup-add_repos :
    (t : String) (pairs : List (Product × String)) (db : Content)
    → lookup t (add_repos pairs db) ≡ with_repos (lookup t db) (all_repos t pairs)
unfolding add_repos add
lookup-add_repos t [] db = refl
lookup-add_repos t ((p, repo) ∷ pairs) db =
    let new = insert p.id (repos_or_empty (lookup p.id db) ++ (repo ∷ [])) db in
    ground (
      arith,
      lookup-add_repos t pairs new,
      lookup-insert t p.id (repos_or_empty (lookup p.id db) ++ (repo ∷ [])) db,
      with_repos-more (lookup t db) repo (all_repos t pairs),
    )

lookup-update_db :
    (t : String) (pairs : List (Product × String)) (s : State)
    → lookup t (update_db pairs s).db ≡ with_repos (lookup t s.db) (all_repos t pairs)
unfolding update_db
lookup-update_db t [] s = refl
lookup-update_db t (x ∷ pairs) s = lookup-add_repos t (x ∷ pairs) s.db

pub update_db-installed :
    (pairs : List (Product × String)) (s : State)
    → ((update_db pairs s).installed ≡ s.installed) × ((update_db pairs s).defaults ≡ s.defaults)
unfolding update_db
update_db-installed [] s = (refl, refl)
update_db-installed (x ∷ pairs) s = (refl, refl)

module _ (calls : Calls) (s : State) where
  all_repos-unknown :
      (t : String) (pairs : List (Product × String))
      → all_repos t (unknown_pairs calls s pairs) ≡ new_repos t s.db pairs
  all_repos-unknown t [] = refl
  all_repos-unknown t ((p, repo) ∷ pairs) = ground (arith, all_repos-unknown t pairs)

  abbrev pub Quiet : Type 0
  Quiet = (h : Hook) (ps : List Product) → calls.run_plugins h ps ≡ ps

  -- what the rest of `update_installed` does with lists in which no desktop is
  finish_lem :
      (m : Marked) (t : String)
      → Quiet
      → any _is_desktop m.products_to_install ≡ false
      → any _is_desktop m.products_to_update ≡ false
      → any _is_desktop (products_of m.products_to_update_db) ≡ false
      → let after = finish calls (m, s) in
        (lookup t after.installed
          ≡ or_else
              (last_of t m.products_to_update)
              (or_else (last_of t m.products_to_install) (lookup t s.installed)))
        × (lookup t after.db ≡ with_repos (lookup t s.db) (all_repos t m.products_to_update_db))
        × (after.defaults ≡ s.defaults)
  unfolding finish write_product_certs
  finish_lem m t quiet di du dp =
      let ci =
        no_desktop (λ p. p) m.products_to_install
          (ap (any _is_desktop) (map_id m.products_to_install) ∙ di) in
      let cu =
        no_desktop (λ p. p) m.products_to_update
          (ap (any _is_desktop) (map_id m.products_to_update) ∙ du) in
      let cp =
        no_desktop (λ x. x.0) m.products_to_update_db
          (ap (any _is_desktop) (map_first m.products_to_update_db) ∙ dp) in
      let (files, defaults) = update_db-installed m.products_to_update_db s in
      (
        rw
            (
              ci,
              cu,
              cp,
              quiet pre_product_id_install m.products_to_install,
              quiet pre_product_id_update m.products_to_update,
            )
            (lookup-write_files t m.products_to_update
                (write_files m.products_to_install (update_db m.products_to_update_db s).installed)
              ∙ ap (or_else (last_of t m.products_to_update)) (
                  lookup-write_files t m.products_to_install
                    (update_db m.products_to_update_db s).installed
                  ∙ ap (λ d. or_else (last_of t m.products_to_install) (lookup t d)) files)),
        rw cp (lookup-update_db t m.products_to_update_db s),
        rw cp defaults,
      )

  -- Where no enabled product is a workstation or a desktop of RHEL 5, and plugins leave their lists alone,
  -- `update_installed` writes under every identity the last product of an active repository that is
  -- missing or newer than the one that was found, and no other file; the database learns, for
  -- each product, the active repositories that it did not know, and the defaults stay.
  pub update_installed_lem :
      (enabled : List (Product × String)) (active : List String) (t : String)
      → all is_ordinary (products_of enabled) ≡ true
      → Quiet
      → let after = update_installed calls enabled active s in
        let pairs = active_of active enabled in
        (lookup t after.installed
          ≡ or_else
              (last_of t (filter (is_wanted calls s) (products_of pairs)))
              (lookup t s.installed))
        × (lookup t after.db ≡ with_repos (lookup t s.db) (new_repos t s.db pairs))
        × (after.defaults ≡ s.defaults)
  unfolding update_installed
  update_installed_lem enabled active t ordinary quiet =
      let pairs = active_of active enabled in
      let m = marked_after calls s pairs nothing_marked in
      let (installed, db, defaults) =
        finish_lem m t quiet
          (no_desktop_marked calls s (is_missing calls s) active enabled ordinary)
          (no_desktop_marked calls s (is_outdated calls s) active enabled ordinary)
          (no_desktop_pairs calls s active enabled ordinary) in
      rw (mark_loop_lem calls s active enabled nothing_marked ordinary) (
        installed
            ∙ or_else_assoc (last_of t (filter (is_outdated calls s) (products_of pairs)))
                (last_of t (filter (is_missing calls s) (products_of pairs))) (lookup t s.installed)
            ∙ ap (λ o. or_else o (lookup t s.installed))
                (last_of-wanted calls s t (products_of pairs)),
        db ∙ ap (with_repos (lookup t s.db)) (all_repos-unknown t pairs),
        defaults,
      )
