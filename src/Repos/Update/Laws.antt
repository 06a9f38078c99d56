-- ===== src/Repos/Update/Laws.antt =====
-- What `update_repo` leaves under each key.
use subscription_manager.Base.{
  ◌≡◌, refl, String, Bool, false, not, ◌&&◌, ◌||◌, Option, none, some, List, [], ◌∷◌, ◌++◌,
  contains, contains-append, is_some, ◌==◌, string_eq, text_option_eq, if◌then◌else◌, arith,
}
use subscription_manager.Base.Dict.{
  Dict, lookup, insert, has, keys, lookup-insert, lookup-erase, has-lookup, contains-keys,
  NodupKeys, insert-NodupKeys,
}
use subscription_manager.Repos.Repo.{Property, Repo, truthy, get, set_item, del_item}
use subscription_manager.Repos.Update.{
  Overrides, protected, property_of, build_loop, _build_props, is_unset, Updating, update_key,
  update_loop, update_repo,
}

pub get-set_item :
    (j key : String) (value : Option String) (repo : Repo)
    → get j (set_item key value repo) ≡ (if j == key then value else get j repo)
unfolding get set_item
get-set_item j key value repo = ground (arith, lookup-insert j key value repo.values)

get-del_item :
    (j key : String) (repo : Repo)
    → get j (del_item key repo) ≡ (if j == key then none else get j repo)
unfolding get del_item
get-del_item j key repo = ground (arith, lookup-erase j key repo.values)

get-missing : (key : String) (repo : Repo) → has key repo.values ≡ false → get key repo ≡ none
unfolding get
get-missing key repo h = ground (arith, has-lookup key repo.values)

-- The value of a key after the update, from whether it is mutable and protected by an override, its
-- old value, the value that the server gave it before, and its new value.
abbrev pub updated : (mutable' shielded : Bool) → (old server new : Option String) → Option String
updated mutable' shielded old server new =
    if mutable' && not shielded
    then if not (truthy old) || old == server then new else old
    else if is_unset new
    then none
    else new

-- The value that is kept as the server's.
abbrev pub noted : (mutable' shielded : Bool) → (old server new : Option String) → Option String
noted mutable' shielded old server new =
    if mutable'
      && is_some new
      && not (old == new && (shielded || not (truthy old) || old == server))
      && not (shielded && is_unset new)
    then new
    else server

module _ (overrides written : Overrides) (new_repo : Repo) where
  abbrev AtKey : (j : String) (mutable' : Bool) → Updating → Updating → Type 0
  AtKey j mutable' u v =
      let shielded = protected overrides written u.old_repo.id j (get j u.old_repo) in
      (get j v.old_repo
        ≡ updated mutable' shielded (get j u.old_repo) (get j u.server) (get j new_repo))
      × (get j v.server
          ≡ noted mutable' shielded (get j u.old_repo) (get j u.server) (get j new_repo))

  abbrev SameAt : (j : String) → Updating → Updating → Type 0
  SameAt j u v = (get j v.old_repo ≡ get j u.old_repo) × (get j v.server ≡ get j u.server)

  update_key-ids :
      (key : String) (mutable' : Bool) (u : Updating)
      → let v = update_key overrides written new_repo key mutable' u in
        (v.old_repo.id ≡ u.old_repo.id) × (v.server.id ≡ u.server.id)
  unfolding update_key set_item del_item
  update_key-ids key mutable' u = ground arith

  update_key-AtKey :
      (key : String) (mutable' : Bool) (u : Updating)
      → AtKey key mutable' u (update_key overrides written new_repo key mutable' u)
  unfolding update_key
  update_key-AtKey key mutable' u = ground (
    arith,
    get-set_item key key (get key new_repo) u.old_repo,
    get-set_item key key (get key new_repo) u.server,
    get-del_item key key u.old_repo,
    get-missing key u.old_repo,
  )

  update_key-SameAt :
      (j key : String) (mutable' : Bool) (u : Updating)
      → (j == key) ≡ false
      → SameAt j u (update_key overrides written new_repo key mutable' u)
  unfolding update_key
  update_key-SameAt j key mutable' u h = ground (
    arith,
    get-set_item j key (get key new_repo) u.old_repo,
    get-set_item j key (get key new_repo) u.server,
    get-del_item j key u.old_repo,
    get-missing key u.old_repo,
  )

  -- what a key has after the loop over properties of which one or none is its own
  abbrev followed :
      Option Property → (shielded : Bool) → (old server new : Option String) → Option String
  followed none shielded old server new = old
  followed (some (mutable', _)) shielded old server new = updated mutable' shielded old server new

  abbrev followed_server :
      Option Property → (shielded : Bool) → (old server new : Option String) → Option String
  followed_server none shielded old server new = server
  followed_server (some (mutable', _)) shielded old server new =
      noted mutable' shielded old server new

  abbrev Followed : (j : String) → Option Property → Updating → Updating → Type 0
  Followed j o u v =
      let shielded = protected overrides written u.old_repo.id j (get j u.old_repo) in
      (get j v.old_repo ≡ followed o shielded (get j u.old_repo) (get j u.server) (get j new_repo))
      × (get j v.server
          ≡ followed_server o shielded (get j u.old_repo) (get j u.server) (get j new_repo))

  update_loop-Followed :
      (props : Dict String Property) (j : String) (u : Updating)
      → NodupKeys props
      → Followed j (lookup j props) u (update_loop overrides written new_repo props u)
  unfolding update_loop lookup
  update_loop-Followed [] j u h = (refl, refl)
  update_loop-Followed ((key, (mutable', d)) ∷ props) j u h = ground (
    arith,
    update_loop-Followed props j (update_key overrides written new_repo key mutable' u) h.1,
    has-lookup key props,
    update_key-ids key mutable' u,
    update_key-AtKey key mutable' u,
    update_key-SameAt j key mutable' u,
  )

module _ (overrides written : Overrides) (new_repo : Repo) where
  update_loop-ids :
      (props : Dict String Property) (u : Updating)
      → let v = update_loop overrides written new_repo props u in
        (v.old_repo.id ≡ u.old_repo.id) × (v.server.id ≡ u.server.id)
  unfolding update_loop
  update_loop-ids [] u = (refl, refl)
  update_loop-ids ((key, (mutable', d)) ∷ props) u = ground (
    arith,
    update_loop-ids props (update_key overrides written new_repo key mutable' u),
    update_key-ids overrides written new_repo key mutable' u,
  )

  -- An update keeps the identities of the repositories.
  pub update_repo-ids :
      (old_repo server : Repo)
      → let done = update_repo overrides written old_repo new_repo server in
        (done.old_repo.id ≡ old_repo.id) × (done.server.id ≡ server.id)
  unfolding update_repo
  update_repo-ids old_repo server =
      update_loop-ids (_build_props old_repo new_repo)
        (record { old_repo = old_repo; server = server; changes_made = 0 })

lookup-build_loop :
    (ks : List String) (result : Dict String Property) (j : String)
    → lookup j (build_loop ks result)
      ≡ (if contains ks j then some (property_of j) else lookup j result)
lookup-build_loop [] result j = refl
lookup-build_loop (key ∷ ks) result j = ground (
  arith,
  lookup-build_loop ks (insert key (property_of key) result) j,
  lookup-insert j key (property_of key) result,
)

build_loop-NodupKeys :
    (ks : List String) (result : Dict String Property)
    → NodupKeys result
    → NodupKeys (build_loop ks result)
build_loop-NodupKeys [] result h = h
build_loop-NodupKeys (key ∷ ks) result h =
    build_loop-NodupKeys ks (insert key (property_of key) result)
      (insert-NodupKeys key (property_of key) result h)

lookup-build_props :
    (old_repo new_repo : Repo) (j : String)
    → lookup j (_build_props old_repo new_repo)
      ≡ (if has j old_repo.values || has j new_repo.values then some (property_of j) else none)
unfolding _build_props lookup
lookup-build_props old_repo new_repo j = ground (
  arith,
  lookup-build_loop (keys old_repo.values ++ keys new_repo.values) [] j,
  contains-append (keys old_repo.values) (keys new_repo.values) j,
  contains-keys j old_repo.values,
  contains-keys j new_repo.values,
)

-- `update_repo` gives every key the value that `updated` says: a mutable property that no override
-- holds keeps a value of its own, and takes the new value where it had none or the server's; any other
-- property takes the new value, or goes where that is blank. The value that is kept as the server's
-- follows `noted`.
pub update_repo-pointwise :
    (overrides written : Overrides) (old_repo new_repo server : Repo) (key : String)
    → let shielded = protected overrides written old_repo.id key (get key old_repo) in
      let done = update_repo overrides written old_repo new_repo server in
      let mutable' = (property_of key).0 in
      (get key done.old_repo
        ≡ updated mutable' shielded (get key old_repo) (get key server) (get key new_repo))
      × (get key done.server
          ≡ noted mutable' shielded (get key old_repo) (get key server) (get key new_repo))
unfolding update_repo is_unset _build_props
update_repo-pointwise overrides written old_repo new_repo server key = ground (
  arith,
  update_loop-Followed overrides written new_repo (_build_props old_repo new_repo) key
      (record { old_repo = old_repo; server = server; changes_made = 0 })
      (build_loop-NodupKeys (keys old_repo.values ++ keys new_repo.values) [] tt),
  lookup-build_props old_repo new_repo key,
  get-missing key old_repo,
  get-missing key new_repo,
)
