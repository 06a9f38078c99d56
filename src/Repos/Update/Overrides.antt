-- ===== src/Repos/Update/Overrides.antt =====
-- The overrides of the server in a repository, and after its update.
use subscription_manager.Base.{
  ◌≡◌, refl, String, false, ◌&&◌, Option, none, some, List, [], ◌∷◌, ◌==◌, string_eq, if◌then◌else◌,
  arith,
}
use subscription_manager.Base.Dict.{
  Dict, lookup, insert, has-lookup, lookup-insert, NodupKeys, insert-NodupKeys,
}
use subscription_manager.Repos.Repo.{Repo, get, set_item}
use subscription_manager.Repos.Update.{
  Overrides, overrides_of, OverrideItem, load_overrides, set_overrides, _set_override_info,
  _is_overridden, is_unset, update_repo,
}
use subscription_manager.Repos.Update.Laws.{get-set_item, update_repo-pointwise}

-- the value of the last item with the label and the name
abbrev last_value : String → String → List OverrideItem → Option String
last_value label name [] = none
last_value label name ((l, n, v) ∷ status) = elim (last_value label name status) [
  | some w ↦ some w
  | none ↦ if label == l && name == n then some v else none
]

overrides_of-insert :
    (id label : String) (d : Dict String String) (overrides : Overrides)
    → overrides_of id (insert label d overrides)
      ≡ (if id == label then d else overrides_of id overrides)
unfolding overrides_of
overrides_of-insert id label d overrides = ground (arith, lookup-insert id label d overrides)

lookup-load_overrides :
    (label name : String) (status : List OverrideItem) (overrides : Overrides)
    → lookup name (overrides_of label (load_overrides status overrides))
      ≡ elim (last_value label name status) [
        | some v ↦ some v
        | none ↦ lookup name (overrides_of label overrides)
      ]
unfolding load_overrides
lookup-load_overrides label name [] overrides = refl
lookup-load_overrides label name ((l, n, v) ∷ status) overrides = ground (
  arith,
  lookup-load_overrides label name status
      (insert l (insert n v (overrides_of l overrides)) overrides),
  overrides_of-insert label l (insert n v (overrides_of l overrides)) overrides,
  lookup-insert name n v (overrides_of l overrides),
)

load_overrides-NodupKeys :
    (label : String) (status : List OverrideItem) (overrides : Overrides)
    → ((id : String) → NodupKeys (overrides_of id overrides))
    → NodupKeys (overrides_of label (load_overrides status overrides))
unfolding load_overrides
load_overrides-NodupKeys label [] overrides h = h label
load_overrides-NodupKeys label ((l, n, v) ∷ status) overrides h =
    load_overrides-NodupKeys label status
      (insert l (insert n v (overrides_of l overrides)) overrides)
      (λ id. ground (
        arith,
        overrides_of-insert id l (insert n v (overrides_of l overrides)) overrides,
        insert-NodupKeys n v (overrides_of l overrides) (h l),
        h id,
      ))

get-set_overrides :
    (key : String) (d : Dict String String) (repo : Repo)
    → NodupKeys d
    → get key (set_overrides d repo) ≡ elim (lookup key d) [ some v ↦ some v | none ↦ get key repo ]
unfolding set_overrides lookup
get-set_overrides key [] repo h = refl
get-set_overrides key ((name, value) ∷ d) repo h = ground (
  arith,
  get-set_overrides key d (set_item name (some value) repo) h.1,
  get-set_item key name (some value) repo,
  has-lookup name d,
)

pub set_overrides-id : (d : Dict String String) (repo : Repo) → (set_overrides d repo).id ≡ repo.id
unfolding set_overrides set_item
set_overrides-id [] repo = refl
set_overrides-id ((name, value) ∷ d) repo = set_overrides-id d (set_item name (some value) repo)

empty-NodupKeys : (id : String) → NodupKeys (overrides_of id [])
unfolding overrides_of lookup
empty-NodupKeys id = tt

-- the value that the update of a repository on the disk takes from the last override of the server
get-overridden :
    (label key : String) (status : List OverrideItem) (repo : Repo) (v : String)
    → repo.id ≡ label
    → last_value label key status ≡ some v
    → get key (_set_override_info (load_overrides status []) repo) ≡ some v
unfolding _set_override_info
get-overridden label key status repo v e h = ground (
  arith,
  get-set_overrides key (overrides_of label (load_overrides status [])) repo
      (load_overrides-NodupKeys label status [] empty-NodupKeys),
  lookup-load_overrides label key status [],
  e,
)

-- Where the last override that the server has for a key of a repository is not blank, the repository on
-- the disk has its value under that key after the update, whatever was there, whether the property is
-- mutable or not, and whatever overrides were written before.
pub override_wins :
    (status : List OverrideItem) (written : Overrides) (old_repo new_repo server : Repo)
    (key v : String)
    → new_repo.id ≡ old_repo.id
    → last_value old_repo.id key status ≡ some v
    → is_unset (some v) ≡ false
    → let overrides = load_overrides status [] in
      get key
        (update_repo overrides written old_repo
          (_set_override_info overrides new_repo)
          server).old_repo
      ≡ some v
unfolding _is_overridden lookup
override_wins status written old_repo new_repo server key v same last full =
    let overrides = load_overrides status [] in
    ground (
      arith,
      update_repo-pointwise overrides written old_repo (_set_override_info overrides new_repo)
          server key,
      get-overridden old_repo.id key status new_repo v same last,
      lookup-load_overrides old_repo.id key status [],
      has-lookup key (overrides_of old_repo.id overrides),
      full,
      last,
    )
