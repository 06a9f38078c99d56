-- ===== src/Repos/Update.antt =====
-- `update_repo` of `RepoUpdateActionCommand` of src/subscription_manager/repolib.py.
pub mod Laws
pub mod Overrides
use Prim.Native.Char.{Char, code}
use subscription_manager.Base.{
  ℕ, ◌+◌, String, Bool, true, false, not, ◌&&◌, ◌||◌, Option, none, some, List, [], ◌∷◌, ◌++◌, leb,
  contains, is_some, is_nil, Eq, ◌==◌, string_eq, text_option_eq, nat_eq, if◌then◌else◌,
}
use subscription_manager.Base.Dict.{Dict, lookup, insert, erase, has, keys}
use subscription_manager.Repos.Repo.{Property, properties, Repo, truthy, get, set_item, del_item}

-- The overrides of repositories: a dictionary of options for each label.
abbrev pub Overrides : Type 0
Overrides = Dict String (Dict String String)

-- `self.overrides.get(id, {})`
unfoldable pub overrides_of : String → Overrides → Dict String String
overrides_of id overrides = elim (lookup id overrides) [ none ↦ [] | some d ↦ d ]

abbrev pub OverrideItem : Type 0
OverrideItem = String × String × String

-- The loop of `__init__` over the overrides of the server: content label, name and value.
unfoldable pub load_overrides : List OverrideItem → Overrides → Overrides
unfolding overrides_of
load_overrides [] overrides = overrides
load_overrides ((label, name, value) ∷ status) overrides =
    load_overrides status
      (insert label (insert name value (overrides_of label overrides)) overrides)

-- the loop of `_set_override_info`
unfoldable pub set_overrides : Dict String String → Repo → Repo
unfolding set_item
set_overrides [] repo = repo
set_overrides ((name, value) ∷ d) repo = set_overrides d (set_item name (some value) repo)

unfoldable pub _set_override_info : Overrides → Repo → Repo
unfolding set_overrides overrides_of
_set_override_info overrides repo = set_overrides (overrides_of repo.id overrides) repo

unfoldable pub _is_overridden : Overrides → String → String → Bool
unfolding overrides_of
_is_overridden overrides id key = has key (overrides_of id overrides)

unfoldable pub _was_overridden : Overrides → String → String → Option String → Bool
unfolding overrides_of
_was_overridden written id key value =
    is_some value && lookup key (overrides_of id written) == value

-- `Repo.PROPERTIES.get(key, (1, None))`
unfoldable pub property_of : String → Property
property_of key = elim (lookup key properties) [ none ↦ (true, none) | some p ↦ p ]

abbrev pub build_loop : List String → Dict String Property → Dict String Property
build_loop [] result = result
build_loop (key ∷ ks) result = build_loop ks (insert key (property_of key) result)

unfoldable pub _build_props : Repo → Repo → Dict String Property
unfolding property_of
_build_props old_repo new_repo = build_loop (keys old_repo.values ++ keys new_repo.values) []

-- a character that `str.strip` takes off
abbrev is_space : Char → Bool
is_space c =
    let n = code c in
    (leb 9 n && leb n 13)
    || (leb 28 n && leb n 32)
    || n == 133
    || n == 160
    || n == 5760
    || (leb 8192 n && leb n 8202)
    || n == 8232
    || n == 8233
    || n == 8239
    || n == 8287
    || n == 12288

abbrev all_space : String → Bool
all_space String.[] = true
all_space (String.◌∷◌ c t) = is_space c && all_space t

-- `value is None or (str(value).strip() == "")`
unfoldable pub is_unset : Option String → Bool
is_unset none = true
is_unset (some t) = all_space t

-- The old repository, the values of the server, and the number of changes.
pub record Updating : Type 0 where
  pub old_repo : Repo
  pub server : Repo
  pub changes_made : ℕ

-- `protected` is whether the key is overridden or was.
abbrev pub protected : Overrides → Overrides → String → String → Option String → Bool
protected overrides written id key value =
    _is_overridden overrides id key || _was_overridden written id key value

abbrev change : String → Option String → Updating → Updating
change key new_val u = record u {
  old_repo = set_item key new_val u.old_repo;
  changes_made = u.changes_made + 1;
}

abbrev drop : String → Updating → Updating
drop key u = record u { old_repo = del_item key u.old_repo; changes_made = u.changes_made + 1 }

-- `if mutable and new_val is not None: server_value_repo[key] = new_val`
abbrev note_server : Bool → String → Option String → Updating → Updating
note_server mutable' key new_val u =
    if mutable' && is_some new_val then record u { server = set_item key new_val u.server } else u

-- the body of the loop of `update_repo`
unfoldable pub update_key : Overrides → Overrides → Repo → String → Bool → Updating → Updating
update_key overrides written new_repo key mutable' u =
    let new_val = get key new_repo in
    let old_val = get key u.old_repo in
    if mutable' && not (protected overrides written u.old_repo.id key old_val)
    then if not (truthy old_val) || old_val == get key u.server
      then if old_val == new_val
        then u
        else note_server mutable' key new_val
            (if is_some new_val then change key new_val u else drop key u)
      else note_server mutable' key new_val u
    else if is_unset new_val
    then if has key u.old_repo.values then drop key u else u
    else if old_val == new_val
    then u
    else note_server mutable' key new_val (change key new_val u)

unfoldable pub update_loop :
    Overrides → Overrides → Repo → Dict String Property → Updating → Updating
unfolding update_key
update_loop overrides written new_repo [] u = u
update_loop overrides written new_repo ((key, (mutable', _)) ∷ props) u =
    update_loop overrides written new_repo props
      (update_key overrides written new_repo key mutable' u)

unfoldable pub update_repo : Overrides → Overrides → Repo → Repo → Repo → Updating
unfolding update_loop _build_props
update_repo overrides written old_repo new_repo server =
    update_loop overrides written new_repo (_build_props old_repo new_repo)
      (record { old_repo = old_repo; server = server; changes_made = 0 })
