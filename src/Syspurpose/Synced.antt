-- ===== src/Syspurpose/Synced.antt =====
-- `add`, `remove`, `unset` and `set` of `SyncedStore` of src/syspurpose/files.py.
pub mod Laws
use subscription_manager.Base.{
  String, Bool, true, false, not, ◌||◌, Option, none, some, List, [], ◌∷◌, ◌++◌, ◌==◌, contains,
  string_eq, is_some, if◌then◌else◌, filter,
}
use subscription_manager.Base.Dict.{Dict, lookup, insert, has, keys, dict_eq, erase}
use subscription_manager.Base.Result.{Result, ok, err, type_error}
use subscription_manager.Base.Exec.{Exec, pure, raise, lift, gets, modify, try, ◌>>=◌, ◌>>◌}
use subscription_manager.Syspurpose.Value.{Value, null, str, list, value_eq, Contents, truthy, get}
use subscription_manager.Syspurpose.Merge.{DiffChange, SetOrder, three_way_merge}
use subscription_manager.Syspurpose.Store
use subscription_manager.Base.Text.{remove as remove_first}
use text.Mathlib.Text.{find?}
use subscription_manager.Syspurpose.Files.{State, Action, finish_change, _check_key_value_validity}

module _ {S : Type 0} (valid_fields : Option (Dict String (List String))) where
  unfoldable pub add : String → String → Action S Bool
  unfolding finish_change _check_key_value_validity
  add key value s =
      let (c, done) = Store.add key value s.local_contents in
      if done
      then finish_change
          (record (_check_key_value_validity valid_fields key value
            (record s { local_contents = c })) { changed = true })
      else (ok false, record s { local_contents = c; changed = false })

  unfoldable pub set : String → String → Action S Bool
  unfolding finish_change _check_key_value_validity
  set key value s =
      let (c, done) = Store.set key value s.local_contents in
      let t : State S = record s { local_contents = c } in
      if done
      then finish_change
          (record (_check_key_value_validity valid_fields key value t) { changed = true })
      else finish_change (record t { changed = false })

-- the contents without the key, and whether it had a value
unfoldable pub without : String → Contents → Contents × Bool
without key c =
    if key == "service_level_agreement"
    then (insert key (str "") c, not (get key c == null))
    else if key == "addons"
    then (insert key (list []) c, not (get key c == null))
    else (erase key c, not (get key c == null))

module _ {S : Type 0} where
  unfoldable pub unset : String → Action S Bool
  unfolding finish_change without
  unset key s =
      let (c, had) = without key s.local_contents in
      finish_change (record s { local_contents = c; changed = had })

  unfoldable pub remove_from : String → String → Value → Action S Bool
  unfolding finish_change
  remove_from key value null s = (err type_error, s)
  remove_from key value (str t) s =
      if is_some (find? t value)
      then (ok false, record s { changed = false })
      else (ok false, record s { changed = false })
  remove_from key value (list xs) s =
      if contains xs value
      then finish_change (record s {
        local_contents = insert key (list (remove_first value xs)) s.local_contents;
        changed = true;
      })
      else (ok false, record s { changed = false })

  unfoldable pub remove : String → String → Action S Bool
  unfolding unset remove_from
  remove key value s = elim (lookup key s.local_contents) [
    | none ↦ (ok false, record s { changed = false })
    | some v ↦ if v == str value then unset key s else remove_from key value v s
  ]
