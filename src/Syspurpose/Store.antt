-- ===== src/Syspurpose/Store.antt =====
-- The changes that `SyspurposeStore` of src/syspurpose/files.py makes to its contents.
pub mod Laws
use text.Mathlib.Text.{find?}
use subscription_manager.Base.{
  String, Bool, true, false, not, ◌||◌, Option, none, some, List, [], ◌∷◌, ◌++◌, ◌==◌, contains,
  string_eq, is_some, if◌then◌else◌,
}
use subscription_manager.Base.Dict.{lookup, insert, erase}
use subscription_manager.Base.Result.{Result, ok, err, type_error}
use subscription_manager.Base.Text.{remove as remove_first}
use subscription_manager.Syspurpose.Value.{Value, null, str, list, value_eq, Contents, get}

-- the texts under a key, after `add` has made a list of a single value
abbrev pub as_list : Value → List String
as_list null = []
as_list (str t) = t ∷ []
as_list (list xs) = xs

-- the contents after `add` has made a list of the value under `key`; a list is left alone
abbrev pub coerced : String → Value → Contents → Contents
coerced key (list xs) c = c
coerced key null c = insert key (list []) c
coerced key (str t) c = insert key (list (t ∷ [])) c

-- `self.contents[key]` raises a `KeyError` on a missing key, which is caught.
unfoldable pub add : String → String → Contents → Contents × Bool
add key value c = elim (lookup key c) [
  | none ↦ (insert key (list (value ∷ [])) c, true)
  | some v ↦
      if contains (as_list v) value
      then (coerced key v c, false)
      else (insert key (list (as_list v ++ (value ∷ []))) c, true)
]

unfoldable pub unset : String → Contents → Contents × Bool
unset key c =
    if key == "service_level_agreement"
    then (insert key (str "") c, not (get key c == null))
    else (erase key c, not (get key c == null))

-- `value in current_value` and the removal, where `current_value` is no text that equals `value`.
-- A text has no `remove`, and the `AttributeError` is caught. `value in None` is a `TypeError`.
unfoldable pub remove_from : String → String → Value → Contents → Result (Contents × Bool)
remove_from key value null c = err type_error
remove_from key value (str t) c = if is_some (find? t value) then ok (c, false) else ok (c, false)
remove_from key value (list xs) c =
    if contains xs value
    then ok (insert key (list (remove_first value xs)) c, true)
    else ok (c, false)

unfoldable pub remove : String → String → Contents → Result (Contents × Bool)
unfolding remove_from
remove key value c = elim (lookup key c) [
  | none ↦ ok (c, false)
  | some v ↦ if v == str value then ok (unset key c) else remove_from key value v c
]

unfoldable pub set : String → String → Contents → Contents × Bool
set key value c = (insert key (str value) c, not (get key c == str value) || get key c == null)
