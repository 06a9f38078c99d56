-- ===== src/Syspurpose/Merge.antt =====
-- `detect_changed` and `three_way_merge` of src/syspurpose/files.py.
pub mod Pointwise
pub mod Keys
pub mod Events
pub mod Detect
use subscription_manager.Base.{
  ◌≡◌, String, Bool, true, false, not, ◌||◌, Option, none, some, List, [], ◌∷◌, ◌++◌, Eq, ◌==◌,
  contains, string_eq, if◌then◌else◌,
}
use subscription_manager.Base.Dict.{Dict, keys, lookup, has, insert}
use subscription_manager.Base.Result.{Result, ok, err, value_error}
use subscription_manager.Base.Text.{sorted, count, texts_eq}
use subscription_manager.Syspurpose.Value.{Value, null, str, list, value_eq, Contents, truthy, get}

-- `True`, `False` or `UNSUPPORTED`, the three results of `detect_changed`.
pub data Change : Type 0 where
  unchanged changed unsupported : Change

unfoldable pub Change-discrete : Discrete Change
Change-discrete = hlevel

instance abbrev pub change_eq : Eq Change
change_eq = record { dec = Change-discrete }

-- the argument `source` of `detect_changed`
pub data Source : Type 0 where
  local server : Source

abbrev pub of_bool : Bool → Change
of_bool true = changed
of_bool false = unchanged

-- The comparison of the two values of a key.
unfoldable pub values_differ : Source → Value → Value → Bool
values_differ source (list xs) (list ys) = not (sorted xs == sorted ys)
values_differ server null (str t) = not (t == "")
values_differ source base other = not (base == other)

unfoldable pub detect_changed : Contents → Contents → String → Source → Change
detect_changed base other key server =
    if not (has key other)
    then unsupported
    else of_bool (values_differ server (get key base) (get key other))
detect_changed base other key local =
    if not (has key other)
    then of_bool (truthy (get key base))
    else of_bool (values_differ local (get key base) (get key other))

pub record DiffChange : Type 0 where
  pub key : String
  pub previous_value : Value
  pub new_value : Value
  pub source : String
  pub in_base : Bool
  pub in_result : Bool

-- `if key in d: result[key] = d[key]`
unfoldable pub copy_from : Contents → String → Contents → Contents
copy_from d key result = elim (lookup key d) [ none ↦ result | some v ↦ insert key v result ]

-- The order in which Python goes through a set of texts: every member once, in some order.
pub record SetOrder : Type 0 where
  pub enumerate : List String → List String
  pub count-enumerate :
      (k : String) (ks : List String) → count k (enumerate ks) ≡ (if contains ks k then 1 else 0)

-- `changed` of the loop's body
unfoldable pub is_changed : Contents → Contents → Contents → String → Bool
is_changed loc base rem key =
    detect_changed base loc key local == changed || detect_changed base rem key server == changed

unfoldable pub diff_of : Contents → String → String → Contents → DiffChange
diff_of base key source result = record {
  key = key;
  previous_value = get key base;
  new_value = get key result;
  source = source;
  in_base = has key base;
  in_result = has key result;
}

module _ (on_conflict : String) (winner loc base rem : Contents) where
  -- the `source` of the change, and the result with the value of `key`
  unfoldable pub resolve : String → Contents → String × Contents
  resolve key result =
      let local_changed = detect_changed base loc key local in
      let remote_changed = detect_changed base rem key server in
      if local_changed == remote_changed
      then (on_conflict, copy_from winner key result)
      else if remote_changed == changed
      then ("remote", copy_from rem key result)
      else if local_changed == changed || remote_changed == unsupported
      then ("local", copy_from loc key result)
      else ("base", result)

  -- the loop over `all_keys`, with the changes that were handed to `on_change`
  unfoldable pub merge_loop : List String → Contents → List DiffChange → Contents × List DiffChange
  unfolding resolve is_changed diff_of copy_from
  merge_loop [] result events = (result, events)
  merge_loop (key ∷ ks) result events =
      let (source, result') = resolve key result in
      merge_loop ks result' (
        if is_changed loc base rem key
        then events ++ (diff_of base key source result' ∷ [])
        else events)

-- `set(local.keys()) | set(base.keys()) | set(remote.keys())`, as a list of its members
abbrev pub all_keys : Contents → Contents → Contents → List String
all_keys loc base rem = keys loc ++ (keys base ++ keys rem)

unfoldable pub three_way_merge :
    SetOrder → Contents → Contents → Contents → String → Result (Contents × List DiffChange)
unfolding merge_loop
three_way_merge order loc base rem on_conflict =
    let ks = order.enumerate (all_keys loc base rem) in
    if on_conflict == "remote"
    then ok (merge_loop on_conflict rem loc base rem ks [] [])
    else if on_conflict == "local"
    then ok (merge_loop on_conflict loc loc base rem ks [] [])
    else err value_error
