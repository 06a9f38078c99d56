-- ===== src/Syspurpose/Merge/Pointwise.antt =====
-- What `three_way_merge` leaves under each key.
use text.Mathlib.TextEquality.{eq_iff}
use subscription_manager.Base.{
  ◌≢◌, sym, ◌≡◌, refl, ◌∙◌, String, Bool, false, Option, none, some, List, [], ◌∷◌, ◌++◌, ◌==◌,
  contains, contains-append, string_eq, if◌then◌else◌, arith, Option-cases, inl, inr,
}
use subscription_manager.Base.Dict.{
  keys, lookup, lookup-insert, lookup-nil, has-lookup, contains-keys,
}
use subscription_manager.Base.Result.{ok, err, value_error}
use subscription_manager.Base.Text.{count-contains}
use subscription_manager.Syspurpose.Value.{Value, Contents, truthy, or_null}
use subscription_manager.Syspurpose.Merge.{
  Change, of_bool, copy_from, unsupported, change_eq, local, server, values_differ, detect_changed,
  DiffChange, SetOrder, resolve, merge_loop, all_keys, three_way_merge,
}

-- The local value differs from the base: a key that was removed differs from a truthy value.
abbrev pub local_differs : Option Value → Option Value → Bool
local_differs none base = truthy (or_null base)
local_differs (some v) base = values_differ local (or_null base) v

-- The server's value differs from the base.
abbrev pub remote_differs : Value → Option Value → Bool
remote_differs v base = values_differ server (or_null base) v

-- The entry that a merge keeps, from the local entry, the base's and the server's, where the
-- server wins a conflict. A key that the server does not send is left as it is locally.
abbrev pub remote_wins : Option Value → Option Value → Option Value → Option Value
remote_wins loc base none = loc
remote_wins loc base (some v) =
    if remote_differs v base then some v else if local_differs loc base then loc else some v

-- The same, where the local value wins a conflict.
abbrev local_wins : Option Value → Option Value → Option Value → Option Value
local_wins loc base none = loc
local_wins loc base (some v) =
    if local_differs loc base then loc else if remote_differs v base then some v else loc

abbrev pub over : Option Value → Option Value → Option Value
over none old = old
over (some v) old = some v

abbrev remote_change : Option Value → Option Value → Change
remote_change none base = unsupported
remote_change (some v) base = of_bool (remote_differs v base)

pub detect_changed-local :
    (base loc : Contents) (key : String)
    → detect_changed base loc key local ≡ of_bool (local_differs (lookup key loc) (lookup key base))
unfolding detect_changed
detect_changed-local base loc key = ground (arith, has-lookup key loc)

pub detect_changed-server :
    (base rem : Contents) (key : String)
    → detect_changed base rem key server ≡ remote_change (lookup key rem) (lookup key base)
unfolding detect_changed
detect_changed-server base rem key = ground (arith, has-lookup key rem)

lookup-copy_from :
    (j key : String) (d result : Contents)
    → lookup j (copy_from d key result)
      ≡ (if j == key then over (lookup key d) (lookup j result) else lookup j result)
unfolding copy_from
lookup-copy_from j key d result = elim (Option-cases (lookup key d)) [
  | inl e ↦ rw e (ground arith)
  | inr (v, e) ↦ rw e (ground (arith, lookup-insert j key v result))
]

remote_ne_local : ◌≢◌ {A = String} "local" "remote"
remote_ne_local e = cc (sym ((eq_iff "local" "remote").1 e))

module _ (on_conflict : String) (loc base rem : Contents) where
  abbrev Effect : Contents → (Option Value → Option Value → Option Value → Option Value) → Type 0
  Effect winner spec =
      (j key : String) (result : Contents)
      → lookup j (resolve on_conflict winner loc base rem key result).1 ≡ (
          if j == key
          then over (spec (lookup key loc) (lookup key base) (lookup key rem)) (lookup j result)
          else lookup j result)

  pub lookup-resolve_remote : Effect rem remote_wins
  unfolding resolve
  lookup-resolve_remote j key result = ground (
    arith,
    detect_changed-local base loc key,
    detect_changed-server base rem key,
    lookup-copy_from j key rem result,
    lookup-copy_from j key loc result,
  )

  lookup-resolve_local : Effect loc local_wins
  unfolding resolve
  lookup-resolve_local j key result = ground (
    arith,
    detect_changed-local base loc key,
    detect_changed-server base rem key,
    lookup-copy_from j key rem result,
    lookup-copy_from j key loc result,
  )

module _ (on_conflict : String) (winner loc base rem : Contents) where
  -- With a law for one round of the loop, the whole loop writes every key of the list once.
  pub lookup-merge_loop :
      (spec : Option Value → Option Value → Option Value → Option Value)
      → ((j key : String) (result : Contents)
          → lookup j (resolve on_conflict winner loc base rem key result).1 ≡ (
              if j == key
              then over (spec (lookup key loc) (lookup key base) (lookup key rem)) (lookup j result)
              else lookup j result))
      → (j : String) (ks : List String) (result : Contents) (events : List DiffChange)
      → lookup j (merge_loop on_conflict winner loc base rem ks result events).0 ≡ (
          if contains ks j
          then over (spec (lookup j loc) (lookup j base) (lookup j rem)) (lookup j result)
          else lookup j result)
  unfolding merge_loop
  lookup-merge_loop spec step j [] result events = refl
  lookup-merge_loop spec step j (key ∷ ks) result events =
      lookup-merge_loop spec step j ks (resolve on_conflict winner loc base rem key result).1 _
      ∙ ground (arith, step j key result)

-- An enumeration of the keys has the keys of the three dictionaries and no other.
contains-enumerate :
    (order : SetOrder) (ks : List String) (k : String)
    → contains (order.enumerate ks) k ≡ contains ks k
contains-enumerate order ks k =
    ground (arith, order.count-enumerate k ks, count-contains k (order.enumerate ks))

pub missing_everywhere :
    (loc base rem : Contents) (k : String)
    → contains (all_keys loc base rem) k ≡ false
    → (lookup k loc ≡ none) × (lookup k base ≡ none) × (lookup k rem ≡ none)
missing_everywhere loc base rem k h = ground (
  arith,
  contains-append (keys loc) (keys base ++ keys rem) k,
  contains-append (keys base) (keys rem) k,
  contains-keys k loc,
  contains-keys k base,
  contains-keys k rem,
  has-lookup k loc,
  has-lookup k base,
  has-lookup k rem,
)

-- A merge over all keys, visited in any order, leaves under each key what the law of its rounds says.
merged :
    (order : SetOrder) (on_conflict : String) (winner loc base rem : Contents)
    (spec : Option Value → Option Value → Option Value → Option Value)
    → spec none none none ≡ none
    → ((j key : String) (result : Contents)
        → lookup j (resolve on_conflict winner loc base rem key result).1 ≡ (
            if j == key
            then over (spec (lookup key loc) (lookup key base) (lookup key rem)) (lookup j result)
            else lookup j result))
    → (k : String)
    → lookup k
        (merge_loop on_conflict winner loc base rem
          (order.enumerate (all_keys loc base rem))
          []
          []).0
      ≡ spec (lookup k loc) (lookup k base) (lookup k rem)
merged order on_conflict winner loc base rem spec absent step k =
    let ks = all_keys loc base rem in
    lookup-merge_loop on_conflict winner loc base rem spec step k (order.enumerate ks) [] [] ∙ rest
  where
    rest :
        (if contains (order.enumerate (all_keys loc base rem)) k
          then over (spec (lookup k loc) (lookup k base) (lookup k rem)) (lookup k [])
          else lookup k [])
        ≡ spec (lookup k loc) (lookup k base) (lookup k rem)
    rest = ground (
      arith,
      lookup-nil {V = Value} k,
      contains-enumerate order (all_keys loc base rem) k,
      missing_everywhere loc base rem k,
    )

-- The merge by which the store is synchronised, where the server wins a conflict: it succeeds, and
-- leaves under every key what `remote_wins` says, whatever the order in which the keys are visited.
pub lookup-three_way_merge :
    (order : SetOrder) (loc base rem : Contents)
    → (result : Contents) × (events : List DiffChange) × (three_way_merge order loc base rem
          "remote"
        ≡ ok (result, events))
      × ((k : String) → lookup k result ≡ remote_wins (lookup k loc) (lookup k base) (lookup k rem))
unfolding three_way_merge
lookup-three_way_merge order loc base rem =
    let m = merge_loop "remote" rem loc base rem (order.enumerate (all_keys loc base rem)) [] [] in
    (
      m.0,
      m.1,
      ground arith,
      merged order "remote" rem loc base rem remote_wins refl
          (lookup-resolve_remote "remote" loc base rem),
    )

-- With "local" the local value wins a conflict, under every key and in any order of the keys; with
-- a third word for `on_conflict` the merge is refused.
lookup-three_way_merge_local :
    (order : SetOrder) (loc base rem : Contents) (on_conflict : String)
    → ((result : Contents) × (events : List DiffChange) × (three_way_merge order loc base rem
            "local"
          ≡ ok (result, events))
        × ((k : String)
            → lookup k result ≡ local_wins (lookup k loc) (lookup k base) (lookup k rem)))
      × (on_conflict ≢ "remote"
          → on_conflict ≢ "local"
          → three_way_merge order loc base rem on_conflict ≡ err value_error)
unfolding three_way_merge
lookup-three_way_merge_local order loc base rem on_conflict =
    let m = merge_loop "local" loc loc base rem (order.enumerate (all_keys loc base rem)) [] [] in
    (
      (
        m.0,
        m.1,
        ground (arith, remote_ne_local),
        merged order "local" loc loc base rem local_wins refl
            (lookup-resolve_local "local" loc base rem),
      ),
      λ p q. ground arith,
    )
