-- ===== src/Syspurpose/Merge/Keys.antt =====
-- A merge yields a dictionary: no key has two entries.
use mathlib.Core.Path.{subst}
use subscription_manager.Base.{
  ◌≡◌, String, Option, none, some, List, [], ◌∷◌, arith, if-both, string_eq, ◌==◌, ◌||◌,
}
use subscription_manager.Base.Dict.{lookup, NodupKeys, insert, insert-NodupKeys}
use subscription_manager.Base.Result.{ok}
use subscription_manager.Syspurpose.Value.{Contents, Value}
use subscription_manager.Syspurpose.Merge.{
  DiffChange, SetOrder, change_eq, changed, unsupported, local, server, detect_changed,
  three_way_merge, copy_from, resolve, merge_loop, all_keys,
}

copy_from-NodupKeys :
    (d : Contents) (key : String) (result : Contents)
    → NodupKeys result
    → NodupKeys (copy_from d key result)
unfolding copy_from
copy_from-NodupKeys d key result h = copied (lookup key d)
  where
    copied :
        (o : Option Value) → NodupKeys (elim o [ none ↦ result | some v ↦ insert key v result ])
    copied none = h
    copied (some v) = insert-NodupKeys key v result h

abbrev HasDistinct : String × Contents → Type 0
HasDistinct p = NodupKeys (p.1)

module _ (on_conflict : String) (winner loc base rem : Contents) where
  resolve-NodupKeys :
      (key : String) (result : Contents)
      → NodupKeys result
      → NodupKeys (resolve on_conflict winner loc base rem key result).1
  unfolding resolve
  resolve-NodupKeys key result h =
      let lc = detect_changed base loc key local in
      let rc = detect_changed base rem key server in
      if-both HasDistinct (lc == rc) _ _ (copy_from-NodupKeys winner key result h) (
        if-both HasDistinct (rc == changed) _ _ (copy_from-NodupKeys rem key result h) (
          if-both HasDistinct (lc == changed || rc == unsupported) _ _
            (copy_from-NodupKeys loc key result h) h))

  merge_loop-NodupKeys :
      (ks : List String) (result : Contents) (events : List DiffChange)
      → NodupKeys result
      → NodupKeys (merge_loop on_conflict winner loc base rem ks result events).0
  unfolding merge_loop
  merge_loop-NodupKeys [] result events h = h
  merge_loop-NodupKeys (key ∷ ks) result events h =
      merge_loop-NodupKeys ks (resolve on_conflict winner loc base rem key result).1 _
        (resolve-NodupKeys key result h)

pub three_way_merge-NodupKeys :
    (order : SetOrder) (loc base rem result : Contents) (events : List DiffChange)
    → three_way_merge order loc base rem "remote" ≡ ok (result, events)
    → NodupKeys result
unfolding three_way_merge
three_way_merge-NodupKeys order loc base rem result events h =
    let ks = order.enumerate (all_keys loc base rem) in
    let same : merge_loop "remote" rem loc base rem ks [] [] ≡ (result, events) = ground arith in
    subst (λ m. NodupKeys (m.0)) same (merge_loop-NodupKeys "remote" rem loc base rem ks [] [] tt)
