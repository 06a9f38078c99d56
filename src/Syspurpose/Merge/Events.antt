-- ===== src/Syspurpose/Merge/Events.antt =====
-- The changes that `three_way_merge` hands to `on_change`.
use mathlib.Core.Path.{subst}
use subscription_manager.Base.{
  ◌≡◌, refl, ◌∙◌, String, ◌+◌, Bool, true, false, ◌||◌, Option, none, some, List, [], ◌∷◌, ◌++◌,
  map, string_eq, if◌then◌else◌, arith, All,
}
use subscription_manager.Base.Dict.{lookup, has, has-lookup}
use subscription_manager.Base.Result.{ok}
use subscription_manager.Base.Text.{count}
use subscription_manager.Syspurpose.Value.{Value, Contents, get}
use subscription_manager.Syspurpose.Merge.{
  DiffChange, SetOrder, resolve, is_changed, diff_of, merge_loop, all_keys, three_way_merge,
}
use subscription_manager.Syspurpose.Merge.Pointwise.{
  lookup-merge_loop, lookup-resolve_remote, remote_wins, local_differs, remote_differs,
  detect_changed-local, detect_changed-server, missing_everywhere,
}

abbrev event_keys : List DiffChange → List String
event_keys = map (λ e. e.key)

count-append : (k : String) (xs ys : List String) → count k (xs ++ ys) ≡ count k xs + count k ys
count-append k [] ys = ground arith
count-append k (x ∷ xs) ys = ground (arith, count-append k xs ys)

map_key-append :
    (xs : List DiffChange) (e : DiffChange)
    → event_keys (xs ++ e ∷ []) ≡ event_keys xs ++ e.key ∷ []
map_key-append [] e = refl
map_key-append (x ∷ xs) e = ground (arith, map_key-append xs e)

module _ (on_conflict : String) (winner loc base rem : Contents) where
  -- How often a key is reported: as often as it is visited, if it changed.
  count-merge_loop :
      (k : String) (ks : List String) (result : Contents) (events : List DiffChange)
      → count k (event_keys (merge_loop on_conflict winner loc base rem ks result events).1)
        ≡ count k (event_keys events) + (if is_changed loc base rem k then count k ks else 0)
  unfolding merge_loop diff_of
  count-merge_loop k [] result events = ground arith
  count-merge_loop k (key ∷ ks) result events =
      count-merge_loop k ks (resolve on_conflict winner loc base rem key result).1 _ ∙ reported
    where
      diff : DiffChange
      diff =
          let (source, next) = resolve on_conflict winner loc base rem key result in
          diff_of base key source next

      reported :
          count k (event_keys (if is_changed loc base rem key then events ++ diff ∷ [] else events))
            + (if is_changed loc base rem k then count k ks else 0)
          ≡ count k (event_keys events)
            + (if is_changed loc base rem k then count k (key ∷ ks) else 0)
      reported =
          ground (arith, map_key-append events diff, count-append k (event_keys events) (key ∷ []))

-- The change tells the entries of its key before and after the merge.
abbrev pub Reports : Contents → Contents → DiffChange → Type 0
Reports base result e =
    (e.previous_value ≡ get e.key base)
    × (e.new_value ≡ get e.key result)
    × (e.in_base ≡ has e.key base)
    × (e.in_result ≡ has e.key result)

All-append {ℓ} :
    {A : Type ℓ} (P : A → Type 0) (xs : List A) (a : A) → All P xs → P a → All P (xs ++ a ∷ [])
All-append P [] a h p = (p, tt)
All-append P (x ∷ xs) a h p = (h.0, All-append P xs a h.1 p)

All-if {ℓ} :
    {A : Type ℓ} (P : A → Type 0) (b : Bool) (xs : List A) (a : A)
    → All P xs
    → P a
    → All P (if b then xs ++ a ∷ [] else xs)
All-if P true xs a h p = All-append P xs a h p
All-if P false xs a h p = h

module _ (loc base rem : Contents) where
  abbrev pub loop : List String → Contents → List DiffChange → Contents × List DiffChange
  loop = merge_loop "remote" rem loc base rem

  abbrev next : String → Contents → String × Contents
  next = resolve "remote" rem loc base rem

  -- A key that was resolved keeps its entry in the rounds that follow.
  lookup-loop-next :
      (key : String) (ks : List String) (result : Contents) (events : List DiffChange)
      → lookup key (loop ks (next key result).1 events).0 ≡ lookup key (next key result).1
  lookup-loop-next key ks result events =
      lookup-merge_loop "remote" rem loc base rem remote_wins
        (lookup-resolve_remote "remote" loc base rem) key ks (next key result).1 events
      ∙ ground (arith, lookup-resolve_remote "remote" loc base rem key key result)

  diff_of-Reports :
      (key : String) (ks : List String) (result : Contents) (events : List DiffChange)
      → Reports base
          (loop ks (next key result).1 events).0
          (diff_of base key (next key result).0 (next key result).1)
  unfolding diff_of
  diff_of-Reports key ks result events =
      let same = lookup-loop-next key ks result events in
      let final = (loop ks (next key result).1 events).0 in
      ground (arith, same, has-lookup key final, has-lookup key (next key result).1)

  loop-Reports :
      (ks : List String) (result : Contents) (events : List DiffChange)
      → All (Reports base (loop ks result events).0) events
      → All (Reports base (loop ks result events).0) (loop ks result events).1
  unfolding merge_loop
  loop-Reports [] result events h = h
  loop-Reports (key ∷ ks) result events h =
      loop-Reports ks (next key result).1
        (if is_changed loc base rem key then events ++ diff ∷ [] else events)
        (All-if
          (Reports base
            (loop ks (next key result).1
              (if is_changed loc base rem key then events ++ diff ∷ [] else events)).0)
          (is_changed loc base rem key) events diff h (diff_of-Reports key ks result _))
    where
      diff : DiffChange
      diff = diff_of base key (next key result).0 (next key result).1

-- The local entry or the server's differs from the base's. A key that the server does not send
-- has not changed there.
abbrev entry_changed : Option Value → Option Value → Option Value → Bool
entry_changed loc base none = local_differs loc base
entry_changed loc base (some v) = local_differs loc base || remote_differs v base

is_changed-entry :
    (loc base rem : Contents) (k : String)
    → is_changed loc base rem k ≡ entry_changed (lookup k loc) (lookup k base) (lookup k rem)
unfolding is_changed
is_changed-entry loc base rem k =
    ground (arith, detect_changed-local base loc k, detect_changed-server base rem k)

-- Each key is reported as often as it changed: once or never.
abbrev pub ReportsOnce : Contents → Contents → Contents → List DiffChange → Type 0
ReportsOnce loc base rem events =
    (k : String)
    → count k (event_keys events)
      ≡ (if entry_changed (lookup k loc) (lookup k base) (lookup k rem) then 1 else 0)

merge_loop-ReportsOnce :
    (order : SetOrder) (loc base rem : Contents)
    → ReportsOnce loc base rem (loop loc base rem (order.enumerate (all_keys loc base rem)) [] []).1
merge_loop-ReportsOnce order loc base rem k =
    let ks = all_keys loc base rem in
    count-merge_loop "remote" rem loc base rem k (order.enumerate ks) [] []
    ∙ ground (
      arith,
      order.count-enumerate k ks,
      is_changed-entry loc base rem k,
      missing_everywhere loc base rem k,
    )

-- The changes that a merge reports where the server wins a conflict: a key is reported once if its
-- local value or its value on the server differs from the base, and never if neither does, and each
-- report tells the entry of its key before the merge, as the base has it, and after it.
pub three_way_merge-events :
    (order : SetOrder) (loc base rem : Contents) (result : Contents) (events : List DiffChange)
    → three_way_merge order loc base rem "remote" ≡ ok (result, events)
    → ReportsOnce loc base rem events × All (Reports base result) events
unfolding three_way_merge
three_way_merge-events order loc base rem result events h =
    let ks = order.enumerate (all_keys loc base rem) in
    let same : loop loc base rem ks [] [] ≡ (result, events) = ground arith in
    subst (λ m. ReportsOnce loc base rem m.1 × All (Reports base m.0) m.1) same
      (merge_loop-ReportsOnce order loc base rem, loop-Reports loc base rem ks [] [] tt)
