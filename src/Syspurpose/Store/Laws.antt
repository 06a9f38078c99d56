-- ===== src/Syspurpose/Store/Laws.antt =====
-- What the operations of `SyspurposeStore` do to the values of all keys.
use subscription_manager.Base.{
  ◌≡◌, refl, ◌≢◌, ◌↔◌, ap, String, String-discrete, Bool, true, false, not, none, some, List, [],
  ◌∷◌, ◌++◌, ◌==◌, contains, contains-append, Option-cases, inl, inr, string_eq, if◌then◌else◌,
  arith,
}
use subscription_manager.Base.Dict.{lookup, lookup-insert, lookup-erase, insert}
use subscription_manager.Base.Result.{ok, err, type_error}
use subscription_manager.Base.Text.{remove as remove_first}
use subscription_manager.Syspurpose.Value.{Value, null, str, list, value_eq, Contents, get, or_null}
use subscription_manager.Syspurpose.Store.{as_list, coerced, add, unset, remove, set}

lookup-coerced :
    (key : String) (v : Value) (k : String) (c : Contents)
    → k ≢ key
    → lookup k (coerced key v c) ≡ lookup k c
lookup-coerced key null k c h = ground (arith, lookup-insert k key (list []) c)
lookup-coerced key (str t) k c h = ground (arith, lookup-insert k key (list (t ∷ [])) c)
lookup-coerced key (list xs) k c h = refl

-- After `add` the texts under the key are those that were there, with the value at their end if it
-- was not among them; the result tells whether it was added, and no other key is touched.
add_lem :
    (key value : String) (c : Contents)
    → let old : List String = as_list (get key c) in
      let new = add key value c in
      (new.1 ≡ not (contains old value))
      × (get key new.0 ≡ list (if contains old value then old else old ++ value ∷ []))
      × ((k : String) → k ≢ key → lookup k new.0 ≡ lookup k c)
unfolding add
add_lem key value c = (
  ground (arith),
  ground (
    arith,
    lookup-insert key key (list []) c,
    lookup-insert key key (list (value ∷ [])) c,
    lookup-insert key key (list (as_list (get key c) ++ value ∷ [])) c,
  ),
  λ k h. ground (
    arith,
    lookup-coerced key (get key c) k c h,
    lookup-insert k key (list (as_list (get key c) ++ value ∷ [])) c,
    lookup-insert k key (list (value ∷ [])) c,
  ),
)

contains_last : (value : String) (xs : List String) → contains (xs ++ value ∷ []) value ≡ true
contains_last value xs = ground (arith, contains-append xs (value ∷ []) value)

-- A second `add` of the same value reports that there is nothing to do, and keeps every value.
add_again :
    (key value : String) (c : Contents)
    → let once = (add key value c).0 in
      ((add key value once).1 ≡ false) × ((k : String) → get k (add key value once).0 ≡ get k once)
add_again key value c =
    let once = (add key value c).0 in
    let (_, now, _) = add_lem key value c in
    let (same, kept, others) = add_lem key value once in
    let known : contains (as_list (get key once)) value ≡ true =
      ground (arith, contains_last value (as_list (get key c))) in
    (
      ground arith,
      λ k. elim (String-discrete k key) [
        | yes p ↦ rw p (ground arith)
        | no n ↦ ap or_null (others k n)
      ],
    )

-- `unset` removes the key, but leaves an empty text under the service level agreement, and reports
-- whether there was a value; no other key is touched.
unset_lem :
    (key : String) (c : Contents)
    → ((unset key c).1 ≡ not (get key c == null))
      × (lookup key (unset key c).0
          ≡ (if key == "service_level_agreement" then some (str "") else none))
      × ((k : String) → k ≢ key → lookup k (unset key c).0 ≡ lookup k c)
unfolding unset
unset_lem key c = (
  ground arith,
  ground (arith, lookup-insert key key (str "") c, lookup-erase key key c),
  λ k h. ground (arith, lookup-insert k key (str "") c, lookup-erase k key c),
)

-- `set` stores the value and reports whether another value, or none, was there; no other key is
-- touched.
set_lem :
    (key value : String) (c : Contents)
    → ((set key value c).1 ≡ not (get key c == str value))
      × ((k : String)
          → lookup k (set key value c).0 ≡ (if k == key then some (str value) else lookup k c))
unfolding set
set_lem key value c = (ground arith, λ k. lookup-insert k key (str value) c)

remove_first-append :
    (value : String) (xs : List String)
    → contains xs value ≡ false
    → remove_first value (xs ++ value ∷ []) ≡ xs
remove_first-append value [] h = ground arith
remove_first-append value (x ∷ xs) h = ground (arith, remove_first-append value xs)

-- A value that `add` appended to the list of a key is taken out again by `remove`: every key has the
-- value that it had before, and the result tells that something changed.
remove-add :
    (key value : String) (c : Contents) (xs : List String)
    → lookup key c ≡ some (list xs)
    → contains xs value ≡ false
    → (d : Contents) × (remove key value (add key value c).0 ≡ ok (d, true))
      × ((k : String) → lookup k d ≡ lookup k c)
unfolding remove add
remove-add key value c xs e absent =
    let new = insert key (list (xs ++ value ∷ [])) c in
    (
      insert key (list (remove_first value (xs ++ value ∷ []))) new,
      ground (arith, lookup-insert key key (list (xs ++ value ∷ [])) c, contains_last value xs),
      λ k. ground (
        arith,
        remove_first-append value xs absent,
        lookup-insert k key (list (remove_first value (xs ++ value ∷ []))) new,
        lookup-insert k key (list (xs ++ value ∷ [])) c,
      ),
    )

-- `remove` raises exactly where the key holds `null`, and then a `TypeError`; else it returns.
pub remove-eq-err_iff :
    (key value : String) (c : Contents)
    → ((remove key value c ≡ err type_error) ↔ (lookup key c ≡ some null))
      × ((lookup key c ≢ some null)
          → (d : Contents) × (b : Bool) × (remove key value c ≡ ok (d, b)))
unfolding remove
remove-eq-err_iff key value c = elim (Option-cases (lookup key c)) [
  | inl e ↦ (ground (arith, e), λ h. (c, false, ground (arith, e)))
  | inr (v, e) ↦ remove_from_some v e
]
  where
    remove_from_some :
        (v : Value)
        → lookup key c ≡ some v
        → ((remove key value c ≡ err type_error) ↔ (lookup key c ≡ some null))
          × ((lookup key c ≢ some null)
              → (d : Contents) × (b : Bool) × (remove key value c ≡ ok (d, b)))
    remove_from_some null e = (ground (arith, e), λ h. absurd (h e))
    remove_from_some (str t) e = (
      ground (arith, e),
      λ h. (
        (if t == value then (unset key c).0 else c),
        (if t == value then (unset key c).1 else false),
        ground (arith, e),
      ),
    )
    remove_from_some (list xs) e = (
      ground (arith, e),
      λ h. (
        (if contains xs value then insert key (list (remove_first value xs)) c else c),
        contains xs value,
        ground (arith, e),
      ),
    )
