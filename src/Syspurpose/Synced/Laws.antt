-- ===== src/Syspurpose/Synced/Laws.antt =====
-- When the operations of `SyncedStore` write the local file.
use text.Mathlib.Text.{find?}
use subscription_manager.Base.{
  is_some, ◌≡◌, refl, ◌∙◌, String, Bool, true, false, Option, none, some, List, ◌==◌, contains,
  string_eq, arith, if◌then◌else◌,
}
use subscription_manager.Base.Dict.{Dict, lookup, insert}
use subscription_manager.Base.Result.{Result, Error, ok, err}
use subscription_manager.Syspurpose.Value.{Value, null, str, list, value_eq, Contents}
use subscription_manager.Syspurpose.Store
use subscription_manager.Base.Text.{remove as remove_first}
use subscription_manager.Syspurpose.Files.{
  State, opened, Action, finish_change, _check_key_value_validity,
}
use subscription_manager.Syspurpose.Synced.{add, set, unset, without, remove, remove_from}

-- The outcome of an operation: after `True` the local file holds the contents in memory, provided it
-- could be opened; after `False` and after an exception it is as it was. The attribute `changed` is
-- what was returned, and the cache and the server are not touched.
pub record Writes {S : Type 0} (s : State S) (r : Result Bool) (t : State S) : Type 0 where
  on_true :
      r ≡ ok true → s.local_file.opening ≡ opened → t.local_file.contents ≡ some t.local_contents
  on_false : r ≡ ok false → t.local_file ≡ s.local_file
  on_raise : (e : Error) → r ≡ err e → t.local_file ≡ s.local_file
  pub flag : (b : Bool) → r ≡ ok b → t.changed ≡ b
  pub cache : t.cache_file ≡ s.cache_file
  pub server : t.server ≡ s.server

finish_change-Writes : {S : Type 0} (s : State S) → Writes s (finish_change s).0 (finish_change s).1
unfolding finish_change
finish_change-Writes s = record {
  on_true = λ h o. ground arith;
  on_false = λ h. ground arith;
  on_raise = λ e h. ground arith;
  flag = λ b h. ground arith;
  cache = ground arith;
  server = ground arith;
}

module _ {S : Type 0} where
  -- An operation that starts from the same files and the same server.
  Writes-from :
      (s u : State S) (r : Result Bool) (t : State S)
      → u.local_file ≡ s.local_file
      → u.cache_file ≡ s.cache_file
      → u.server ≡ s.server
      → Writes u r t
      → Writes s r t
  Writes-from s u r t f c v w = record {
    on_true = λ h o. w.on_true h (ground (arith, f));
    on_false = λ h. w.on_false h ∙ f;
    on_raise = λ e h. w.on_raise e h ∙ f;
    flag = w.flag;
    cache = w.cache ∙ c;
    server = w.server ∙ v;
  }

  finished :
      (s u : State S)
      → u.local_file ≡ s.local_file
      → u.cache_file ≡ s.cache_file
      → u.server ≡ s.server
      → Writes s (finish_change u).0 (finish_change u).1
  finished s u f c v =
      Writes-from s u (finish_change u).0 (finish_change u).1 f c v (finish_change-Writes u)

  unwritten :
      (s : State S) (c : Contents)
      → Writes s (ok false) (record s { local_contents = c; changed = false })
  unwritten s c = record {
    on_true = λ h o. cc;
    on_false = λ h. refl;
    on_raise = λ e h. refl;
    flag = λ b h. ground arith;
    cache = refl;
    server = refl;
  }

  if-Writes :
      (s : State S) (b : Bool) (m n : Result Bool × State S)
      → Writes s m.0 m.1
      → Writes s n.0 n.1
      → Writes s (if b then m else n).0 (if b then m else n).1
  if-Writes s true m n v w = v
  if-Writes s false m n v w = w

  -- What `_check_key_value_validity` leaves alone.
  module _ (valid_fields : Option (Dict String (List String))) (key value : String)
      (s : State S) where
    checked : (State S)
    checked = _check_key_value_validity valid_fields key value s

    checked_files :
        (checked.local_file ≡ s.local_file)
        × (checked.cache_file ≡ s.cache_file)
        × (checked.server ≡ s.server)
    unfolding checked _check_key_value_validity
    checked_files = ground arith

  module _ (valid_fields : Option (Dict String (List String))) where
    add-Writes :
        (key value : String) (s : State S)
        → Writes s (add valid_fields key value s).0 (add valid_fields key value s).1
    unfolding add checked
    add-Writes key value s =
        let (c, done) = Store.add key value s.local_contents in
        let (f, g, h) = checked_files valid_fields key value (record s { local_contents = c }) in
        if-Writes s done _ _
          (finished s
            (record (checked valid_fields key value (record s { local_contents = c })) {
              changed = true;
            })
            f g h)
          (unwritten s c)

    set-Writes :
        (key value : String) (s : State S)
        → Writes s (set valid_fields key value s).0 (set valid_fields key value s).1
    unfolding set checked
    set-Writes key value s =
        let (c, done) = Store.set key value s.local_contents in
        let (f, g, h) = checked_files valid_fields key value (record s { local_contents = c }) in
        if-Writes s done _ _
          (finished s
            (record (checked valid_fields key value (record s { local_contents = c })) {
              changed = true;
            })
            f g h)
          (finished s (record s { local_contents = c; changed = false }) refl refl refl)

  unset-Writes : (key : String) (s : State S) → Writes s (unset key s).0 (unset key s).1
  unfolding unset
  unset-Writes key s =
      let (c, had) = without key s.local_contents in
      finished s (record s { local_contents = c; changed = had }) refl refl refl

  remove_from-Writes :
      (key value : String) (v : Value) (s : State S)
      → Writes s (remove_from key value v s).0 (remove_from key value v s).1
  unfolding remove_from
  remove_from-Writes key value null s = record {
    on_true = λ h o. cc;
    on_false = λ h. refl;
    on_raise = λ e h. refl;
    flag = λ b h. cc;
    cache = refl;
    server = refl;
  }
  remove_from-Writes key value (str t) s =
      if-Writes s (is_some (find? t value)) _ _ (unwritten s s.local_contents)
        (unwritten s s.local_contents)
  remove_from-Writes key value (list xs) s =
      if-Writes s (contains xs value) _ _
        (finished s
          (record s {
            local_contents = insert key (list (remove_first value xs)) s.local_contents;
            changed = true;
          })
          refl refl refl)
        (unwritten s s.local_contents)

  remove-Writes :
      (key value : String) (s : State S) → Writes s (remove key value s).0 (remove key value s).1
  unfolding remove
  remove-Writes key value s = found (lookup key s.local_contents)
    where
      found :
          (o : Option Value)
          → let r : Result Bool × State S = elim o [
            | none ↦ (ok false, record s { changed = false })
            | some v ↦ if v == str value then unset key s else remove_from key value v s
          ] in
            Writes s r.0 r.1
      found none = unwritten s s.local_contents
      found (some v) =
          if-Writes s (v == str value) _ _ (unset-Writes key s) (remove_from-Writes key value v s)

-- A call of one of the four operations.
pub data Call : Type 0 where
  add_call set_call remove_call : String → String → Call
  unset_call : String → Call

abbrev pub call : {S : Type 0} → Option (Dict String (List String)) → Call → Action S Bool
call valid_fields (add_call key value) = add valid_fields key value
call valid_fields (set_call key value) = set valid_fields key value
call valid_fields (remove_call key value) = remove key value
call valid_fields (unset_call key) = unset key

-- Each of `add`, `set`, `remove` and `unset` writes the local file exactly as `Writes` says: the file
-- holds the contents in memory after `True` if it could be opened, and is untouched after `False` and
-- after an exception; `changed` is what was returned; the cache and the server stay as they were.
pub call-Writes :
    {S : Type 0} (valid_fields : Option (Dict String (List String))) (c : Call) (s : State S)
    → Writes s (call valid_fields c s).0 (call valid_fields c s).1
call-Writes valid_fields (add_call key value) s = add-Writes valid_fields key value s
call-Writes valid_fields (set_call key value) s = set-Writes valid_fields key value s
call-Writes valid_fields (remove_call key value) s = remove-Writes key value s
call-Writes valid_fields (unset_call key) s = unset-Writes key s
