-- ===== src/Syspurpose/Sync/Stable.antt =====
-- A synchronised store is left alone by the next synchronisation.
use subscription_manager.Base.{
  ◌≡◌, refl, ap, String, Bool, true, false, Option, none, some, arith, if◌then◌else◌, string_eq,
  ◌∙◌, sym,
}
use subscription_manager.Base.Dict.{
  Dict, lookup, dict_eq, dict_eq_of_lookup, NodupKeys, lookup-filter, kept,
}
use subscription_manager.Base.Result.{ok}
use subscription_manager.Base.Text.{texts_eq}
use subscription_manager.Syspurpose.Value.{Contents, value_eq, Value, null, str, list, truthy}
use subscription_manager.Syspurpose.Merge.{SetOrder, Source, local, server, values_differ}
use subscription_manager.Syspurpose.Merge.Pointwise.{remote_wins}
use subscription_manager.Syspurpose.Files.{
  Uep, State, File, opened, from_remote, attributes, truthy_entries, update_of,
}
use subscription_manager.Syspurpose.Sync.{sync}
use subscription_manager.Syspurpose.Sync.Laws.{read, Serves, Synchronised, sync-Synchronised}

values_differ_self : (source : Source) (v : Value) → values_differ source v v ≡ false
unfolding values_differ
values_differ_self local null = ground arith
values_differ_self local (str t) = ground arith
values_differ_self local (list xs) = ground arith
values_differ_self server null = ground arith
values_differ_self server (str t) = ground arith
values_differ_self server (list xs) = ground arith

-- A merge of what a synchronisation left keeps every entry.
remote_wins_settled : (o : Option Value) → remote_wins (kept truthy o) o o ≡ o
remote_wins_settled none = refl
remote_wins_settled (some v) =
    ground (arith, values_differ_self server v, values_differ_self local v)

read-some : (f : File) {c : Contents} → f.contents ≡ some c → read f ≡ c
read-some f h = ground arith

-- The store as a synchronisation leaves it: the local file holds the truthy entries of the cache,
-- and the server has the values of the cache.
pub record IsSettled {S : Type 0} (s : State S) (consumer : Dict String Value) : Type 0 where
  pub cached : Contents
  pub distinct : NodupKeys cached
  pub in_cache : s.cache_file.contents ≡ some cached
  pub in_local : s.local_file.contents ≡ some (truthy_entries cached)
  pub on_server : (k : String) → lookup k (from_remote consumer attributes) ≡ lookup k cached

module _ {S : Type 0} (order : SetOrder) (u : Uep S) (id : String) (on_changed : Bool) where
  -- A synchronisation settles the store, if the server then shows the values that were merged.
  sync-IsSettled :
      (s : State S) (consumer shown : Dict String Value)
      → (w : Serves u id s.server consumer) → (result : Contents)
      → Synchronised order u id on_changed s consumer w result
          (sync order (some u) (some id) on_changed s).1
      → ((k : String) → lookup k (from_remote shown attributes) ≡ lookup k result)
      → IsSettled (sync order (some u) (some id) on_changed s).1 shown
  sync-IsSettled s consumer shown w result done same = record {
    cached = result;
    distinct = done.distinct;
    in_cache = done.cache_kept;
    in_local = done.local_kept;
    on_server = same;
  }

  -- A synchronisation of a settled store sends nothing to the server and keeps the value of every key.
  pub sync_settled :
      (s : State S) (consumer : Dict String Value)
      → Serves u id s.server consumer
      → s.local_file.opening ≡ opened
      → s.cache_file.opening ≡ opened
      → (h : IsSettled s consumer)
      → (result : Contents) × ((sync order (some u) (some id) on_changed s).0
          ≡ ok (record {
            result = result;
            remote_changed = true;
            local_changed = none;
            cached_changed = none;
          }))
        × ((k : String) → lookup k result ≡ lookup k h.cached)
        × ((sync order (some u) (some id) on_changed s).1.server ≡ s.server)
  sync_settled s consumer w lo co h =
      let (result, returned, done) = sync-Synchronised order u id on_changed s consumer w lo co in
      let same = settled_values result done.values in
      (result, returned, same, done.sent ∙ nothing_sent result same)
    where
      settled_values :
          (result : Contents)
          → ((k : String)
              → lookup k result
                ≡ remote_wins
                    (lookup k (read s.local_file))
                    (lookup k (read s.cache_file))
                    (lookup k (from_remote consumer attributes)))
          → (k : String) → lookup k result ≡ lookup k h.cached
      settled_values result v k =
          let loc : lookup k (read s.local_file) ≡ kept truthy (lookup k h.cached) =
            ap (λ f. lookup k f) (read-some s.local_file h.in_local)
            ∙ lookup-filter truthy k h.cached h.distinct in
          let base : lookup k (read s.cache_file) ≡ lookup k h.cached =
            ap (λ f. lookup k f) (read-some s.cache_file h.in_cache) in
          v k
          ∙ (λ i. remote_wins (loc i) (base i) (h.on_server k i))
          ∙ remote_wins_settled (lookup k h.cached)

      nothing_sent :
          (result : Contents)
          → ((k : String) → lookup k result ≡ lookup k h.cached)
          → (if dict_eq (from_remote consumer attributes) result
              then s.server
              else (u.update_consumer s.server id (update_of result)).1)
            ≡ s.server
      nothing_sent result same = rw (
          dict_eq_of_lookup (from_remote consumer attributes) result
            (λ k. h.on_server k ∙ sym (same k)))
