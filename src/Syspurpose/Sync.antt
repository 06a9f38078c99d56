-- ===== src/Syspurpose/Sync.antt =====
-- `sync` and `finish` of `SyncedStore` of src/syspurpose/files.py.
pub mod Laws
pub mod Stable
use subscription_manager.Base.{
  String, Bool, true, false, Option, none, some, List, [], ◌∷◌, ◌++◌, if◌then◌else◌,
}
use subscription_manager.Base.Dict.{dict_eq}
use subscription_manager.Base.Result.{Result, ok, err}
use subscription_manager.Base.Exec.{pure, lift, gets, modify, try, ◌>>=◌, ◌>>◌}
use subscription_manager.Syspurpose.Value.{value_eq, Contents}
use subscription_manager.Base.{string_eq}
use subscription_manager.Syspurpose.Merge.{DiffChange, SetOrder, three_way_merge}
use subscription_manager.Syspurpose.Files.{
  Uep, State, Action, SyncResult, from_remote, attributes, update_of, truthy_entries, update_local,
  update_cache, get_local_contents, get_cached_contents,
}

module _ {S : Type 0} (uep : Option (Uep S)) (uuid : Option String) where
  unfoldable pub get_remote_contents : S → Result Contents
  get_remote_contents server = elim uep [
    | none ↦ ok []
    | some u ↦ elim uuid [
      | none ↦ ok []
      | some id ↦ elim (u.has_capability server "syspurpose") [
        | err e ↦ err e
        | ok false ↦ ok []
        | ok true ↦ elim (u.get_consumer server id) [
          | err e ↦ err e
          | ok consumer ↦ ok (from_remote consumer attributes)
        ]
      ]
    ]
  ]

  unfoldable pub update_remote : Contents → Action S Bool
  update_remote d s = elim uep [
    | none ↦ (ok false, s)
    | some u ↦ elim uuid [
      | none ↦ (ok false, s)
      | some id ↦
          let (r, server') = u.update_consumer s.server id (update_of d) in
          elim r [
            | ok _ ↦ (ok true, record s { server = server' })
            | err e ↦ (err e, record s { server = server' })
          ]
    ]
  ]

module _ {S : Type 0} where
  unfoldable pub _sync_local_only : Action S SyncResult
  unfolding get_local_contents update_local
  _sync_local_only = do
    c ← get_local_contents
    update_local c
    gets (λ s. record {
      result = s.local_contents;
      remote_changed = false;
      local_changed = none;
      cached_changed = some false;
    })

-- `on_changed` is whether the store was given a callback, which is taken to record its argument.
module _ {S : Type 0} (order : SetOrder) (uep : Option (Uep S)) (uuid : Option String)
    (on_changed : Bool) where
  unfoldable pub merge : Contents → Contents → Contents → Action S Contents
  merge loc rem base s = elim (three_way_merge order loc base rem "remote") [
    | err e ↦ (err e, s)
    | ok (result, events) ↦
        (ok result, if on_changed then record s { reported = s.reported ++ events } else s)
  ]

  -- `(remote_contents == result) or self.update_remote(result)`
  unfoldable pub push_remote : Contents → Contents → Action S Bool
  push_remote rem result = if dict_eq rem result then pure true else update_remote uep uuid result

  unfoldable pub sync_with_server : Action S SyncResult
  sync_with_server = do
    rem ← (λ s. lift (get_remote_contents uep uuid s.server) s)
    loc ← get_local_contents
    base ← get_cached_contents
    result ← merge loc rem base
    remote_changed ← push_remote rem result
    update_local (truthy_entries result)
    update_cache result
    modify (λ s. record s { changed = false })
    pure (record {
      result = result;
      remote_changed = remote_changed;
      local_changed = none;
      cached_changed = none;
    })

  -- The answer about the capability, and the local synchronisation without it, stand in one `try`.
  unfoldable pub sync : Action S SyncResult
  sync s = elim uep [
    | none ↦ sync_with_server s
    | some u ↦ elim (u.has_capability s.server "syspurpose") [
      | err e ↦ _sync_local_only s
      | ok true ↦ sync_with_server s
      | ok false ↦ try _sync_local_only _sync_local_only s
    ]
  ]

  unfoldable pub finish : Action S (Unit {0})
  unfolding sync
  finish s = if s.changed then (sync >>= λ _. pure tt) s else (ok tt, s)
