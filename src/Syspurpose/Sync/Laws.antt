-- ===== src/Syspurpose/Sync/Laws.antt =====
-- What a synchronisation leaves in the local file, in the cache and on the server.
use subscription_manager.Base.{
  ◌≡◌, refl, ap, ◌≢◌, ◌++◌, String, Bool, true, false, Option, none, some, List, [], arith,
  if◌then◌else◌, string_eq,
}
use subscription_manager.Base.Dict.{lookup, dict_eq, NodupKeys}
use subscription_manager.Base.Result.{ok}
use subscription_manager.Syspurpose.Value.{Contents, value_eq, Value}
use subscription_manager.Base.Dict.{Dict}
use subscription_manager.Syspurpose.Merge.{DiffChange, SetOrder, three_way_merge}
use subscription_manager.Syspurpose.Merge.Keys.{three_way_merge-NodupKeys}
use subscription_manager.Syspurpose.Merge.Pointwise.{remote_wins, lookup-three_way_merge}
use subscription_manager.Syspurpose.Files.{
  Uep, State, File, opened, from_remote, attributes, update_of, truthy_entries, update_local,
  update_cache, get_local_contents, get_cached_contents,
}
use subscription_manager.Syspurpose.Sync.{
  _sync_local_only, get_remote_contents, update_remote, merge, push_remote, sync_with_server, sync,
}

-- the contents of a file, which is taken for empty where it cannot be read
abbrev pub read : File → Contents
read f = elim f.contents [ none ↦ [] | some c ↦ c ]

module _ {S : Type 0} (s : State S) where
  get_local_contents_lem :
      s.local_file.opening ≡ opened
      → get_local_contents s ≡ (
        ok (read s.local_file),
        record s {
          local_file = record s.local_file { contents = some (read s.local_file) };
          local_contents = read s.local_file;
        },
      )
  unfolding get_local_contents
  get_local_contents_lem h = ground arith

  get_cached_contents_lem :
      s.cache_file.opening ≡ opened
      → get_cached_contents s ≡ (
        ok (read s.cache_file),
        record s {
          cache_file = record s.cache_file { contents = some (read s.cache_file) };
          cache_contents = read s.cache_file;
        },
      )
  unfolding get_cached_contents
  get_cached_contents_lem h = ground arith

  update_local_lem :
      (d : Contents)
      → s.local_file.opening ≡ opened
      → update_local d s ≡ (
        ok tt,
        record s { local_contents = d; local_file = record s.local_file { contents = some d } },
      )
  unfolding update_local
  update_local_lem d h = ground arith

  update_cache_lem :
      (d : Contents)
      → s.cache_file.opening ≡ opened
      → update_cache d s ≡ (
        ok tt,
        record s { cache_contents = d; cache_file = record s.cache_file { contents = some d } },
      )
  unfolding update_cache
  update_cache_lem d h = ground arith

-- What the server must do for a synchronisation with it: it has system purpose, knows the consumer
-- and accepts updates.
pub record Serves {S : Type 0} (u : Uep S) (id : String) (server : S) (consumer : Dict String Value)
    : Type 0 where
  pub capable : u.has_capability server "syspurpose" ≡ ok true
  pub known : u.get_consumer server id ≡ ok consumer
  pub accepts : (d : Contents) → (u.update_consumer server id (update_of d)).0 ≡ ok tt

module _ {S : Type 0} (order : SetOrder) (u : Uep S) (id : String) (on_changed : Bool) where
  module _ (s : State S) (consumer : Dict String Value) (w : Serves u id s.server consumer) where
    abbrev pub rem : Contents
    rem = from_remote consumer attributes

    abbrev server_after : Contents → S
    server_after result =
        if dict_eq rem result
        then s.server
        else (u.update_consumer s.server id (update_of result)).1

    push_remote_lem :
        (t : State S) (result : Contents)
        → t.server ≡ s.server
        → push_remote order (some u) (some id) on_changed rem result t
          ≡ (ok true, record t { server = server_after result })
    unfolding push_remote update_remote
    push_remote_lem t result e = ground (arith, w.accepts result)

    get_remote_contents_lem : get_remote_contents (some u) (some id) s.server ≡ ok rem
    unfolding get_remote_contents
    get_remote_contents_lem = ground (arith, w.capable, w.known)

    -- the state after the four parts of the synchronisation
    unfoldable pub after : Contents → List DiffChange → State S
    after result events = record s {
      server = server_after result;
      local_file = record s.local_file { contents = some (truthy_entries result) };
      cache_file = record s.cache_file { contents = some result };
      local_contents = truthy_entries result;
      cache_contents = result;
      changed = false;
      reported = if on_changed then s.reported ++ events else s.reported;
    }

    merge_lem :
        (loc base : Contents) (t : State S) (result : Contents) (events : List DiffChange)
        → three_way_merge order loc base rem "remote" ≡ ok (result, events)
        → merge order (some u) (some id) on_changed loc rem base t ≡ (
          ok result,
          record t { reported = if on_changed then t.reported ++ events else t.reported },
        )
    unfolding merge
    merge_lem loc base t result events m = ground (arith, m)

    sync-after :
        (result : Contents) (events : List DiffChange)
        → s.local_file.opening ≡ opened
        → s.cache_file.opening ≡ opened
        → three_way_merge order (read s.local_file) (read s.cache_file) rem "remote"
          ≡ ok (result, events)
        → sync order (some u) (some id) on_changed s ≡ (
          ok (record {
            result = result;
            remote_changed = true;
            local_changed = none;
            cached_changed = none;
          }),
          after result events,
        )
    unfolding sync sync_with_server after
    sync-after result events lo co m =
        let s1 : State S = record s {
          local_file = record s.local_file { contents = some (read s.local_file) };
          local_contents = read s.local_file;
        } in
        let s2 : State S = record s1 {
          cache_file = record s.cache_file { contents = some (read s.cache_file) };
          cache_contents = read s.cache_file;
        } in
        let s3 : State S = record s2 {
          reported = if on_changed then s.reported ++ events else s.reported;
        } in
        let s4 : State S = record s3 { server = server_after result } in
        let s5 : State S = record s4 {
          local_contents = truthy_entries result;
          local_file = record s.local_file { contents = some (truthy_entries result) };
        } in
        rw (
          w.capable,
          get_remote_contents_lem,
          get_local_contents_lem s lo,
          get_cached_contents_lem s1 co,
          merge_lem (read s.local_file) (read s.cache_file) s2 result events m,
          push_remote_lem s3 result refl,
          update_local_lem s4 (truthy_entries result) lo,
          update_cache_lem s5 result co,
        )

    -- What is left of the synchronisation of `s`, with the merged contents `result`.
    pub record Synchronised (result : Contents) (t : State S) : Type 0 where
      pub distinct : NodupKeys result
      pub values :
          (k : String)
          → lookup k result
            ≡ remote_wins
                (lookup k (read s.local_file))
                (lookup k (read s.cache_file))
                (lookup k rem)
      pub local_kept : t.local_file.contents ≡ some (truthy_entries result)
      pub cache_kept : t.cache_file.contents ≡ some result
      pub sent : t.server ≡ server_after result
      pub settled : t.changed ≡ false

    -- With a server that serves the consumer and two files that can be written, `sync` returns the
    -- merge of the local file, the cache and the server's values; afterwards the local file holds its
    -- truthy entries, the cache all of it, and the server was sent it if its values differed.
    pub sync-Synchronised :
        s.local_file.opening ≡ opened
        → s.cache_file.opening ≡ opened
        → (result : Contents) × ((sync order (some u) (some id) on_changed s).0
            ≡ ok (record {
              result = result;
              remote_changed = true;
              local_changed = none;
              cached_changed = none;
            }))
          × Synchronised result (sync order (some u) (some id) on_changed s).1
    unfolding after
    sync-Synchronised lo co =
        let (result, events, m, spec) =
          lookup-three_way_merge order (read s.local_file) (read s.cache_file) rem in
        let e = sync-after result events lo co m in
        (
          result,
          ap (λ r. r.0) e,
          record {
            distinct =
                three_way_merge-NodupKeys order (read s.local_file) (read s.cache_file) rem result
                  events m;
            values = spec;
            local_kept = ap (λ r. r.1.local_file.contents) e;
            cache_kept = ap (λ r. r.1.cache_file.contents) e;
            sent = ap (λ r. r.1.server) e;
            settled = ap (λ r. r.1.changed) e;
          },
        )

module _ {S : Type 0} (s : State S) (lo : s.local_file.opening ≡ opened) where
  local_only : State S
  local_only = record s {
    local_file = record s.local_file { contents = some (read s.local_file) };
    local_contents = read s.local_file;
  }

  _sync_local_only_lem : _sync_local_only s ≡ (
    ok (record {
      result = read s.local_file;
      remote_changed = false;
      local_changed = none;
      cached_changed = some false;
    }),
    local_only,
  )
  unfolding _sync_local_only local_only
  _sync_local_only_lem =
      rw (get_local_contents_lem s lo, update_local_lem local_only (read s.local_file) lo)

  module _ (order : SetOrder) (u : Uep S) (uuid : Option String) (on_changed : Bool) where
    sync-eq-local :
        u.has_capability s.server "syspurpose" ≢ ok true
        → sync order (some u) uuid on_changed s ≡ (
          ok (record {
            result = read s.local_file;
            remote_changed = false;
            local_changed = none;
            cached_changed = some false;
          }),
          local_only,
        )
    unfolding sync
    sync-eq-local h = ground (arith, _sync_local_only_lem)

-- A connection that tells that the server lacks system purpose, or that fails to tell, leaves the
-- server, the cache and `changed` alone: only the local file is written again.
sync_without_capability :
    {S : Type 0} (order : SetOrder) (u : Uep S) (uuid : Option String) (on_changed : Bool)
    (s : State S)
    → u.has_capability s.server "syspurpose" ≢ ok true
    → s.local_file.opening ≡ opened
    → let out = sync order (some u) uuid on_changed s in
      (out.0
        ≡ ok (record {
          result = read s.local_file;
          remote_changed = false;
          local_changed = none;
          cached_changed = some false;
        }))
      × (out.1.local_file.contents ≡ some (read s.local_file))
      × (out.1.cache_file ≡ s.cache_file)
      × (out.1.server ≡ s.server)
      × (out.1.changed ≡ s.changed)
unfolding local_only
sync_without_capability order u uuid on_changed s h lo =
    let e = sync-eq-local s lo order u uuid on_changed h in
    (
      ap (λ r. r.0) e,
      ap (λ r. r.1.local_file.contents) e,
      ap (λ r. r.1.cache_file) e,
      ap (λ r. r.1.server) e,
      ap (λ r. r.1.changed) e,
    )
