-- ===== src/Syspurpose/Tests.antt =====
-- The theorems about src/syspurpose/files.py at concrete inputs.
use subscription_manager.Base.{
  ◌≡◌, refl, String, true, false, none, some, List, [], ◌∷◌, arith, if◌then◌else◌, string_eq,
  String-discrete, contains, All,
}
use subscription_manager.Base.Dict.{Dict, lookup, insert, has, keys}
use subscription_manager.Base.Result.{ok}
use subscription_manager.Base.Text.{count}
use subscription_manager.Syspurpose.Value.{
  Contents, value_eq, Value, null, str, list, Value-discrete,
}
use subscription_manager.Syspurpose.Merge.{
  DiffChange, SetOrder, three_way_merge, detect_changed, Change-discrete, values_differ,
}
use subscription_manager.Syspurpose.Merge.Pointwise.{remote_wins, lookup-three_way_merge}
use subscription_manager.Syspurpose.Merge.Events.{ReportsOnce, Reports, three_way_merge-events}
use subscription_manager.Syspurpose.Files.{Uep, State, File, opened, truthy_entries}
use subscription_manager.Syspurpose.Synced.Laws.{Writes, add_call, call, call-Writes}
use subscription_manager.Syspurpose.Sync.{sync}
use subscription_manager.Syspurpose.Sync.Laws.{Serves, Synchronised, sync-Synchronised}
use subscription_manager.Syspurpose.Sync.Stable.{IsSettled, sync_settled}

dedupe : List String → List String
dedupe [] = []
dedupe (x ∷ xs) = let rest = dedupe xs in if contains xs x then rest else x ∷ rest

count-dedupe :
    (k : String) (ks : List String) → count k (dedupe ks) ≡ (if contains ks k then 1 else 0)
unfolding dedupe
count-dedupe k [] = refl
count-dedupe k (x ∷ xs) = ground (arith, count-dedupe k xs)

abbrev order : SetOrder
order = record { enumerate = dedupe; count-enumerate = count-dedupe }

abbrev loc : Contents
loc = ("role", str "Server") ∷ ("addons", list ("a" ∷ "b" ∷ [])) ∷ ("note", str "mine") ∷ []

abbrev base : Contents
base = ("role", str "Server") ∷ ("addons", list ("a" ∷ [])) ∷ ("usage", str "Test") ∷ []

abbrev rem : Contents
rem =
    ("role", str "Node")
    ∷ ("addons", list ("a" ∷ []))
    ∷ ("service_level_agreement", null)
    ∷ ("usage", str "Test")
    ∷ []

lookup-three_way_merge_example :
    (result : Contents) × (events : List DiffChange) × (three_way_merge order loc base rem "remote"
      ≡ ok (result, events))
    × ((k : String) → lookup k result ≡ remote_wins (lookup k loc) (lookup k base) (lookup k rem))
lookup-three_way_merge_example = lookup-three_way_merge order loc base rem

lookup-one : (k : String) (v : Value) → lookup k ((k, v) ∷ []) ≡ some v
unfolding lookup
lookup-one k v = ground arith

-- One local change.
abbrev small_loc : Contents
small_loc = ("usage", str "Test") ∷ []

abbrev small_events : List DiffChange
small_events =
    record {
      key = "usage";
      previous_value = null;
      new_value = str "Test";
      source = "local";
      in_base = false;
      in_result = true;
    }
    ∷ []

small_merge : three_way_merge order small_loc [] [] "remote" ≡ ok (small_loc, small_events)
unfolding three_way_merge dedupe detect_changed values_differ lookup insert has keys String-discrete
    Change-discrete Value-discrete
small_merge = refl

three_way_merge-events_example :
    ReportsOnce small_loc [] [] small_events × All (Reports [] small_loc) small_events
three_way_merge-events_example =
    three_way_merge-events order small_loc [] [] small_loc small_events small_merge

abbrev ab : List String
ab = "a" ∷ "b" ∷ []

-- A server that keeps one consumer, with the values that it was last sent.
abbrev memory_uep : Uep (Dict String Value)
memory_uep = record {
  has_capability = λ server name. ok true;
  get_consumer = λ server id. ok server;
  update_consumer = λ server id update. (
    ok tt,
    ("role", update.role)
        ∷ ("addOns", update.addons)
        ∷ ("serviceLevel", update.service_level)
        ∷ ("usage", update.usage)
        ∷ [],
  );
  get_owner = λ server id. ok none;
  get_valid_fields = λ server key. ok none;
}

abbrev consumer : Dict String Value
consumer =
    ("role", str "Node")
    ∷ ("addOns", list ("a" ∷ []))
    ∷ ("serviceLevel", null)
    ∷ ("usage", str "Test")
    ∷ []

abbrev file_of : Contents → File
file_of c = record { contents = some c; opening = opened }

abbrev state : State (Dict String Value)
state = record {
  server = consumer;
  local_file = file_of loc;
  cache_file = file_of base;
  local_contents = loc;
  cache_contents = base;
  changed = true;
  reported = [];
  printed = [];
}

call-Writes_example :
    Writes state
      (call none (add_call "addons" "c") state).0
      (call none (add_call "addons" "c") state).1
call-Writes_example = call-Writes none (add_call "addons" "c") state

serves : Serves memory_uep "id" consumer consumer
serves = record { capable = refl; known = refl; accepts = λ d. refl }

sync-Synchronised_example :
    (result : Contents) × ((sync order (some memory_uep) (some "id") true state).0
      ≡ ok (record {
        result = result;
        remote_changed = true;
        local_changed = none;
        cached_changed = none;
      }))
    × Synchronised order memory_uep "id" true state consumer serves result
        (sync order (some memory_uep) (some "id") true state).1
sync-Synchronised_example =
    sync-Synchronised order memory_uep "id" true state consumer serves refl refl

-- A server without system purpose.
abbrev old_uep : Uep (Dict String Value)
old_uep = record memory_uep { has_capability = λ server name. ok false }

abbrev quiet : Contents
quiet =
    ("role", str "Node")
    ∷ ("addons", list ("a" ∷ []))
    ∷ ("service_level_agreement", null)
    ∷ ("usage", str "Test")
    ∷ []

abbrev settled_state : State (Dict String Value)
settled_state = record state {
  local_file = file_of (truthy_entries quiet);
  cache_file = file_of quiet;
}

settled : IsSettled settled_state consumer
unfolding has String-discrete lookup
settled = record {
  cached = quiet;
  distinct = (refl, (refl, (refl, (refl, tt))));
  in_cache = refl;
  in_local = refl;
  on_server = λ k. refl;
}

sync_settled_example :
    (result : Contents) × ((sync order (some memory_uep) (some "id") true settled_state).0
      ≡ ok (record {
        result = result;
        remote_changed = true;
        local_changed = none;
        cached_changed = none;
      }))
    × ((k : String) → lookup k result ≡ lookup k quiet)
    × ((sync order (some memory_uep) (some "id") true settled_state).1.server
        ≡ settled_state.server)
unfolding settled
sync_settled_example =
    sync_settled order memory_uep "id" true settled_state consumer serves refl refl settled
