-- ===== src/Syspurpose/Files.antt =====
-- The state of `SyncedStore` of src/syspurpose/files.py and its access to files: the local file and its
-- cache are fields of the state, and the server is the parameter `Uep` over a state of its own.
use subscription_manager.Base.{
  String, Bool, false, not, Option, none, some, List, [], ◌∷◌, ◌++◌, ◌==◌, contains, string_eq,
  if◌then◌else◌, filter,
}
use subscription_manager.Base.Dict.{Dict, lookup, keys}
use subscription_manager.Base.Result.{Result, ok, err, os_error}
use subscription_manager.Base.Exec.{Exec, pure, gets, modify, ◌>>=◌}
use subscription_manager.Syspurpose.Value.{Value, null, str, list, value_eq, Contents, truthy, get}
use subscription_manager.Syspurpose.Merge.{DiffChange}

-- What the keyword arguments of `updateConsumer` carry.
pub record Update : Type 0 where
  pub role : Value
  pub addons : Value
  pub service_level : Value
  pub usage : Value

-- The connection to the server, over the server's state.
pub record Uep (S : Type 0) : Type 0 where
  pub has_capability : S → String → Result Bool
  pub get_consumer : S → String → Result (Dict String Value)
  pub update_consumer : S → String → Update → Result (Unit {0}) × S
  pub get_owner : S → String → Result (Option String)
  pub get_valid_fields : S → String → Result (Option (Dict String (List String)))

-- What `open(path, "w+")` does.
pub data Opening : Type 0 where
  opened exists denied : Opening

-- A file, or `none` where it is missing or holds no JSON.
pub record File : Type 0 where
  pub contents : Option Contents
  pub opening : Opening

-- What `_check_key_value_validity` prints.
pub data Warning : Type 0 where
  bad_value : String → String → List String → Warning
  bad_key : String → List String → Warning

pub record State (S : Type 0) : Type 0 where
  pub server : S
  pub local_file : File
  pub cache_file : File
  pub local_contents : Contents
  pub cache_contents : Contents
  pub changed : Bool
  pub reported : List DiffChange
  pub printed : List Warning

-- `none` is Python's `None`, which `update_local` and `update_cache` return.
pub record SyncResult : Type 0 where
  pub result : Contents
  pub remote_changed : Bool
  pub local_changed : Option Bool
  pub cached_changed : Option Bool

-- `ATTRIBUTES` with `LOCAL_TO_REMOTE`
abbrev pub attributes : List (String × String)
attributes =
    ("role", "role")
    ∷ ("addons", "addOns")
    ∷ ("service_level_agreement", "serviceLevel")
    ∷ ("usage", "usage")
    ∷ []

-- the dictionary that `get_remote_contents` builds from the consumer's
abbrev pub from_remote : Dict String Value → List (String × String) → Contents
from_remote consumer [] = []
from_remote consumer ((attr, name) ∷ rest) = (attr, get name consumer) ∷ from_remote consumer rest

-- `data.get(key) or ""`
abbrev or_empty : Value → Value
or_empty v = if truthy v then v else str ""

-- `addons if addons is not None else []`
abbrev or_no_addons : Value → Value
or_no_addons null = list []
or_no_addons v = v

abbrev pub update_of : Contents → Update
update_of d = record {
  role = or_empty (get "role" d);
  addons = or_no_addons (get "addons" d);
  service_level = or_empty (get "service_level_agreement" d);
  usage = or_empty (get "usage" d);
}

-- `{key: result[key] for key in result if result[key]}`
abbrev pub truthy_entries : Contents → Contents
truthy_entries = filter (λ (k, v). truthy v)

-- `_update_file`: a file that cannot be opened raises, but for `EEXIST`, which leaves it as it is.
abbrev write_file : File → Contents → Result File
write_file f d = elim f.opening [
  | opened ↦ ok (record f { contents = some d })
  | exists ↦ ok f
  | denied ↦ err os_error
]

abbrev pub Action : Type 0 → Type 0 → Type 0
Action S A = Exec (State S) A

module _ {S : Type 0} where
  unfoldable pub _write_local : Action S (Unit {0})
  _write_local s = elim (write_file s.local_file s.local_contents) [
    | ok f ↦ (ok tt, record s { local_file = f })
    | err e ↦ (err e, s)
  ]

  unfoldable pub _write_cache : Action S (Unit {0})
  _write_cache s = elim (write_file s.cache_file s.cache_contents) [
    | ok f ↦ (ok tt, record s { cache_file = f })
    | err e ↦ (err e, s)
  ]

  unfoldable pub update_local : Contents → Action S (Unit {0})
  unfolding _write_local
  update_local d s = _write_local (record s { local_contents = d })

  unfoldable pub update_cache : Contents → Action S (Unit {0})
  unfolding _write_cache
  update_cache d s = _write_cache (record s { cache_contents = d })

  unfoldable pub get_local_contents : Action S Contents
  unfolding update_local
  get_local_contents s = elim s.local_file.contents [
    | some c ↦ (ok c, record s { local_contents = c })
    | none ↦
        (update_local [] >>= λ _. modify (λ t. record t { local_contents = [] }) >>= λ _. pure []) s
  ]

  unfoldable pub get_cached_contents : Action S Contents
  unfolding update_cache
  get_cached_contents s = elim s.cache_file.contents [
    | some c ↦ (ok c, record s { cache_contents = c })
    | none ↦ (update_cache [] >>= λ _. pure []) (record s { cache_contents = [] })
  ]

  unfoldable pub _check_key_value_validity :
      Option (Dict String (List String)) → String → String → State S → State S
  _check_key_value_validity none key value s = s
  _check_key_value_validity (some valid_fields) key value s = elim (lookup key valid_fields) [
    | none ↦ record s { printed = s.printed ++ (bad_key key (keys valid_fields) ∷ []) }
    | some values ↦ if contains values value then s else record s {
      printed = s.printed ++ (bad_value key value (filter (λ v. not (v == "")) values) ∷ []);
    }
  ]

  -- `if self.changed is True: self._write_local()` and `return self.changed`
  unfoldable pub finish_change : Action S Bool
  unfolding _write_local
  finish_change s =
      if s.changed then (_write_local >>= λ _. gets (λ t. t.changed)) s else (ok false, s)
