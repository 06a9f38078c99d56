-- ===== src/Caches/Consumer.antt =====
-- `ConsumerCache` of src/subscription_manager/cache.py with its subclasses: what the server said for an
-- identity, which it is asked for again after a while, or when the identity changes.
pub mod Laws
use subscription_manager.Base.{
  ℕ, suc, String, Bool, true, false, not, ◌&&◌, ◌||◌, Option, none, some, List, [], ◌∷◌, ◌==◌,
  string_eq, ltb, if◌then◌else◌,
}
use subscription_manager.Base.Dict.{Dict, lookup}
use subscription_manager.Connection.Exceptions.{
  Class, Exception, is_instance, Call, raised, returned,
}
use subscription_manager.Caches.File.{
  File, missing, _cache_exists, _read_cache, write_cache, delete_cache,
}

-- `TIMEOUT`, `DEFAULT_VALUE` and `len(data) == 0`
pub record Kind (J : Type 0) : Type 0 where
  pub timeout : Option ℕ
  pub default : J
  pub is_empty : J → Bool

-- The data in memory, the file, and how often the server was asked.
pub record ConsumerCache (J : Type 0) : Type 0 where
  pub kept : Dict String J
  pub file : File (Dict String J)
  pub requests : ℕ

-- What surrounds a call: whether the class takes the file as obsolete, the age of the file, whether it can
-- be written, and what the server answers.
pub record Round (J : Type 0) : Type 0 where
  pub obsoleted : Bool
  pub age : ℕ
  pub can_write : Bool
  pub answer : Call J

module _ {J : Type 0} where
  -- `CacheManager.read_cache_only`
  unfoldable pub read_cache_only : File (Dict String J) → Option (Dict String J)
  unfolding _read_cache
  read_cache_only file = if _cache_exists file then _read_cache file else none

  -- `_load_data` keeps what it reads
  unfoldable pub load : ConsumerCache J → ConsumerCache J
  unfolding read_cache_only
  load c = elim (read_cache_only c.file) [ none ↦ c | some d ↦ record c { kept = d } ]

  -- `set_data`
  unfoldable pub set_data : String → J → ConsumerCache J → ConsumerCache J
  set_data uuid current_data c = record c { kept = (uuid, current_data) ∷ [] }

  module _ (kind : Kind J) where
    abbrev is_timed_out : ℕ → File (Dict String J) → Bool
    is_timed_out age file = elim kind.timeout [
      | none ↦ false
      | some t ↦ _cache_exists file && ltb t age
    ]

    abbrev entry_of : String → Option (Dict String J) → J
    entry_of uuid none = kind.default
    entry_of uuid (some d) = elim (lookup uuid d) [ some v ↦ v | none ↦ kind.default ]

    abbrev pub is_usable : Round J → ConsumerCache J → Bool
    is_usable r c = not (r.obsoleted || is_timed_out r.age c.file)

    -- what the file tells
    unfoldable pub cached_data : String → Round J → ConsumerCache J → J
    unfolding read_cache_only
    cached_data uuid r c =
        if is_usable r c then entry_of uuid (read_cache_only c.file) else kind.default

    -- the end of `read_data`, with what the server answers
    unfoldable pub keep_answer :
        String → Round J → Call J → ConsumerCache J → Call J × ConsumerCache J
    unfolding set_data
    keep_answer uuid r (raised e) c =
        let asked = record c { requests = suc c.requests } in
        (
          raised e,
          if is_instance Class.restlib e
              then record asked { file = delete_cache asked.file }
              else asked,
        )
    keep_answer uuid r (returned v) c =
        let asked = set_data uuid v (record c { requests = suc c.requests }) in
        (returned v, record asked { file = write_cache r.can_write asked.kept asked.file })

    unfoldable pub read_data : Option String → Round J → ConsumerCache J → Call J × ConsumerCache J
    unfolding cached_data keep_answer load
    read_data none r c = (returned kind.default, record c { file = delete_cache c.file })
    read_data (some uuid) r c =
        let current_data = cached_data uuid r c in
        let t = if is_usable r c then load c else c in
        if kind.is_empty current_data
        then keep_answer uuid r r.answer t
        else (returned current_data, t)

-- `_is_cache_obsoleted` of the caches of the owner and of its content access mode, from
-- `is_consumer_cert_key_valid` of the connection
unfoldable pub _is_cache_obsoleted : Option Bool → Bool
_is_cache_obsoleted none = true
_is_cache_obsoleted (some valid) = not valid

-- `ContentAccessModeCache._sync_with_server`, from the owner that the server tells
unfoldable pub content_access_mode :
    {Owner : Type 0} → (Owner → Option String) → Call Owner → Call String
content_access_mode mode_of (raised e) = returned "unknown"
content_access_mode mode_of (returned owner) = elim (mode_of owner) [
  | some mode ↦ returned mode
  | none ↦ returned "unknown"
]
