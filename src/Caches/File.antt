-- ===== src/Caches/File.antt =====
-- The file of a `CacheManager` of src/subscription_manager/cache.py.
use subscription_manager.Base.{Bool, true, false, Option, none, some, if◌then◌else◌}

-- A file that is missing, cannot be opened, is no JSON, or holds data.
pub data File (J : Type 0) : Type 0 where
  missing unreadable corrupt : File J
  stored : J → File J

-- `CacheManager._cache_exists`
abbrev pub _cache_exists : {J : Type 0} → File J → Bool
_cache_exists missing = false
_cache_exists unreadable = true
_cache_exists corrupt = true
_cache_exists (stored j) = true

-- `CacheManager._read_cache`: its exceptions are caught
unfoldable pub _read_cache : {J : Type 0} → File J → Option J
_read_cache missing = none
_read_cache unreadable = none
_read_cache corrupt = none
_read_cache (stored j) = some j

-- `CacheManager.write_cache`: an IOError leaves the file as it was
unfoldable pub write_cache : {J : Type 0} → Bool → J → File J → File J
write_cache can_write data' file = if can_write then stored data' else file

-- `CacheManager.delete_cache`
abbrev pub delete_cache : {J : Type 0} → File J → File J
delete_cache file = missing
