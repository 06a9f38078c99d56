-- ===== src/Caches/Status.antt =====
-- `StatusCache` of src/subscription_manager/cache.py and its subclasses.
pub mod Laws
pub mod Requests
use subscription_manager.Base.{
  ℕ, zero, suc, String, Bool, true, false, not, ◌||◌, Option, none, some, is_some, Eq, ◌==◌,
  string_eq, if◌then◌else◌,
}
use subscription_manager.Caches.File.{File, missing, _cache_exists, _read_cache, write_cache}

-- The exceptions of a request by the clause of `load_status` that catches them: the first three are
-- ssl.SSLError, AuthenticationException and ExpiredIdentityCertException, `unreachable` are
-- ConnectionException, RateLimitExceededException, socket.error and ProxyException, `rest` is
-- RestlibException, and `uncaught` is any other.
pub data Failure : Type 0 where
  ssl authentication expired_identity unreachable rest uncaught : Failure

pub data Outcome (A : Type 0) : Type 0 where
  raised : Failure → Outcome A
  returned : A → Outcome A

-- `last_error`: None, False or the exception
pub data LastError : Type 0 where
  unset cleared : LastError
  failed_with : Failure → LastError

-- `pending` is the number of threads that were started to write the file and did not run yet.
pub record StatusCache (J : Type 0) : Type 0 where
  pub server_status : Option J
  pub last_error : LastError
  pub file : File (Option J)
  pub pending : ℕ

-- what the server answers to `_sync_with_server`
abbrev pub Answer : Type 0 → Type 0
Answer J = Outcome (Option J)

-- JSON's null is read as `None`.
abbrev pub or_none : {J : Type 0} → Option (Option J) → Option J
or_none none = none
or_none (some o) = o

module _ {J : Type 0} where
  -- `StatusCache._cache_exists`
  unfoldable pub _status_exists : StatusCache J → Bool
  _status_exists s = is_some s.server_status || _cache_exists s.file

  -- `StatusCache._read_cache`
  unfoldable pub _read_status : StatusCache J → Option J × StatusCache J
  _read_status s = elim s.server_status [
    | some j ↦ (some j, s)
    | none ↦
        let read = if _cache_exists s.file then or_none (_read_cache s.file) else none in
        (read, record s { server_status = read })
  ]

  -- `read_cache_only`
  unfoldable pub read_cache_only : StatusCache J → Option J × StatusCache J
  read_cache_only s = if _status_exists s then _read_status s else (none, s)

  -- `StatusCache.write_cache` starts a thread.
  unfoldable pub start_write : StatusCache J → StatusCache J
  start_write s = record s { pending = suc s.pending }

  -- A thread runs: it writes the status that is in memory then.
  unfoldable pub run_thread : Bool → StatusCache J → StatusCache J
  run_thread can_write s = elim s.pending [
    | zero ↦ s
    | suc n ↦ record s { pending = n; file = write_cache can_write s.server_status s.file }
  ]

  -- `load_status` where the request fails
  unfoldable pub failed : Failure → StatusCache J → Outcome (Option J) × StatusCache J
  failed uncaught s = (raised uncaught, s)
  failed unreachable s =
      let noted = record s { last_error = failed_with unreachable } in
      if not (_status_exists noted)
      then (returned none, noted)
      else (returned (_read_status noted).0, (_read_status noted).1)
  failed f s = (returned none, record s { last_error = failed_with f })

  -- `load_status` where `_sync_with_server` keeps what the server answers
  unfoldable pub load_status : Answer J → StatusCache J → Outcome (Option J) × StatusCache J
  load_status (raised f) s = failed f s
  load_status (returned answer) s =
      let t = start_write (record s { server_status = answer }) in
      (returned t.server_status, record t { last_error = cleared })

  abbrev installed_or : Option J → Option J → Option J
  installed_or none old = old
  installed_or (some j) old = some j

  -- `load_status` of `ProductStatusCache`: the answer is that of "installedProducts", if it is there.
  unfoldable pub load_product_status : Answer J → StatusCache J → Outcome (Option J) × StatusCache J
  load_product_status (raised f) s = failed f s
  load_product_status (returned answer) s =
      load_status (returned (installed_or answer s.server_status)) s

  abbrev pub keep_loaded : Outcome (Option J) × StatusCache J → Outcome (Option J) × StatusCache J
  keep_loaded (raised f, s) = (raised f, s)
  keep_loaded (returned r, s) = (returned r, record s { server_status = r })

  -- `read_status`
  abbrev pub read_or_load : Answer J → Option J × StatusCache J → Outcome (Option J) × StatusCache J
  read_or_load answer (some j, s) = (returned (some j), record s { server_status = some j })
  read_or_load answer (none, s) =
      keep_loaded (load_status answer (record s { server_status = none }))

  unfoldable pub read_status : Answer J → StatusCache J → Outcome (Option J) × StatusCache J
  read_status answer s = elim s.server_status [
    | some j ↦ (returned (some j), s)
    | none ↦ read_or_load answer (_read_status s)
  ]

  -- `StatusCache.delete_cache`
  unfoldable pub delete_status : StatusCache J → StatusCache J
  delete_status s = record s { file = missing; server_status = none }
