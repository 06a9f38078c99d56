-- ===== src/EntCerts/Access.antt =====
-- `ContentAccessCache` of src/subscription_manager/cache.py.
use subscription_manager.Base.{ℕ, Bool, false, not, Option, none, some, if◌then◌else◌}
use subscription_manager.Base.Dict.{insert}
use subscription_manager.Base.Result.{Result, ok, err, os_error, rest_error}
use subscription_manager.EntCerts.Directory.{name_eq, Certificate, Entry, Host, Directory}

-- The JSON objects that the server answers with, of type `R`, and the dates that `parse_date` gives, of
-- type `D`: the date of the last update, if it is there and can be parsed, the key "contentListing",
-- and what its text for a serial number is parsed as, if it is there.
pub record AccessData (R D : Type 0) : Type 0 where
  pub same : R → R → Bool
  pub last_update : R → Option D
  pub has_listing : R → Bool
  pub listed : R → ℕ → Option (Option Certificate)

-- the cache's file: missing, no JSON, or an object
pub data CacheFile (R : Type 0) : Type 0 where
  missing corrupt : CacheFile R
  cached : R → CacheFile R

module _ {R D : Type 0} (api : AccessData R D) where
  -- What the server answers, the cache's file and whether it can be written.
  pub record Access : Type 0 where
    pub get_accessible_content : Option D → Result (Option R)
    pub file : CacheFile R
    pub can_write_cache : Bool

  unfoldable pub _update_cache : R → Access → Result (Unit {0}) × Access
  _update_cache data' a =
      if a.can_write_cache then (ok tt, record a { file = cached data' }) else (err os_error, a)

  -- an answer that has the listing is kept
  unfoldable pub take_response : Option R → Access → Result (Option R) × Access
  unfolding _update_cache
  take_response none a = (ok none, a)
  take_response (some r) a =
      let (written, b) = _update_cache r a in
      if not (api.has_listing r)
      then (ok none, a)
      else (elim written [ ok _ ↦ ok (some r) | err e ↦ err e ], b)

  unfoldable pub _query_for_update : Option D → Access → Result (Option R) × Access
  unfolding take_response
  _query_for_update if_modified_since a = elim (a.get_accessible_content if_modified_since) [
    | err rest_error ↦ (ok none, a)
    | err e ↦ (err e, a)
    | ok response ↦ take_response response a
  ]

  abbrev pub cached_data : CacheFile R → Option R
  cached_data missing = none
  cached_data corrupt = none
  cached_data (cached r) = some r

  abbrev pub last_update_of : Option R → Option D
  last_update_of none = none
  last_update_of (some r) = api.last_update r

  -- `data is not None and data == response`
  abbrev pub up_to_date : Option R → Option R → Bool
  up_to_date none response = false
  up_to_date (some r) none = false
  up_to_date (some r) (some response) = api.same r response

  unfoldable pub check_for_update : Access → Result (Option R) × Access
  unfolding _query_for_update
  check_for_update a =
      let data' = cached_data a.file in
      let (r, b) = _query_for_update (last_update_of data') a in
      (
        elim r [
          | err e ↦ err e
          | ok response ↦ ok (if up_to_date data' response then none else response)
        ],
        b,
      )

  -- `update_cert`, on the files of the directory
  unfoldable pub update_cert : Host → Entry → Option R → Directory → Result (Unit {0}) × Directory
  update_cert host e none dir = (ok tt, dir)
  update_cert host e (some r) dir = elim (api.listed r e.cert.serial) [
    | none ↦ (ok tt, dir)
    | some content ↦
        if host.can_write e.path
        then (ok tt, record dir { certs = insert e.path content dir.certs })
        else (err os_error, dir)
  ]
