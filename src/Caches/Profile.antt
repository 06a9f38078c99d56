-- ===== src/Caches/Profile.antt =====
-- `CacheManager.update_check` of src/subscription_manager/cache.py, and `ProfileManager`.
pub mod Laws
use subscription_manager.Base.{
  ℕ, String, Bool, true, false, not, ◌&&◌, ◌||◌, Option, none, some, List, [], ◌∷◌, ◌++◌, Eq, ◌==◌,
  if◌then◌else◌,
}
use subscription_manager.Base.Result.{Error, Result, ok, err}
use subscription_manager.Caches.File.{File, _cache_exists, _read_cache, write_cache}

-- The combined profile; a profile of one kind is of type `P`.
pub record Profile (P : Type 0) : Type 0 where
  pub rpm : P
  pub enabled_repos : P
  pub modulemd : P

-- What is sent to the server: the combined profile, or that of packages alone.
pub data Upload (P : Type 0) : Type 0 where
  combined : Profile P → Upload P
  packages : P → Upload P

-- The profiles that the host collects, whether the file can be written, and the server: whether it
-- supports packages and combined reports, and whether it takes an upload.
pub record Host (P : Type 0) : Type 0 where
  pub collected : Profile P
  pub can_write : Bool
  pub supports_packages : Bool
  pub combined_reporting : Bool
  pub takes : Upload P → Result (Unit {0})

-- `sent` is what was sent to the server, and taken by it.
pub record ProfileManager (P : Type 0) : Type 0 where
  pub _current_profile : Option (Profile P)
  pub report_package_profile : Bool
  pub file : File (Profile P)
  pub sent : List (Upload P)

module _ {P : Type 0} ⦃e : Eq P⦄ (host : Host P) where
  abbrev profile_or : Option (Profile P) → Profile P
  profile_or none = host.collected
  profile_or (some p) = p

  unfoldable pub current_profile : ProfileManager P → Profile P
  current_profile m = profile_or m._current_profile

  -- `self._current_profile` after a use of the property
  abbrev pub collect : ProfileManager P → ProfileManager P
  collect m = record m { _current_profile = some (profile_or m._current_profile) }

  unfoldable pub same_profile : Profile P → Profile P → Bool
  same_profile p q =
      p.rpm == q.rpm && p.enabled_repos == q.enabled_repos && p.modulemd == q.modulemd

  -- `cached_profile == self.current_profile`
  abbrev pub same_cached : Option (Profile P) → Profile P → Bool
  same_cached none p = false
  same_cached (some q) p = same_profile q p

  unfoldable pub has_changed : ProfileManager P → Bool
  has_changed m =
      not (_cache_exists m.file) || not (same_cached (_read_cache m.file) (current_profile m))

  unfoldable pub upload_of : Profile P → Upload P
  upload_of p = if host.combined_reporting then combined p else packages p.rpm

  -- `_sync_with_server`
  unfoldable pub _sync_with_server : ProfileManager P → Result (Unit {0}) × ProfileManager P
  _sync_with_server m =
      let upload = upload_of (current_profile m) in
      elim (host.takes upload) [
        | err x ↦ (err x, collect m)
        | ok _ ↦ (ok tt, record (collect m) { sent = m.sent ++ (upload ∷ []) })
      ]

  abbrev pub after_sync : Result (Unit {0}) × ProfileManager P → Result ℕ × ProfileManager P
  after_sync (err x, m) = (err x, m)
  after_sync (ok _, m) =
      (ok 1, record (collect m) { file = write_cache host.can_write (current_profile m) m.file })

  -- the test of `has_changed`, which collects the profile if the file exists
  abbrev pub tested : ProfileManager P → ProfileManager P
  tested m = if _cache_exists m.file then collect m else m

  -- `CacheManager.update_check`; `registered` is whether there is a consumer
  unfoldable pub cache_update_check : Bool → Bool → ProfileManager P → Result ℕ × ProfileManager P
  cache_update_check registered force m =
      if not registered
      then (ok 0, m)
      else if has_changed m || force
      then after_sync (_sync_with_server (tested m))
      else (ok 0, tested m)

  -- `ProfileManager.update_check`
  unfoldable pub update_check : Bool → Bool → ProfileManager P → Result ℕ × ProfileManager P
  update_check registered force m =
      if not host.supports_packages
      then (ok 0, m)
      else if force || m.report_package_profile
      then cache_update_check registered force m
      else (ok 0, m)
