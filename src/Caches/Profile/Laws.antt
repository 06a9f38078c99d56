-- ===== src/Caches/Profile/Laws.antt =====
-- When a profile is sent to the server.
use subscription_manager.Base.{
  ◌≡◌, refl, ap, ◌∙◌, Bool, true, false, not, ◌==◌, ◌↔◌, ◌&&◌, ◌||◌, [], ◌∷◌, ◌++◌, Eq,
  if◌then◌else◌, arith, Bool-cases, inl, inr,
}
use subscription_manager.Base.Result.{ok, err}
use subscription_manager.Caches.File.{
  File, missing, unreadable, corrupt, stored, _cache_exists, _read_cache, write_cache,
}
use subscription_manager.Caches.Profile.{
  Profile, Host, ProfileManager, current_profile, same_profile, same_cached, has_changed, upload_of,
  _sync_with_server, after_sync, tested, collect, cache_update_check, update_check,
}

module _ {P : Type 0} ⦃e : Eq P⦄ (host : Host P) where
  -- whether the file holds a profile, in all of its parts
  abbrev pub holds : File (Profile P) → Profile P → Bool
  holds missing p = false
  holds unreadable p = false
  holds corrupt p = false
  holds (stored q) p =
      q.rpm == p.rpm && q.enabled_repos == p.enabled_repos && q.modulemd == p.modulemd

  -- whether a profile is to be sent
  abbrev pub due : Bool → Bool → ProfileManager P → Bool
  due registered force m =
      host.supports_packages
      && (force || m.report_package_profile)
      && registered
      && (not (holds m.file (current_profile host m)) || force)

  has_changed-holds :
      (m : ProfileManager P) → has_changed host m ≡ not (holds m.file (current_profile host m))
  unfolding has_changed _read_cache same_profile
  has_changed-holds m = go m.file (current_profile host m)
    where
      go :
          (file : File (Profile P)) (p : Profile P)
          → (not (_cache_exists file) || not (same_cached host (_read_cache file) p))
            ≡ not (holds file p)
      go missing p = refl
      go unreadable p = refl
      go corrupt p = refl
      go (stored q) p = refl

  holds_iff : (file : File (Profile P)) (p : Profile P) → (holds file p ≡ true) ↔ (file ≡ stored p)
  holds_iff missing p = ground arith
  holds_iff unreadable p = ground arith
  holds_iff corrupt p = ground arith
  holds_iff (stored q) p = ground arith

  collect-current :
      (m : ProfileManager P) → current_profile host (collect host m) ≡ current_profile host m
  unfolding current_profile
  collect-current m = refl

  tested-current :
      (m : ProfileManager P) → current_profile host (tested host m) ≡ current_profile host m
  unfolding current_profile
  tested-current m = ground arith

  sync_lem :
      (m : ProfileManager P)
      → host.takes (upload_of host (current_profile host m)) ≡ ok tt
      → _sync_with_server host m ≡ (
        ok tt,
        record (collect host m) { sent = m.sent ++ (upload_of host (current_profile host m) ∷ []) },
      )
  unfolding _sync_with_server
  sync_lem m takes =
      ap
        (λ r. elim r [
          | err x ↦ (err x, collect host m)
          | ok _ ↦ (
            ok tt,
            record (collect host m) {
              sent = m.sent ++ (upload_of host (current_profile host m) ∷ []);
            },
          )
        ])
        takes

  -- the state after a profile was sent
  abbrev uploaded : ProfileManager P → ProfileManager P
  uploaded m = record (collect host m) {
    sent = m.sent ++ (upload_of host (current_profile host m) ∷ []);
    file = write_cache host.can_write (current_profile host m) m.file;
  }

  send_lem :
      (m : ProfileManager P)
      → host.takes (upload_of host (current_profile host m)) ≡ ok tt
      → after_sync host (_sync_with_server host (tested host m)) ≡ (ok 1, uploaded m)
  unfolding current_profile
  send_lem m takes = elim (Bool-cases (_cache_exists m.file)) [
    | inl q ↦ rw (q, sync_lem (collect host m) takes) refl
    | inr q ↦ rw (q, sync_lem m takes) refl
  ]

  -- With a server that takes the current profile, it is sent, and 1 returned, exactly where the server
  -- supports packages, the consumer is registered, and it is forced or the reports are on and the file
  -- does not hold the current profile; that is then in the file if it can be written. Else 0 is
  -- returned, and neither what was sent nor the file changes. The current profile stays the same. That the
  -- file holds it is that the file is one of that profile, not missing, unreadable or corrupt.
  pub update_check_lem :
      (registered force : Bool) (m : ProfileManager P)
      → host.takes (upload_of host (current_profile host m)) ≡ ok tt
      → let (result, after) = update_check host registered force m in
        (result ≡ ok (if due registered force m then 1 else 0))
        × (after.sent ≡ (
            if due registered force m
            then m.sent ++ (upload_of host (current_profile host m) ∷ [])
            else m.sent))
        × (after.file ≡ (
            if due registered force m && host.can_write
            then stored (current_profile host m)
            else m.file))
        × (current_profile host after ≡ current_profile host m)
        × ((holds m.file (current_profile host m) ≡ true)
            ↔ (m.file ≡ stored (current_profile host m)))
  unfolding update_check cache_update_check write_cache current_profile
  update_check_lem registered force m takes = ground (
    arith,
    has_changed-holds m,
    ap (λ p. p.0) (send_lem m takes),
    ap (λ p. p.1.sent) (send_lem m takes),
    ap (λ p. p.1.file) (send_lem m takes),
    ap (λ p. p.1._current_profile) (send_lem m takes),
    holds_iff m.file (current_profile host m),
  )

  same_profile_refl : (p : Profile P) → same_profile host p p ≡ true
  unfolding same_profile
  same_profile_refl p = ground arith

  -- After a profile was due, and the server took it and the file could be written, an update that is not
  -- forced returns 0 and sends nothing.
  pub update_check_again :
      (force : Bool) (m : ProfileManager P)
      → host.takes (upload_of host (current_profile host m)) ≡ ok tt
      → host.can_write ≡ true
      → due true force m ≡ true
      → let after = (update_check host true force m).1 in
        let (result, last) = update_check host true false after in
        (result ≡ ok 0) × (last.sent ≡ after.sent)
  unfolding has_changed _read_cache
  update_check_again force m takes writable h =
      let after = (update_check host true force m).1 in
      let (result, sent, file, current, held) = update_check_lem true force m takes in
      let takes' : host.takes (upload_of host (current_profile host after)) ≡ ok tt =
        ap (λ p. host.takes (upload_of host p)) current ∙ takes in
      let written : after.file ≡ stored (current_profile host m) =
        ground (arith, file, writable, h) in
      let same : has_changed host after ≡ false =
        has_changed-holds after ∙ rw (written, current) (ground arith) in
      let (result', sent', file', current', held') = update_check_lem true false after takes' in
      (ground (arith, result', same), ground (arith, sent', same))
