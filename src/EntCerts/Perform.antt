-- ===== src/EntCerts/Perform.antt =====
-- `perform` and `content_access_hook` of `EntCertUpdateAction` in src/subscription_manager/entcertlib.py.
use subscription_manager.Base.{
  ℕ, Bool, true, false, not, ◌||◌, Option, none, List, [], ◌∷◌, is_nil, is_some, if◌then◌else◌,
}
use subscription_manager.Base.Dict.{Dict}
use subscription_manager.Base.Result.{Result, ok, err, disconnected, os_error}
use subscription_manager.Base.Exec.{Exec, pure, lift, gets, ◌>>=◌, ◌>>◌}
use subscription_manager.EntCerts.Directory.{
  Entry, Host, Directory, refresh, list_with_content_access, with_access,
}
use subscription_manager.EntCerts.Access.{
  AccessData, CacheFile, missing, corrupt, cached, Access, check_for_update, update_cert,
}
use subscription_manager.EntCerts.Update.{
  EntCertUpdateReport, Server, State, _get_local_serials, get_certificate_serials_list,
  _find_missing_serials, _find_rogue_serials, delete_all, install, obsolete_certs, call_hooks,
}

-- the except clause of `perform`: a socket.error is an OSError
abbrev pub if_connected : Result (List ℕ) → Result (List ℕ)
if_connected (ok serials) = ok serials
if_connected (err os_error) = err disconnected
if_connected (err e) = err e

abbrev exists : {R : Type 0} → CacheFile R → Bool
exists missing = false
exists corrupt = true
exists (cached r) = true

-- What the first half of `perform` finds: the serial numbers that the server expects, those that were
-- installed, and whether a certificate was missing or rogue.
pub record Exchange : Type 0 where
  pub expected : List ℕ
  pub installed : List ℕ
  pub cert_changed : Bool

module _ {R D : Type 0} (api : AccessData R D) (host : Host) (server : Server) where
  -- The state of the action, and the cache of content access.
  abbrev pub World : Type 0
  World = State × Access api

  abbrev pub on_state : {A : Type 0} → (State → Result A × State) → Exec World A
  on_state f (s, a) = let (r, t) = f s in (r, (t, a))

  abbrev pub on_dir : {A : Type 0} → (Directory → Result A × Directory) → Exec World A
  on_dir f (s, a) = let (r, dir) = f s.dir in (r, (record s { dir = dir }, a))

  abbrev after_install : List ℕ → Bool → Result (List ℕ) × State → Result Exchange × State
  after_install expected changed (err e, s) = (err e, s)
  after_install expected changed (ok installed, s) = (
    ok (record { expected = expected; installed = installed; cert_changed = changed }),
    record s { dir = refresh s.dir },
  )

  abbrev after_expected : Dict ℕ Entry → Result (List ℕ) → State → Result Exchange × State
  after_expected loc (err e) s = (err e, s)
  after_expected loc (ok expected) s =
      let missing_serials = _find_missing_serials loc expected in
      let rogue_serials = _find_rogue_serials loc expected in
      let told = record s { report = record s.report { expected = expected } } in
      after_install expected (not (is_nil missing_serials) || not (is_nil rogue_serials))
        (install host server missing_serials (delete_all host rogue_serials told))

  abbrev after_local : Result (Dict ℕ Entry) × State → Result Exchange × State
  after_local (err e, s) = (err e, s)
  after_local (ok loc, s) =
      after_expected loc (if_connected (get_certificate_serials_list server)) s

  -- from the local certificates to the refresh after the installation
  unfoldable pub exchange : State → Result Exchange × State
  exchange s = after_local (_get_local_serials s)

  unfoldable pub _find_content_access_certs : Exec World (List Entry)
  _find_content_access_certs w = (on_dir list_with_content_access >>= λ es. pure (with_access es)) w

  unfoldable pub update_certs : Option R → List Entry → Exec World (Unit {0})
  update_certs update_data [] = pure tt
  update_certs update_data (e ∷ es) =
      on_dir (update_cert api host e update_data) >> update_certs update_data es

  abbrev pub check_access : Exec World (Option R)
  check_access (s, a) = let (r, b) = check_for_update api a in (r, (s, b))

  abbrev pub remove_cache : Exec World (Unit {0})
  remove_cache (s, a) = (ok tt, (s, if exists a.file then record a { file = missing } else a))

  -- the updates of the certificates of content access, and what follows them
  unfoldable pub apply_update : List Entry → Option R → Exec World (Option R)
  apply_update content_access_certs update_data = do
    update_certs update_data content_access_certs
    (if is_nil content_access_certs then remove_cache else pure tt)
    (if is_some update_data then on_dir (λ dir. (ok tt, refresh dir)) else pure tt)
    pure update_data

  unfoldable pub update_listed : List Entry → Exec World (Option R)
  update_listed content_access_certs =
      (if is_nil content_access_certs then pure none else check_access)
      >>= apply_update content_access_certs

  unfoldable pub content_access_hook : Exec World (Option R)
  content_access_hook = do
    capable ← lift server.has_capability
    (if capable then _find_content_access_certs >>= update_listed else pure none)

  -- the deletion of obsolete certificates of content access, if there are any
  unfoldable pub delete_obsolete : Exchange → List Entry → Exec World (Unit {0})
  delete_obsolete x certs (s, a) =
      let obsolete = obsolete_certs x.installed x.expected certs in
      (ok tt, (if is_nil obsolete then s else delete_all host obsolete s, a))

  -- the part for servers with content access: whether anything was updated
  -- the part for servers with content access: whether anything was updated
  unfoldable pub access_part : Exchange → Exec World Bool
  access_part x = do
    content_access_certs ← _find_content_access_certs
    delete_obsolete x content_access_certs
    update_data ← content_access_hook
    pure (is_some update_data)

  -- the rest of `perform` after the exchange
  unfoldable pub with_capability : Exchange → Bool → Exec World EntCertUpdateReport
  with_capability x capable = do
    accessed ← (if capable then access_part x else pure false)
    on_state (λ s. (ok tt, call_hooks (x.cert_changed || accessed) s))
    gets (λ (s, a). s.report)

  unfoldable pub perform : Exec World EntCertUpdateReport
  perform = do
    x ← on_state exchange
    capable ← lift server.has_capability
    with_capability x capable
