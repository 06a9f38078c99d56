-- ===== src/EntCerts/Hook.antt =====
-- The part of `perform` for content access keeps the names of the files.
use subscription_manager.Base.{
  ◌≡◌, refl, ap, ◌∙◌, ℕ, Bool, true, false, ◌||◌, Option, none, some, List, [], ◌∷◌, contains,
  is_nil, is_some, All, nat_eq, if◌then◌else◌, arith, Bool-cases, Option-cases, inl, inr,
}
use subscription_manager.Base.Dict.{has, has-insert}
use subscription_manager.Base.Result.{ok, Result-cases}
use subscription_manager.Base.Exec.{Exec, pure, lift, ◌>>=◌}
use subscription_manager.EntCerts.Directory.{
  numbered, name_eq, Entry, Host, Directory, refresh, delete, with_access,
}
use subscription_manager.EntCerts.Update.{
  Server, State, delete_one, delete_loop, tell_deleted, delete_all, obsolete_certs,
}
use subscription_manager.EntCerts.Access.{AccessData, update_cert}
use subscription_manager.EntCerts.Perform.{
  Exchange, World, on_dir, apply_update, update_listed, check_access, remove_cache, update_certs,
  _find_content_access_certs, content_access_hook, delete_obsolete, access_part,
}
use subscription_manager.EntCerts.Local.{WellNamed, All-filter}
use subscription_manager.EntCerts.Exchange.{present}
use subscription_manager.EntCerts.Listing.{
  Present, Listable, Listable-of_WellNamed, Listable-of_listing, Present-moved, SameNames, AllThere,
  AllThere-moved, Present-AllThere,
}

module _ {R D : Type 0} (api : AccessData R D) (host : Host) (server : Server) where
  abbrev W : Type 0
  W = World api host server

  -- The action keeps the names of the files in a state.
  abbrev Keeps : {A : Type 0} → Exec W A → W → Type 0
  Keeps m w = SameNames w.0.dir (m w).1.0.dir

  pub bind-Keeps :
      {A B : Type 0} (m : Exec W A) (f : A → Exec W B) (w : W)
      → Keeps m w
      → ((x : A) → (m w).0 ≡ ok x → Keeps (f x) (m w).1)
      → Keeps (m >>= f) w
  bind-Keeps m f w h k n = elim (Result-cases (m w).0) [
    | inl (e, q) ↦ rw q (h n)
    | inr (x, q) ↦ rw q (k x q n ∙ h n)
  ]

  update_cert_lem :
      (e : Entry) (data' : Option R) (dir : Directory)
      → has e.path dir.certs ≡ true
      → SameNames dir (update_cert api host e data' dir).1
  unfolding update_cert
  update_cert_lem e none dir h n = refl
  update_cert_lem e (some r) dir h n = elim (Option-cases (api.listed r e.cert.serial)) [
    | inl q ↦ rw (update_cert, q) refl
    | inr (content, q) ↦
        rw (update_cert, q) (ground (arith, has-insert n e.path content dir.certs, h))
  ]

  update_certs-Keeps :
      (data' : Option R) (es : List Entry) (w : W)
      → AllThere w.0.dir es
      → Keeps (update_certs api host server data' es) w
  unfolding update_certs
  update_certs-Keeps data' [] w h = λ n. refl
  update_certs-Keeps data' (e ∷ es) w h =
      let m = on_dir api host server (update_cert api host e data') in
      let same = update_cert_lem e data' w.0.dir h.0 in
      bind-Keeps m (λ _. update_certs api host server data' es) w same
        (λ x q.
          update_certs-Keeps data' es (m w).1 (AllThere-moved w.0.dir (m w).1.0.dir es same h.1))

  -- What finding the certificates of content access does.
  find_lem :
      (w : W) (l : Listable w.0.dir)
      → _find_content_access_certs api host server w ≡ (
        ok (with_access l.0),
        (record w.0 { dir = record w.0.dir { listing = some (l.0) } }, w.1),
      )
  unfolding _find_content_access_certs
  find_lem w l = rw (_find_content_access_certs, l.1) refl

  pub if_Keeps :
      {A : Type 0} (b : Bool) (m k : Exec W A) (w : W)
      → Keeps m w
      → Keeps k w
      → Keeps (if b then m else k) w
  if_Keeps true m k w h h' = h
  if_Keeps false m k w h h' = h'

  apply_update-Keeps :
      (es : List Entry) (data' : Option R) (w : W)
      → AllThere w.0.dir es
      → Keeps (apply_update api host server es data') w
  unfolding apply_update refresh
  apply_update-Keeps es data' w h =
      bind-Keeps (update_certs api host server data' es) _ w (update_certs-Keeps data' es w h)
        (λ _ q.
          bind-Keeps (if is_nil es then remove_cache api host server else pure tt) _ _
            (if_Keeps (is_nil es) (remove_cache api host server) (pure tt) _ (λ n. refl)
              (λ n. refl))
            (λ _ q.
              bind-Keeps
                (if is_some data'
                  then on_dir api host server (λ dir. (ok tt, refresh dir))
                  else pure tt)
                _ _
                (if_Keeps (is_some data') (on_dir api host server (λ dir. (ok tt, refresh dir)))
                  (pure tt) _ (λ n. refl) (λ n. refl))
                (λ _ q n. refl)))

  update_listed-Keeps :
      (es : List Entry) (w : W) → AllThere w.0.dir es → Keeps (update_listed api host server es) w
  unfolding update_listed
  update_listed-Keeps [] w h = apply_update-Keeps [] none w h
  update_listed-Keeps (e ∷ es) w h =
      bind-Keeps (check_access api host server) (apply_update api host server (e ∷ es)) w
        (λ n. refl)
        (λ data' q. apply_update-Keeps (e ∷ es) data' (check_access api host server w).1 h)

  -- The hook keeps the names of the files.
  content_access_hook-Keeps :
      (w : W) → Listable w.0.dir → Keeps (content_access_hook api host server) w
  unfolding content_access_hook
  content_access_hook-Keeps w l =
      let find = _find_content_access_certs api host server in
      bind-Keeps (lift server.has_capability) _ w (λ n. refl)
        (λ capable q.
          if_Keeps capable (find >>= update_listed api host server) (pure none) w
            (rw (find_lem w l) (
              update_listed-Keeps (with_access (l.0)) _ (
                All-filter (λ e. has e.path w.0.dir.certs ≡ true) (λ e. e.cert.is_content_access)
                  (l.0) (Present-AllThere w.0.dir (l.0) (l.2)))))
            (λ n. refl))

  -- Where no file can be removed, a deletion changes nothing.
  delete_one-id : (e : Entry) (s : State) → host.can_unlink e.path ≡ false → delete_one host e s ≡ s
  unfolding delete_one delete
  delete_one-id e s h = ground (arith, h)

  delete_loop-id :
      (es : List Entry) (s : State)
      → All (λ e. host.can_unlink e.path ≡ false) es
      → delete_loop host es s ≡ s
  unfolding delete_loop
  delete_loop-id [] s h = refl
  delete_loop-id (e ∷ es) s h = rw (delete_one-id e s h.0) (delete_loop-id es s h.1)

  -- An obsolete certificate is one that is there though the server does not expect it, so it could not
  -- be removed.
  obsolete_stuck :
      (installed expected : List ℕ) (before : ℕ → Bool) (dir : Directory) (es : List Entry)
      → All (Present dir) es
      → ((t : ℕ) → has (numbered t) dir.certs ≡ present host expected (before t) t)
      → All (λ e. host.can_unlink e.path ≡ false) (obsolete_certs installed expected es)
  unfolding obsolete_certs
  obsolete_stuck installed expected before dir [] h k = tt
  obsolete_stuck installed expected before dir (e ∷ es) h k =
      let rest = obsolete_stuck installed expected before dir es h.1 k in
      elim (Bool-cases (contains installed e.cert.serial || contains expected e.cert.serial)) [
        | inl q ↦ rw (obsolete_certs, q) rest
        | inr q ↦ rw (obsolete_certs, q) (ground (arith, k e.cert.serial, h.0, q), rest)
      ]

  -- The deletion of obsolete certificates keeps the directory, but for the cache of its listing.
  delete_obsolete_lem :
      (x : Exchange) (before : ℕ → Bool) (es : List Entry) (w : W)
      → All (Present w.0.dir) es
      → ((t : ℕ) → has (numbered t) w.0.dir.certs ≡ present host x.expected (before t) t)
      → ((delete_obsolete api host server x es w).1.0.dir.certs ≡ w.0.dir.certs)
        × ((delete_obsolete api host server x es w).1.0.dir.listing ≡ (
            if is_nil (obsolete_certs x.installed x.expected es) || is_nil w.0.report.rogue
            then w.0.dir.listing
            else none))
  unfolding delete_obsolete delete_all tell_deleted refresh
  delete_obsolete_lem x before es w h k =
      let obsolete = obsolete_certs x.installed x.expected es in
      ground (
        arith,
        delete_loop-id obsolete w.0 (obsolete_stuck x.installed x.expected before w.0.dir es h k),
      )

  delete_obsolete-Listable :
      (x : Exchange) (before : ℕ → Bool) (es all : List Entry) (w : W)
      → All (Present w.0.dir) es
      → All (Present w.0.dir) all
      → w.0.dir.listing ≡ some all
      → WellNamed w.0.dir.certs
      → ((t : ℕ) → has (numbered t) w.0.dir.certs ≡ present host x.expected (before t) t)
      → Listable (delete_obsolete api host server x es w).1.0.dir
  delete_obsolete-Listable x before es all w h h' listed well k =
      let after = (delete_obsolete api host server x es w).1.0.dir in
      let (certs, listing) = delete_obsolete_lem x before es w h k in
      elim (Bool-cases
        (is_nil (obsolete_certs x.installed x.expected es) || is_nil w.0.report.rogue)) [
          | inl q ↦
              Listable-of_listing after all (listing ∙ rw q listed)
                (Present-moved w.0.dir after all certs h')
          | inr q ↦ Listable-of_WellNamed after (listing ∙ rw q refl) (rw certs well)
        ]

  pub access_part-Keeps :
      (x : Exchange) (before : ℕ → Bool) (w : W)
      → w.0.dir.listing ≡ none
      → WellNamed w.0.dir.certs
      → ((t : ℕ) → has (numbered t) w.0.dir.certs ≡ present host x.expected (before t) t)
      → Keeps (access_part api host server x) w
  unfolding access_part
  access_part-Keeps x before w fresh well k =
      let l = Listable-of_WellNamed w.0.dir fresh well in
      let es = with_access (l.0) in
      let found : W = (record w.0 { dir = record w.0.dir { listing = some (l.0) } }, w.1) in
      let there = All-filter (Present found.0.dir) (λ e. e.cert.is_content_access) (l.0) (l.2) in
      rw (find_lem w l) (
        bind-Keeps (delete_obsolete api host server x es) _ found
          (λ n. ap (has n) ((delete_obsolete_lem x before es found there k).0))
          (λ _ q.
            bind-Keeps (content_access_hook api host server) _ _
              (content_access_hook-Keeps (delete_obsolete api host server x es found).1
                (delete_obsolete-Listable x before es (l.0) found there (l.2) refl well k))
              (λ _ q n. refl)))
