-- ===== src/EntCerts/Exchange.antt =====
-- The files after the deletion of rogue certificates and the installation of missing ones.
use subscription_manager.Base.{
  ◌≡◌, refl, ℕ, Bool, true, not, ◌&&◌, ◌||◌, none, List, [], ◌∷◌, map, any, contains,
  contains-filter, is_nil, nat_eq, if◌then◌else◌, arith,
}
use subscription_manager.Base.Dict.{Dict, has}
use subscription_manager.Base.Result.{ok}
use subscription_manager.EntCerts.Directory.{numbered, name_eq, Certificate, Entry, Host, refresh}
use subscription_manager.EntCerts.Update.{
  Server, State, delete_all, install_bundles, install, get_certificate_serials_list,
  get_certificates_by_serial_list, _get_local_serials, _find_missing_serials, _find_rogue_serials,
}
use subscription_manager.EntCerts.Perform.{Exchange, exchange}
use subscription_manager.EntCerts.Access.{AccessData}
use subscription_manager.EntCerts.Local.{WellNamed, get_local_serials_lem, find_rogue_serials_lem}
use subscription_manager.EntCerts.Moves.{delete_all_lem, puts, install_bundles_lem}

-- What the server promises: the serial numbers that it expects, and a bundle with the certificate of
-- each number that it is asked for.
pub record Serves (server : Server) (expected : List ℕ) (cert_of : ℕ → Certificate) : Type 0 where
  pub registered : server.identity_is_valid ≡ true
  pub expects : server.get_certificate_serials ≡ ok expected
  pub bundles : (sns : List ℕ) → server.get_certificates sns ≡ ok (map (λ sn. ok (cert_of sn)) sns)
  pub own_serial : (sn : ℕ) → (cert_of sn).serial ≡ sn

-- Whether the certificate of a serial number is on the disk afterwards, from whether it was before and
-- is expected: a rogue one goes if its file can be removed, and a missing one comes if its key and its
-- file can be written.
abbrev pub present : Host → List ℕ → (before : Bool) → ℕ → Bool
present host expected before t =
    if before
    then contains expected t || not (host.can_unlink (numbered t))
    else contains expected t && host.can_write_key (numbered t) && host.can_write (numbered t)

module _ {R D : Type 0} (api : AccessData R D) (host : Host) (server : Server) (expected : List ℕ)
    (cert_of : ℕ → Certificate) (serves : Serves server expected cert_of) where
  any-puts :
      (sns : List ℕ) (t : ℕ)
      → any (puts host t) (map (λ sn. ok (cert_of sn)) sns)
        ≡ (contains sns t && host.can_write_key (numbered t) && host.can_write (numbered t))
  any-puts [] t = refl
  any-puts (sn ∷ sns) t = ground (arith, any-puts sns t, serves.own_serial sn)

  get_certificates_lem :
      (sns : List ℕ)
      → get_certificates_by_serial_list server sns ≡ ok (map (λ sn. ok (cert_of sn)) sns)
  unfolding get_certificates_by_serial_list
  get_certificates_lem [] = refl
  get_certificates_lem (sn ∷ sns) = serves.bundles (sn ∷ sns)

  get_certificate_serials_lem : get_certificate_serials_list server ≡ ok expected
  unfolding get_certificate_serials_list
  get_certificate_serials_lem = rw (serves.registered) serves.expects

  install_lem :
      (sns : List ℕ) (s : State)
      → install host server sns s ≡ (
        ok (install_bundles host (map (λ sn. ok (cert_of sn)) sns) s).0,
        (install_bundles host (map (λ sn. ok (cert_of sn)) sns) s).1,
      )
  unfolding install
  install_lem sns s = rw (install, get_certificates_lem sns) refl

  -- the state in which the local certificates were found, and that after the installation
  abbrev told : State → State
  told s =
      let t = (_get_local_serials s).1 in
      record t { report = record t.report { expected = expected } }

  abbrev exchanged : Dict ℕ Entry → State → List ℕ × State
  exchanged loc s =
      install_bundles host (map (λ sn. ok (cert_of sn)) (_find_missing_serials loc expected))
        (delete_all host (_find_rogue_serials loc expected) (told s))

  exchange_value :
      (s : State) (loc : Dict ℕ Entry)
      → (_get_local_serials s).0 ≡ ok loc
      → let (installed, u) = exchanged loc s in
        exchange api host server s ≡ (
          ok (record {
            expected = expected;
            installed = installed;
            cert_changed =
                not (is_nil (_find_missing_serials loc expected))
                || not (is_nil (_find_rogue_serials loc expected));
          }),
          record u { dir = refresh u.dir },
        )
  unfolding exchange
  exchange_value s loc found =
      rw
        (
          exchange,
          found,
          get_certificate_serials_lem,
          install_lem (_find_missing_serials loc expected),
        )
        refl

  -- The first half of an update returns, and leaves well-named files: those that `present` tells.
  pub exchange_lem :
      (s : State)
      → WellNamed s.dir.certs
      → (x : Exchange) × (u : State) × (exchange api host server s ≡ (ok x, u))
        × (x.expected ≡ expected)
        × (u.dir.listing ≡ none)
        × WellNamed u.dir.certs
        × ((t : ℕ)
            → has (numbered t) u.dir.certs ≡ present host expected (has (numbered t) s.dir.certs) t)
  unfolding refresh _find_missing_serials
  exchange_lem s h =
      let (loc, found, certs, own, same) = get_local_serials_lem s h in
      let rogue = _find_rogue_serials loc expected in
      let sns = _find_missing_serials loc expected in
      let (well, gone) = delete_all_lem host rogue (told s) (rw certs h) in
      let (well', came) =
        install_bundles_lem host (map (λ sn. ok (cert_of sn)) sns) (delete_all host rogue (told s))
          well in
      (
        _,
        _,
        exchange_value s loc found,
        refl,
        refl,
        well',
        λ t. ground (
          arith,
          came t,
          gone (numbered t),
          certs,
          find_rogue_serials_lem loc expected t own,
          same t,
          any-puts sns t,
          contains-filter (λ sn. not (has sn loc)) t expected,
        ),
      )
