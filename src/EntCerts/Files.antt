-- ===== src/EntCerts/Files.antt =====
-- The certificates on the disk after `perform`.
use subscription_manager.Base.{
  ◌≡◌, refl, sym, ap, ◌∙◌, ℕ, Bool, true, false, ◌&&◌, ◌||◌, List, contains, nat_eq, if◌then◌else◌,
  arith,
}
use subscription_manager.Base.Dict.{has}
use subscription_manager.Base.Result.{ok}
use subscription_manager.Base.Exec.{pure, lift, ◌>>=◌}
use subscription_manager.EntCerts.Directory.{Name, numbered, name_eq, Certificate, Host}
use subscription_manager.EntCerts.Update.{EntCertUpdateReport, Server, State, call_hooks}
use subscription_manager.EntCerts.Access.{AccessData}
use subscription_manager.EntCerts.Perform.{World, access_part, with_capability, perform}
use subscription_manager.EntCerts.Local.{WellNamed}
use subscription_manager.EntCerts.Exchange.{Serves, present, exchange_lem}
use subscription_manager.EntCerts.Hook.{bind-Keeps, if_Keeps, access_part-Keeps}

call_hooks-certs : (b : Bool) (s : State) → (call_hooks b s).dir.certs ≡ s.dir.certs
unfolding call_hooks
call_hooks-certs b s = ground arith

module _ {R D : Type 0} (api : AccessData R D) (host : Host) (server : Server) (expected : List ℕ)
    (cert_of : ℕ → Certificate) (serves : Serves server expected cert_of) where
  -- Where all files of the directory are readable certificates named by their serial numbers, and the
  -- server gives the numbers that it expects and a certificate for each number, the certificate of a
  -- serial number is on the disk after `perform`, whether that returns or raises, exactly as `present`
  -- tells: an expected one stays, or comes if it can be written, and another one goes if it can be removed.
  pub perform-present :
      (w : World api host server) (t : ℕ)
      → WellNamed w.0.dir.certs
      → has (numbered t) (perform api host server w).1.0.dir.certs
        ≡ present host expected (has (numbered t) w.0.dir.certs) t
  unfolding perform with_capability
  perform-present w t well =
      let (x, u, e, expected', fresh, well', k) =
        exchange_lem api host server expected cert_of serves w.0 well in
      let k' : (n : ℕ)
          → has (numbered n) u.dir.certs
            ≡ present host x.expected (has (numbered n) w.0.dir.certs) n =
        λ n. k n ∙ ap (λ l. present host l (has (numbered n) w.0.dir.certs) n) (sym expected') in
      rw (e) (
        bind-Keeps api host server (lift server.has_capability) _ (u, w.1) (λ n. refl)
          (λ capable q.
            bind-Keeps api host server
              (if capable then access_part api host server x else pure false) _ (u, w.1)
              (if_Keeps api host server capable (access_part api host server x) (pure false)
                (u, w.1)
                (access_part-Keeps api host server x (λ n. has (numbered n) w.0.dir.certs) (u, w.1)
                  fresh well' k')
                (λ n. refl))
              (λ accessed q n. ap (has n) (call_hooks-certs (x.cert_changed || accessed) _)))
          (numbered t)
        ∙ k t)

  -- On a server without content access, in such a directory, `perform` returns a report.
  perform_returns :
      (w : World api host server)
      → WellNamed w.0.dir.certs
      → server.has_capability ≡ ok false
      → (report : EntCertUpdateReport) × ((perform api host server w).0 ≡ ok report)
  unfolding perform with_capability
  perform_returns w well incapable =
      let (x, u, e, expected', fresh, well', k) =
        exchange_lem api host server expected cert_of serves w.0 well in
      (
        (call_hooks (x.cert_changed || false) u).report,
        rw e (ap (λ r. ((lift r >>= with_capability api host server x) (u, w.1)).0) incapable),
      )

  -- Where all files of the directory are readable certificates named by their serial numbers, the server
  -- gives the numbers that it expects and a certificate for each number, everything on the disk may be
  -- changed, and the server has no content access, `perform` returns a report and leaves the
  -- certificates of exactly the serial numbers that the server expects.
  pub perform_lem :
      (w : World api host server)
      → WellNamed w.0.dir.certs
      → server.has_capability ≡ ok false
      → ((n : Name) → (host.can_unlink n && host.can_write_key n && host.can_write n) ≡ true)
      → (report : EntCertUpdateReport) × ((perform api host server w).0 ≡ ok report)
        × ((t : ℕ)
            → has (numbered t) (perform api host server w).1.0.dir.certs ≡ contains expected t)
  perform_lem w well incapable free =
      let (report, returned) = perform_returns w well incapable in
      (report, returned, λ t. ground (arith, perform-present w t well, free (numbered t)))
