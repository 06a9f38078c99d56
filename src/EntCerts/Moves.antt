-- ===== src/EntCerts/Moves.antt =====
-- How deletions and installations change the files.
use subscription_manager.Base.{
  ◌≡◌, refl, ℕ, Bool, false, not, ◌&&◌, ◌||◌, Option, some, List, [], ◌∷◌, any, ◌==◌, nat_eq, arith,
  Bool-cases, inl, inr,
}
use subscription_manager.Base.Dict.{Dict, insert, erase, has, has-insert, has-lookup, lookup-erase}
use subscription_manager.Base.Result.{Result, ok, err}
use subscription_manager.EntCerts.Directory.{
  Name, numbered, name_eq, Certificate, Entry, Host, refresh, delete, write,
}
use subscription_manager.EntCerts.Update.{
  State, delete_one, delete_loop, tell_deleted, delete_all, install_bundle, install_bundles,
}
use subscription_manager.EntCerts.Local.{WellNamed, numbered-eq}

has-erase :
    {V : Type 0} (j k : Name) (d : Dict Name V) → has j (erase k d) ≡ (has j d && not (j == k))
has-erase j k d = ground (arith, has-lookup j (erase k d), has-lookup j d, lookup-erase j k d)

erase-WellNamed :
    (n : Name) (d : Dict Name (Option Certificate)) → WellNamed d → WellNamed (erase n d)
unfolding erase
erase-WellNamed n [] h = tt
erase-WellNamed n ((m, c) ∷ d) h = elim (Bool-cases (n == m)) [
  | inl e ↦ rw e (erase-WellNamed n d h.1)
  | inr e ↦ rw e (h.0, erase-WellNamed n d h.1)
]

insert-WellNamed :
    (c : Certificate) (d : Dict Name (Option Certificate))
    → WellNamed d
    → WellNamed (insert (numbered c.serial) (some c) d)
unfolding insert
insert-WellNamed c [] h = ((c, refl, refl), tt)
insert-WellNamed c ((m, b) ∷ d) h = elim (Bool-cases (numbered c.serial == m)) [
  | inl e ↦ rw e ((c, refl, ground (arith, e)), h.1)
  | inr e ↦ rw e (h.0, insert-WellNamed c d h.1)
]

module _ (host : Host) where
  delete_one_lem :
      (e : Entry) (s : State) (n : Name)
      → has n (delete_one host e s).dir.certs
        ≡ (has n s.dir.certs && not (n == e.path && host.can_unlink e.path))
  unfolding delete_one delete
  delete_one_lem e s n = ground (arith, has-erase n e.path s.dir.certs)

  delete_one-WellNamed :
      (e : Entry) (s : State) → WellNamed s.dir.certs → WellNamed (delete_one host e s).dir.certs
  unfolding delete_one delete
  delete_one-WellNamed e s h = ground (arith, erase-WellNamed e.path s.dir.certs h)

  delete_loop_lem :
      (rogue : List Entry) (s : State) (n : Name)
      → has n (delete_loop host rogue s).dir.certs
        ≡ (has n s.dir.certs && not (any (λ e. n == e.path) rogue && host.can_unlink n))
  unfolding delete_loop
  delete_loop_lem [] s n = ground arith
  delete_loop_lem (e ∷ rogue) s n =
      ground (arith, delete_loop_lem rogue (delete_one host e s) n, delete_one_lem e s n)

  delete_loop-WellNamed :
      (rogue : List Entry) (s : State)
      → WellNamed s.dir.certs
      → WellNamed (delete_loop host rogue s).dir.certs
  unfolding delete_loop
  delete_loop-WellNamed [] s h = h
  delete_loop-WellNamed (e ∷ rogue) s h =
      delete_loop-WellNamed rogue (delete_one host e s) (delete_one-WellNamed e s h)

  tell_deleted-certs : (s : State) → (tell_deleted s).dir.certs ≡ s.dir.certs
  unfolding tell_deleted refresh
  tell_deleted-certs s = ground arith

  pub delete_all_lem :
      (rogue : List Entry) (s : State)
      → WellNamed s.dir.certs
      → WellNamed (delete_all host rogue s).dir.certs
        × ((n : Name)
            → has n (delete_all host rogue s).dir.certs
              ≡ (has n s.dir.certs && not (any (λ e. n == e.path) rogue && host.can_unlink n)))
  unfolding delete_all
  delete_all_lem rogue s h =
      rw (tell_deleted-certs (delete_loop host rogue s))
        (delete_loop-WellNamed rogue s h, delete_loop_lem rogue s)

  -- whether a bundle puts a certificate at a serial number
  abbrev pub puts : ℕ → Result Certificate → Bool
  puts t (err e) = false
  puts t (ok c) = t == c.serial && host.can_write_key (numbered t) && host.can_write (numbered t)

  install_bundle_lem :
      (b : Result Certificate) (s : State)
      → WellNamed s.dir.certs
      → WellNamed (install_bundle host b s).1.dir.certs
        × ((t : ℕ)
            → has (numbered t) (install_bundle host b s).1.dir.certs
              ≡ (has (numbered t) s.dir.certs || puts t b))
  unfolding install_bundle write
  install_bundle_lem (err e) s h = (h, λ t. ground arith)
  install_bundle_lem (ok c) s h = (
    ground (arith, insert-WellNamed c s.dir.certs h),
    λ t. ground (
      arith,
      has-insert (numbered t) (numbered c.serial) (some c) s.dir.certs,
      numbered-eq t c.serial,
    ),
  )

  pub install_bundles_lem :
      (bs : List (Result Certificate)) (s : State)
      → WellNamed s.dir.certs
      → WellNamed (install_bundles host bs s).1.dir.certs
        × ((t : ℕ)
            → has (numbered t) (install_bundles host bs s).1.dir.certs
              ≡ (has (numbered t) s.dir.certs || any (puts t) bs))
  unfolding install_bundles
  install_bundles_lem [] s h = (h, λ t. ground arith)
  install_bundles_lem (b ∷ bs) s h =
      let (well, same) = install_bundle_lem b s h in
      let (well', same') = install_bundles_lem bs (install_bundle host b s).1 well in
      (well', λ t. ground (arith, same t, same' t))
