-- ===== src/Compliance/Scan.antt =====
-- What the scan of the entitlement certificates finds.
use subscription_manager.Base.{
  filter, ◌≡◌, refl, ap, ◌∙◌, ℕ, String, Bool, true, false, not, ◌&&◌, Option, some, List, [], ◌∷◌,
  ◌++◌, ltb, ◌==◌, string_eq, if◌then◌else◌, arith,
}
use mathlib.Core.List.{append_assoc, append-nil}
use subscription_manager.Base.Dict.{Dict, lookup, lookup-insert}
use subscription_manager.Compliance.Certificates.{EntitlementCertificate, is_valid_at}
use subscription_manager.Compliance.Manager.{
  certs_of, append_cert, Found, scan_product, scan_products, scan_certs, ComplianceManager,
  is_unknown, _scan_entitlement_certs,
}

-- the value of a key when the certificates were appended to it one by one
abbrev pub extend :
    Option (List EntitlementCertificate)
    → List EntitlementCertificate
    → Option (List EntitlementCertificate)
extend o [] = o
extend o (c ∷ certs) = some (certs_of o ++ (c ∷ certs))

extend_again :
    (o : Option (List EntitlementCertificate)) (xs ys : List EntitlementCertificate)
    → extend (extend o xs) ys ≡ extend o (xs ++ ys)
extend_again o [] ys = refl
extend_again o (x ∷ xs) [] = rw append-nil refl
extend_again o (x ∷ xs) (y ∷ ys) = ap some (append_assoc (certs_of o) (x ∷ xs) (y ∷ ys))

lookup-append_cert :
    (j id : String) (cert : EntitlementCertificate) (d : Dict String (List EntitlementCertificate))
    → lookup j (append_cert id cert d)
      ≡ (if j == id then extend (lookup j d) (cert ∷ []) else lookup j d)
unfolding append_cert
lookup-append_cert j id cert d =
    ground (arith, lookup-insert j id (certs_of (lookup id d) ++ (cert ∷ [])) d)

-- A certificate is in the future before its range begins.
abbrev pub is_future : ℕ → EntitlementCertificate → Bool
is_future now cert = ltb now cert.valid_range.begin

-- A certificate has expired once its range has ended, unless the range begins later still.
abbrev pub is_past : ℕ → EntitlementCertificate → Bool
is_past now cert = not (ltb now cert.valid_range.begin) && ltb cert.valid_range.until now

abbrev pub once : Bool → EntitlementCertificate → List EntitlementCertificate
once found cert = if found then cert ∷ [] else []

-- the certificate, as often as a product is among its products
abbrev occurrences : String → EntitlementCertificate → List String → List EntitlementCertificate
occurrences j cert [] = []
occurrences j cert (id ∷ ids) = once (j == id) cert ++ occurrences j cert ids

abbrev pub only : Bool → List EntitlementCertificate → List EntitlementCertificate
only keep certs = if keep then certs else []

-- the certificates that pass the test and provide a product
abbrev pub providing :
    (EntitlementCertificate → Bool)
    → String
    → List EntitlementCertificate
    → List EntitlementCertificate
providing test j [] = []
providing test j (cert ∷ certs) =
    only (test cert) (occurrences j cert cert.products) ++ providing test j certs

abbrev Scanned : String → (future expired : List EntitlementCertificate) → Found → Found → Type 0
Scanned j future expired before after =
    (lookup j (after.0) ≡ extend (lookup j (before.0)) future)
    × (lookup j (after.1) ≡ extend (lookup j (before.1)) expired)

Scanned-then :
    (j : String) (f g e h : List EntitlementCertificate) (a b c : Found)
    → Scanned j f e a b
    → Scanned j g h b c
    → Scanned j (f ++ g) (e ++ h) a c
Scanned-then j f g e h a b c (p, q) (r, s) = (
  r ∙ ap (λ o. extend o g) p ∙ extend_again (lookup j (a.0)) f g,
  s ∙ ap (λ o. extend o h) q ∙ extend_again (lookup j (a.1)) e h,
)

only-append :
    (keep : Bool) (xs ys : List EntitlementCertificate)
    → only keep xs ++ only keep ys ≡ only keep (xs ++ ys)
only-append true xs ys = refl
only-append false xs ys = refl

module _ (unknown : String → Bool) (now : ℕ) (j : String) where
  abbrev kept_future :
      EntitlementCertificate → List EntitlementCertificate → List EntitlementCertificate
  kept_future cert = only (unknown j && is_future now cert)

  abbrev kept_past :
      EntitlementCertificate → List EntitlementCertificate → List EntitlementCertificate
  kept_past cert = only (unknown j && is_past now cert)

  scan_product-Scanned :
      (cert : EntitlementCertificate) (id : String) (found : Found)
      → Scanned j
          (kept_future cert (once (j == id) cert))
          (kept_past cert (once (j == id) cert))
          found
          (scan_product unknown now cert id found)
  unfolding scan_product
  scan_product-Scanned cert id (future, expired) = (
    ground (arith, lookup-append_cert j id cert future),
    ground (arith, lookup-append_cert j id cert expired),
  )

  scan_products-Scanned :
      (cert : EntitlementCertificate) (ids : List String) (found : Found)
      → Scanned j
          (kept_future cert (occurrences j cert ids))
          (kept_past cert (occurrences j cert ids))
          found
          (scan_products unknown now cert ids found)
  unfolding scan_products
  scan_products-Scanned cert [] found = (ground arith, ground arith)
  scan_products-Scanned cert (id ∷ ids) found =
      rw
        (
          ← only-append (unknown j && is_future now cert) (once (j == id) cert)
              (occurrences j cert ids),
          ← only-append (unknown j && is_past now cert) (once (j == id) cert)
              (occurrences j cert ids),
        )
        (Scanned-then j _ _ _ _ found (scan_product unknown now cert id found) _
          (scan_product-Scanned cert id found)
          (scan_products-Scanned cert ids (scan_product unknown now cert id found)))

  scan_certs-Scanned :
      (certs : List EntitlementCertificate) (found : Found)
      → Scanned j
          (providing (λ cert. unknown j && is_future now cert) j certs)
          (providing (λ cert. unknown j && is_past now cert) j certs)
          found
          (scan_certs unknown now certs found)
  unfolding scan_certs
  scan_certs-Scanned [] found = (refl, refl)
  scan_certs-Scanned (cert ∷ certs) found =
      Scanned-then j _ _ _ _ found (scan_products unknown now cert cert.products found) _
        (scan_products-Scanned cert cert.products found)
        (scan_certs-Scanned certs (scan_products unknown now cert cert.products found))

-- The scan appends to the future products of every product that is installed and that the server
-- reports neither as valid nor as partially valid the certificates that provide it and have not begun,
-- in their order, and to the expired products those that have begun and ended; the certificates that
-- are valid now are collected, and every other product keeps its entries.
pub scan_entitlement_certs_lem :
    {J : Type 0} (now : ℕ) (certs : List EntitlementCertificate) (m : ComplianceManager J)
    (j : String)
    → let after = _scan_entitlement_certs now certs m in
      (lookup j after.future_products
        ≡ extend
            (lookup j m.future_products)
            (providing (λ cert. is_unknown m j && is_future now cert) j certs))
      × (lookup j after.expired_products
          ≡ extend
              (lookup j m.expired_products)
              (providing (λ cert. is_unknown m j && is_past now cert) j certs))
      × (after.valid_entitlement_certs
          ≡ m.valid_entitlement_certs ++ filter (is_valid_at now) certs)
unfolding _scan_entitlement_certs
scan_entitlement_certs_lem now certs m j =
    let (future, expired) =
      scan_certs-Scanned (is_unknown m) now j certs (m.future_products, m.expired_products) in
    (future, expired, refl)
