-- ===== src/Compliance/Status.antt =====
-- The status of a product after the compliance status was loaded.
use subscription_manager.Base.{
  ◌≡◌, refl, sym, ap, ◌∙◌, ℕ, inl, inr, String, Bool, true, false, not, ◌&&◌, ◌||◌, Option, none,
  some, List, [], ◌∷◌, ◌++◌, is_nil, is_some, any, contains, contains-append, ◌==◌, string_eq,
  if◌then◌else◌, arith, Option-cases,
}
use subscription_manager.Base.Dict.{
  Dict, lookup, insert, has, has-insert, has-lookup, keys, contains-keys,
}
use subscription_manager.Base.Result.{Error, Result, ok, err, Result-cases}
use subscription_manager.Compliance.Certificates.{
  EntitlementCertificate, ProductCertificate, find_by_product, installed_loop,
  get_installed_products,
}
use subscription_manager.Compliance.Manager.{
  ServerStatus, Environment, ComplianceManager, add_missing, collect_unentitled, unentitled_pids,
  mentioned, received, taken_over, parse_until, parse_status, _scan_entitlement_certs,
  _parse_server_status, load, get_status, blank, is_unknown,
}
use subscription_manager.Compliance.Scan.{
  extend, providing, is_future, is_past, scan_entitlement_certs_lem,
}

has-collect_unentitled :
    (certs : List ProductCertificate) (pids : List String) (d : Dict String ProductCertificate)
    (j : String)
    → has j (collect_unentitled certs pids d)
      ≡ (has j d || (contains pids j && is_some (find_by_product j certs)))
unfolding collect_unentitled
has-collect_unentitled certs [] d j = ground arith
has-collect_unentitled certs (pid ∷ pids) d j = elim (Option-cases (find_by_product pid certs)) [
  | inl e ↦ rw (collect_unentitled, e) (ground (arith, e, has-collect_unentitled certs pids d j))
  | inr (cert, e) ↦
      rw (collect_unentitled, e)
        (ground (
          arith,
          e,
          has-collect_unentitled certs pids (insert pid cert d) j,
          has-insert j pid cert d,
        ))
]

contains-add_missing :
    (mentioned : String → Bool) (installed pids : List String) (j : String)
    → contains (add_missing mentioned installed pids) j
      ≡ (contains pids j || (contains installed j && not (mentioned j)))
unfolding add_missing
contains-add_missing mentioned [] pids j = ground arith
contains-add_missing mentioned (pid ∷ installed) pids j = ground (
  arith,
  contains-add_missing mentioned installed pids j,
  contains-add_missing mentioned installed (pids ++ (pid ∷ [])) j,
  contains-append pids (pid ∷ []) j,
)

-- An installed product is found by its certificate.
installed_loop-found :
    (certs : List ProductCertificate) (d installed : Dict String ProductCertificate) (j : String)
    → installed_loop certs d ≡ ok installed
    → has j installed ≡ true
    → (has j d || is_some (find_by_product j certs)) ≡ true
unfolding installed_loop find_by_product
installed_loop-found [] d installed j e h = ground arith
installed_loop-found ([] ∷ certs) d installed j e h = absurd (ground arith)
installed_loop-found ((p ∷ ps) ∷ certs) d installed j e h = ground (
  arith,
  installed_loop-found certs (insert p (p ∷ ps) d) installed j e h,
  has-insert j p (p ∷ ps) d,
)

-- whether the first product of a certificate on the host is the given one
abbrev is_first : String → ProductCertificate → Bool
is_first j [] = false
is_first j (p ∷ ps) = j == p

abbrev pub is_installed : {J : Type 0} → Environment J → String → Bool
is_installed env j = any (is_first j) env.product_certs

installed_loop-has :
    (certs : List ProductCertificate) (d installed : Dict String ProductCertificate) (j : String)
    → installed_loop certs d ≡ ok installed
    → has j installed ≡ (has j d || any (is_first j) certs)
unfolding installed_loop
installed_loop-has [] d installed j e = ground arith
installed_loop-has ([] ∷ certs) d installed j e = absurd (ground arith)
installed_loop-has ((p ∷ ps) ∷ certs) d installed j e =
    ground (
      arith,
      installed_loop-has certs (insert p (p ∷ ps) d) installed j e,
      has-insert j p (p ∷ ps) d,
    )

has-nil : (j : String) → has {V = ProductCertificate} j [] ≡ false
unfolding has
has-nil j = refl

-- What a `load` that had a status of the server leaves.
pub record Loaded {J : Type 0} (env : Environment J) (st : ServerStatus J) (m : ComplianceManager J)
    : Type 0 where
  pub valid : m.valid_products ≡ st.compliant_products
  pub partially : m.partially_valid_products ≡ st.partially_compliant_products
  pub installed :
      (j : String)
      → has j m.installed_products ≡ true
      → is_some (find_by_product j env.product_certs) ≡ true
  pub certified : (j : String) → has j m.installed_products ≡ is_installed env j
  pub future :
      (j : String)
      → lookup j m.future_products
        ≡ extend none
            (providing (λ cert. is_unknown m j && is_future env.now cert) j env.entitlement_certs)
  pub expired :
      (j : String)
      → lookup j m.expired_products
        ≡ extend none
            (providing (λ cert. is_unknown m j && is_past env.now cert) j env.entitlement_certs)
  unentitled :
      (j : String)
      → has j m.unentitled_products ≡ (
          (contains st.non_compliant_products j || (not env.is_sca && is_unknown m j))
          && is_some (find_by_product j env.product_certs))

contains-unentitled_pids :
    {J : Type 0} (env : Environment J) (st : ServerStatus J) (m : ComplianceManager J) (j : String)
    → contains (unentitled_pids env st m) j ≡ (
        contains st.non_compliant_products j
        || (not env.is_sca && (has j m.installed_products && not (mentioned st j))))
unfolding unentitled_pids
contains-unentitled_pids env st m j = ground (
  arith,
  contains-add_missing (mentioned st) (keys m.installed_products) st.non_compliant_products j,
  contains-keys j m.installed_products,
)

received-Loaded :
    {J : Type 0} (env : Environment J) (st : ServerStatus J)
    (installed : Dict String ProductCertificate) (date : Option ℕ)
    → get_installed_products env.product_certs ≡ ok installed
    → Loaded env st (received env st date (blank installed))
unfolding received taken_over _scan_entitlement_certs get_installed_products lookup
received-Loaded env st installed date e =
    let scanned =
      scan_entitlement_certs_lem env.now env.entitlement_certs
        (taken_over env st date (blank installed)) in
    record {
      valid = refl;
      partially = refl;
      installed = λ j h.
          ground (arith, installed_loop-found env.product_certs [] installed j e h, has-nil j);
      certified =
          λ j. ground (arith, installed_loop-has env.product_certs [] installed j e, has-nil j);
      future = λ j. (scanned j).0;
      expired = λ j. (scanned j).1;
      unentitled = λ j. ground (
        arith,
        has-nil j,
        has-collect_unentitled env.product_certs (unentitled_pids env st (blank installed)) [] j,
        contains-unentitled_pids env st (blank installed) j,
      );
    }

after_parsing :
    {J : Type 0} (env : Environment J) (st : ServerStatus J) (m n : ComplianceManager J)
    (r : Result (Option ℕ))
    → parse_status env st m r ≡ ok n
    → (date : Option ℕ) × (n ≡ received env st date m)
after_parsing env st m n (err e) h = absurd (ground arith)
after_parsing env st m n (ok date) h = (date, cc)

pub load-ok :
    {J : Type 0} (env : Environment J) (st : ServerStatus J)
    (installed : Dict String ProductCertificate)
    → env.registered ≡ true
    → env.compliance_status ≡ some st
    → get_installed_products env.product_certs ≡ ok installed
    → load env
      ≡ parse_status env st (blank installed) (parse_until env.parse_date st.compliant_until)
unfolding load _parse_server_status
load-ok env st installed r s e = rw (load, e, _parse_server_status, r, s) refl

load-err :
    {J : Type 0} (env : Environment J) (x : Error)
    → get_installed_products env.product_certs ≡ err x
    → load env ≡ err x
unfolding load
load-err env x e = rw (load, e) refl

pub load-Loaded :
    {J : Type 0} (env : Environment J) (st : ServerStatus J) (m : ComplianceManager J)
    → env.registered ≡ true
    → env.compliance_status ≡ some st
    → load env ≡ ok m
    → Loaded env st m
load-Loaded env st m r s h = elim (Result-cases (get_installed_products env.product_certs)) [
  | inl (x, e) ↦ absurd (ground (arith, load-err env x e))
  | inr (installed, e) ↦
      let (date, same) =
        after_parsing env st (blank installed) m (parse_until env.parse_date st.compliant_until)
          (sym (load-ok env st installed r s e) ∙ h) in
      rw same (received-Loaded env st installed date e)
]

-- The status of a product as the server's answer, the product certificates and the entitlement
-- certificates determine it.
abbrev pub status_from : {J : Type 0} → Environment J → ServerStatus J → String → String
status_from env st j =
    let pending : Bool = is_installed env j && not (mentioned st j) in
    if has j st.partially_compliant_products
    then "partially_subscribed"
    else if has j st.compliant_products
    then "subscribed"
    else if not
        (is_nil (providing (λ cert. pending && is_future env.now cert) j env.entitlement_certs))
    then "future_subscribed"
    else if not
        (is_nil (providing (λ cert. pending && is_past env.now cert) j env.entitlement_certs))
    then "expired"
    else if (contains st.non_compliant_products j || (not env.is_sca && pending))
        && is_some (find_by_product j env.product_certs)
    then "not_subscribed"
    else "unknown"

is_some-extend :
    (certs : List EntitlementCertificate) → is_some (extend none certs) ≡ not (is_nil certs)
is_some-extend [] = refl
is_some-extend (c ∷ certs) = refl

-- After a status of the server was loaded on a registered system, `get_status` of a product tells what
-- the server's answer and the certificates on the host determine, in this order: partially subscribed,
-- subscribed, subscribed in the future, expired, not subscribed, unknown. A product is installed if it is
-- the first one of a product certificate.
pub get_status-load :
    {J : Type 0} (env : Environment J) (st : ServerStatus J) (m : ComplianceManager J) (j : String)
    → env.registered ≡ true
    → env.compliance_status ≡ some st
    → load env ≡ ok m
    → get_status true m j ≡ status_from env st j
unfolding get_status
get_status-load env st m j r s h =
    let w = load-Loaded env st m r s h in
    let pending : Bool = is_installed env j && not (mentioned st j) in
    let same : is_unknown m j ≡ pending =
      rw (w.valid, w.partially) (ground (arith, w.certified j)) in
    let found : (EntitlementCertificate → Bool) → Bool → Bool =
      λ test b. not (is_nil (providing (λ cert. b && test cert) j env.entitlement_certs)) in
    let in_future : has j m.future_products ≡ found (is_future env.now) pending =
      has-lookup j m.future_products
      ∙ ap is_some (w.future j)
      ∙ is_some-extend _
      ∙ ap (found (is_future env.now)) same in
    let in_past : has j m.expired_products ≡ found (is_past env.now) pending =
      has-lookup j m.expired_products
      ∙ ap is_some (w.expired j)
      ∙ is_some-extend _
      ∙ ap (found (is_past env.now)) same in
    rw (w.partially, w.valid, in_future, in_past, w.unentitled j, same) refl
