-- ===== src/Compliance/Manager.antt =====
-- `ComplianceManager` of src/subscription_manager/cert_sorter.py.
use subscription_manager.Base.{
  ℕ, String, Bool, true, false, not, ◌&&◌, ◌||◌, Option, none, some, List, [], ◌∷◌, ◌++◌, ltb,
  filter, is_nil, contains, ◌==◌, string_eq, if◌then◌else◌,
}
use subscription_manager.Base.Dict.{Dict, lookup, insert, has, keys}
use subscription_manager.Base.Result.{Result, ok, err}
use subscription_manager.Compliance.Certificates.{
  ProductCertificate, EntitlementCertificate, is_valid_at, is_expiring, find_by_product,
  get_installed_products,
}

-- The status that the server reports, or that was cached. The values of its dictionaries, of type `J`,
-- are only handed on.
pub record ServerStatus (J : Type 0) : Type 0 where
  pub compliant_products : Dict String J
  pub partially_compliant_products : Dict String J
  pub partial_stacks : Dict String J
  pub reasons : Option (List J)
  pub status : Option String
  pub non_compliant_products : List String
  pub compliant_until : Option String

-- What a `load` finds on the host, on the server, and on the clock.
pub record Environment (J : Type 0) : Type 0 where
  pub registered : Bool
  pub compliance_status : Option (ServerStatus J)
  pub is_sca : Bool
  pub product_certs : List ProductCertificate
  pub entitlement_certs : List EntitlementCertificate
  pub parse_date : String → Result ℕ
  pub now : ℕ

pub record ComplianceManager (J : Type 0) : Type 0 where
  pub installed_products : Dict String ProductCertificate
  pub unentitled_products : Dict String ProductCertificate
  pub expired_products : Dict String (List EntitlementCertificate)
  pub partially_valid_products : Dict String J
  pub valid_products : Dict String J
  pub partial_stacks : Dict String J
  pub future_products : Dict String (List EntitlementCertificate)
  pub reasons : List J
  supports_reasons : Bool
  system_status : String
  pub valid_entitlement_certs : List EntitlementCertificate
  pub compliant_until : Option ℕ

-- product_dict.setdefault(id, []).append(cert)
abbrev pub certs_of : Option (List EntitlementCertificate) → List EntitlementCertificate
certs_of none = []
certs_of (some certs) = certs

unfoldable pub append_cert :
    String
    → EntitlementCertificate
    → Dict String (List EntitlementCertificate)
    → Dict String (List EntitlementCertificate)
append_cert id cert d = insert id (certs_of (lookup id d) ++ (cert ∷ [])) d

-- The dictionaries of future and of expired products.
abbrev pub Found : Type 0
Found = Dict String (List EntitlementCertificate) × Dict String (List EntitlementCertificate)

-- the body of the loop over the products of one certificate
unfoldable pub scan_product : (String → Bool) → ℕ → EntitlementCertificate → String → Found → Found
unfolding append_cert
scan_product unknown now cert id (future, expired) =
    if not (unknown id)
    then (future, expired)
    else if ltb now cert.valid_range.begin
    then (append_cert id cert future, expired)
    else if ltb cert.valid_range.until now
    then (future, append_cert id cert expired)
    else (future, expired)

unfoldable pub scan_products :
    (String → Bool) → ℕ → EntitlementCertificate → List String → Found → Found
unfolding scan_product
scan_products unknown now cert [] found = found
scan_products unknown now cert (id ∷ ids) found =
    scan_products unknown now cert ids (scan_product unknown now cert id found)

-- the loop over the certificates
unfoldable pub scan_certs : (String → Bool) → ℕ → List EntitlementCertificate → Found → Found
unfolding scan_products
scan_certs unknown now [] found = found
scan_certs unknown now (cert ∷ certs) found =
    scan_certs unknown now certs (scan_products unknown now cert cert.products found)

-- pid not in self.valid_products and pid not in self.partially_valid_products
abbrev pub is_unknown : {J : Type 0} → ComplianceManager J → String → Bool
is_unknown m pid =
    has pid m.installed_products
    && not (has pid m.valid_products)
    && not (has pid m.partially_valid_products)

unfoldable pub _scan_entitlement_certs :
    {J : Type 0} → ℕ → List EntitlementCertificate → ComplianceManager J → ComplianceManager J
unfolding scan_certs
_scan_entitlement_certs now certs m =
    let (future, expired) =
      scan_certs (is_unknown m) now certs (m.future_products, m.expired_products) in
    record m {
      future_products = future;
      expired_products = expired;
      valid_entitlement_certs = m.valid_entitlement_certs ++ filter (is_valid_at now) certs;
    }

-- the loop that adds installed products which the server does not mention
unfoldable pub add_missing : (String → Bool) → List String → List String → List String
add_missing mentioned [] pids = pids
add_missing mentioned (pid ∷ installed) pids =
    let rest : List String → List String = add_missing mentioned installed in
    if not (mentioned pid) && not (contains pids pid) then rest (pids ++ (pid ∷ [])) else rest pids

-- the loop that fills `unentitled_products`
unfoldable pub collect_unentitled :
    List ProductCertificate
    → List String
    → Dict String ProductCertificate
    → Dict String ProductCertificate
collect_unentitled certs [] d = d
collect_unentitled certs (pid ∷ pids) d = elim (find_by_product pid certs) [
  | none ↦ collect_unentitled certs pids d
  | some cert ↦ collect_unentitled certs pids (insert pid cert d)
]

abbrev is_blank : Option String → Bool
is_blank none = true
is_blank (some t) = t == ""

abbrev pub or_blank : Option String → String
or_blank none = ""
or_blank (some t) = t

unfoldable pub status_of : {J : Type 0} → ServerStatus J → List J → String
status_of st reasons =
    if not (is_blank st.status)
    then or_blank st.status
    else if not (is_nil st.non_compliant_products)
    then "invalid"
    else if not
        (is_nil st.partially_compliant_products && is_nil st.partial_stacks && is_nil reasons)
    then "partial"
    else "unknown"

abbrev reasons_of : {J : Type 0} → Option (List J) → List J
reasons_of none = []
reasons_of (some reasons) = reasons

abbrev pub parse_until : (String → Result ℕ) → Option String → Result (Option ℕ)
parse_until parse_date none = ok none
parse_until parse_date (some t) = elim (parse_date t) [ err e ↦ err e | ok date ↦ ok (some date) ]

-- the products that the server knows
abbrev pub mentioned : {J : Type 0} → ServerStatus J → String → Bool
mentioned st pid = has pid st.compliant_products || has pid st.partially_compliant_products

unfoldable pub unentitled_pids :
    {J : Type 0} → Environment J → ServerStatus J → ComplianceManager J → List String
unfolding add_missing
unentitled_pids env st m =
    if env.is_sca
    then st.non_compliant_products
    else add_missing (mentioned st) (keys m.installed_products) st.non_compliant_products

-- the manager once a status with the parsed date was taken over
unfoldable pub taken_over :
    {J : Type 0}
    → Environment J
    → ServerStatus J
    → Option ℕ
    → ComplianceManager J
    → ComplianceManager J
unfolding unentitled_pids collect_unentitled status_of
taken_over env st date m = record m {
  valid_products = st.compliant_products;
  partially_valid_products = st.partially_compliant_products;
  partial_stacks = st.partial_stacks;
  supports_reasons = elim st.reasons [ none ↦ false | some _ ↦ true ];
  reasons = reasons_of st.reasons;
  system_status = status_of st (reasons_of st.reasons);
  compliant_until = date;
  unentitled_products =
      collect_unentitled env.product_certs (unentitled_pids env st m) m.unentitled_products;
}

unfoldable pub received :
    {J : Type 0}
    → Environment J
    → ServerStatus J
    → Option ℕ
    → ComplianceManager J
    → ComplianceManager J
unfolding taken_over _scan_entitlement_certs
received env st date m =
    _scan_entitlement_certs env.now env.entitlement_certs (taken_over env st date m)

-- `_parse_server_status`, where the server has a status
abbrev pub parse_status :
    {J : Type 0}
    → Environment J
    → ServerStatus J
    → ComplianceManager J
    → Result (Option ℕ)
    → Result (ComplianceManager J)
parse_status env st m (err e) = err e
parse_status env st m (ok date) = ok (received env st date m)

unfoldable pub _parse_server_status :
    {J : Type 0} → Environment J → ComplianceManager J → Result (ComplianceManager J)
unfolding received
_parse_server_status env m = if not env.registered then ok m else elim env.compliance_status [
  | none ↦ ok m
  | some st ↦ parse_status env st m (parse_until env.parse_date st.compliant_until)
]

abbrev pub blank : {J : Type 0} → Dict String ProductCertificate → ComplianceManager J
blank installed = record {
  installed_products = installed;
  unentitled_products = [];
  expired_products = [];
  partially_valid_products = [];
  valid_products = [];
  partial_stacks = [];
  future_products = [];
  reasons = [];
  supports_reasons = false;
  system_status = "unknown";
  valid_entitlement_certs = [];
  compliant_until = none;
}

unfoldable pub load : {J : Type 0} → Environment J → Result (ComplianceManager J)
unfolding _parse_server_status
load env = elim (get_installed_products env.product_certs) [
  | err e ↦ err e
  | ok installed ↦ _parse_server_status env (blank installed)
]

unfoldable pub get_status : {J : Type 0} → Bool → ComplianceManager J → String → String
get_status registered m product_id =
    if not registered
    then "unknown"
    else if has product_id m.partially_valid_products
    then "partially_subscribed"
    else if has product_id m.valid_products
    then "subscribed"
    else if has product_id m.future_products
    then "future_subscribed"
    else if has product_id m.expired_products
    then "expired"
    else if has product_id m.unentitled_products
    then "not_subscribed"
    else "unknown"

unfoldable pub is_valid : {J : Type 0} → ComplianceManager J → Bool
is_valid m = m.system_status == "valid" || m.system_status == "disabled"

-- the loop of `in_warning_period`
unfoldable pub any_expiring : ℕ → List EntitlementCertificate → Result Bool
unfolding is_expiring
any_expiring now [] = ok false
any_expiring now (cert ∷ certs) = elim (is_expiring now cert) [
  | err e ↦ err e
  | ok true ↦ ok true
  | ok false ↦ any_expiring now certs
]

unfoldable pub in_warning_period : {J : Type 0} → ℕ → ComplianceManager J → Result Bool
unfolding any_expiring
in_warning_period now m = any_expiring now m.valid_entitlement_certs

unfoldable pub get_status_for_icon : {J : Type 0} → ℕ → ComplianceManager J → Result ℕ
unfolding in_warning_period
get_status_for_icon now m =
    if m.system_status == "invalid"
    then ok 1
    else if m.system_status == "partial"
    then ok 4
    else elim (in_warning_period now m) [ err e ↦ err e | ok true ↦ ok 2 | ok false ↦ ok 0 ]
