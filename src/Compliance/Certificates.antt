-- ===== src/Compliance/Certificates.antt =====
-- The parts of the certificates of src/rhsm/certificate2.py and src/rhsm/certificate.py that the
-- compliance status reads, and two functions of src/subscription_manager/certdirectory.py. Dates are
-- seconds.
use subscription_manager.Base.{
  ℕ, ◌+◌, ◌*◌, String, Bool, Option, none, some, List, [], ◌∷◌, ltb, leb, ◌&&◌, contains, string_eq,
  if◌then◌else◌,
}
use subscription_manager.Base.Dict.{Dict, insert}
use subscription_manager.Base.Result.{Result, ok, err, index_error, attribute_error}

pub record DateRange : Type 0 where
  pub begin : ℕ
  pub until : ℕ

abbrev has_date : ℕ → DateRange → Bool
has_date date r = leb r.begin date && leb date r.until

pub record Order : Type 0 where
  pub name : String
  pub stacking_id : Option String
  pub warning_period : ℕ

-- A product certificate stands for the identities of its products.
abbrev pub ProductCertificate : Type 0
ProductCertificate = List String

pub record EntitlementCertificate : Type 0 where
  pub serial : ℕ
  pub products : List String
  pub order : Option Order
  pub valid_range : DateRange

unfoldable pub is_valid_at : ℕ → EntitlementCertificate → Bool
is_valid_at now cert = has_date now cert.valid_range

-- `end - timedelta(days=warning_period) < now`; a certificate without an order has no such attribute.
unfoldable pub is_expiring : ℕ → EntitlementCertificate → Result Bool
is_expiring now cert = elim cert.order [
  | none ↦ err attribute_error
  | some o ↦ ok (ltb cert.valid_range.until (now + o.warning_period * 86400))
]

unfoldable pub find_by_product : String → List ProductCertificate → Option ProductCertificate
find_by_product p_hash [] = none
find_by_product p_hash (c ∷ certs) =
    if contains c p_hash then some c else find_by_product p_hash certs

-- the loop of `get_installed_products`
unfoldable pub installed_loop :
    List ProductCertificate
    → Dict String ProductCertificate
    → Result (Dict String ProductCertificate)
installed_loop [] installed = ok installed
installed_loop ([] ∷ certs) installed = err index_error
installed_loop ((product ∷ products) ∷ certs) installed =
    installed_loop certs (insert product (product ∷ products) installed)

unfoldable pub get_installed_products :
    List ProductCertificate → Result (Dict String ProductCertificate)
unfolding installed_loop
get_installed_products certs = installed_loop certs []
