-- ===== src/Compliance/Tests.antt =====
-- Runs of src/subscription_manager/cert_sorter.py on a small system.
use mathlib.Core.List.{List}
use subscription_manager.Compliance.Reasons.{Reason, get_name_message_map}
use subscription_manager.Compliance.Groups.{stacking_groups_of}
use subscription_manager.Base.{
  ◌≡◌, ◌≢◌, refl, ℕ, ℕ_discrete, String, String-discrete, true, false, ◌&&◌, none, some, [], ◌∷◌,
  ◌++◌, filter, string_eq,
}
use subscription_manager.Base.Dict.{Dict, lookup, insert, has, keys}
use subscription_manager.Base.Result.{ok, err, value_error}
use subscription_manager.Compliance.Certificates.{
  ProductCertificate, EntitlementCertificate, is_valid_at, get_installed_products,
}
use subscription_manager.Compliance.Manager.{
  ServerStatus, Environment, ComplianceManager, received, blank, load, get_status, is_unknown,
  _scan_entitlement_certs,
}
use subscription_manager.Compliance.Scan.{
  extend, providing, is_future, is_past, scan_entitlement_certs_lem,
}
use subscription_manager.Compliance.Known.{installed_is_known}
use subscription_manager.Compliance.Status.{load-ok, status_from, get_status-load}

-- a certificate of the product 69 from 50 to 100
abbrev later : EntitlementCertificate
later = record {
  serial = 1;
  products = "69" ∷ [];
  order = none;
  valid_range = record { begin = 50; until = 100 };
}

-- the server knows neither of the products
abbrev answer : ServerStatus ℕ
answer = record {
  compliant_products = [];
  partially_compliant_products = [];
  partial_stacks = [];
  reasons = none;
  status = some "invalid";
  non_compliant_products = "70" ∷ [];
  compliant_until = none;
}

abbrev system : Environment ℕ
system = record {
  registered = true;
  compliance_status = some answer;
  is_sca = false;
  product_certs = ("69" ∷ []) ∷ ("70" ∷ []) ∷ [];
  entitlement_certs = later ∷ [];
  parse_date = λ text. err value_error;
  now = 10;
}

abbrev two_products : Dict String ProductCertificate
two_products = ("69", "69" ∷ []) ∷ ("70", "70" ∷ []) ∷ []

two_installed : get_installed_products system.product_certs ≡ ok two_products
unfolding get_installed_products insert String-discrete
two_installed = refl

abbrev manager : ComplianceManager ℕ
manager = received system answer none (blank two_products)

loads : load system ≡ ok manager
loads = load-ok system answer two_products refl refl two_installed

status_of_69 : get_status true manager "69" ≡ "future_subscribed"
unfolding get_status received has keys lookup insert String-discrete ℕ_discrete
status_of_69 = refl

has_69 : has "69" manager.installed_products ≡ true
unfolding received has String-discrete
has_69 = refl

get_status-load_example : get_status true manager "69" ≡ status_from system answer "69"
get_status-load_example = get_status-load system answer manager "69" refl refl loads

installed_is_known_example : get_status true manager "69" ≢ "unknown"
unfolding String-discrete
installed_is_known_example = installed_is_known system answer manager "69" refl refl refl loads refl

scan_entitlement_certs_example :
    let m = blank {J = ℕ} two_products in
    let after = _scan_entitlement_certs 10 (later ∷ []) m in
    (lookup "69" after.future_products
      ≡ extend
          (lookup "69" m.future_products)
          (providing (λ cert. is_unknown m "69" && is_future 10 cert) "69" (later ∷ [])))
    × (lookup "69" after.expired_products
        ≡ extend
            (lookup "69" m.expired_products)
            (providing (λ cert. is_unknown m "69" && is_past 10 cert) "69" (later ∷ [])))
    × (after.valid_entitlement_certs
        ≡ m.valid_entitlement_certs ++ filter (is_valid_at 10) (later ∷ []))
scan_entitlement_certs_example =
    scan_entitlement_certs_lem 10 (later ∷ []) (blank {J = ℕ} two_products) "69"

-- two certificates of one stack, and one without an order
abbrev stacked : ℕ → EntitlementCertificate
stacked n = record {
  serial = n;
  products = "69" ∷ [];
  order = some (record { name = "stack"; stacking_id = some "s"; warning_period = 0 });
  valid_range = record { begin = 50; until = 100 };
}

abbrev three_certs : List EntitlementCertificate
three_certs = stacked 1 ∷ later ∷ stacked 2 ∷ []

two_groups :
    stacking_groups_of three_certs
    ≡ record { name = "stack"; entitlements = stacked 1 ∷ stacked 2 ∷ [] }
      ∷ record { name = ""; entitlements = later ∷ [] }
      ∷ []
unfolding stacking_groups_of lookup insert String-discrete ℕ_discrete
two_groups = refl

abbrev lacks : Reason
lacks = record {
  key = "NOTCOVERED";
  message = "Not supported";
  attributes = ("name", "Product 69") ∷ [];
}

abbrev reason_map : Dict String (List String)
reason_map = ("Product 69", "Not supported" ∷ []) ∷ []

maps : get_name_message_map (lacks ∷ lacks ∷ []) ≡ ok reason_map
unfolding get_name_message_map lookup insert String-discrete
maps = refl
