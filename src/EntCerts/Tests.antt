-- ===== src/EntCerts/Tests.antt =====
-- Runs of src/subscription_manager/entcertlib.py on a small directory.
use subscription_manager.Base.{
  ◌≡◌, refl, ℕ, Bool, true, false, none, some, [], ◌∷◌, map, contains, nat_eq,
}
use subscription_manager.Base.Dict.{has}
use subscription_manager.Base.Result.{ok}
use subscription_manager.EntCerts.Directory.{numbered, name_eq, Certificate, Host}
use subscription_manager.EntCerts.Access.{AccessData, missing}
use subscription_manager.EntCerts.Update.{EntCertUpdateReport, Server}
use subscription_manager.EntCerts.Perform.{World, perform}
use subscription_manager.EntCerts.Exchange.{Serves, present}
use subscription_manager.EntCerts.Files.{perform-present, perform_lem}

-- no answers about content access
abbrev no_data : AccessData ℕ ℕ
no_data = record {
  same = λ r s. true;
  last_update = λ r. none;
  has_listing = λ r. false;
  listed = λ r sn. none;
}

abbrev ordinary : ℕ → Certificate
ordinary sn = record { serial = sn; is_content_access = false }

-- the server expects 2 and 3
abbrev server_of : Bool → Server
server_of capable = record {
  identity_is_valid = true;
  get_certificate_serials = ok (2 ∷ 3 ∷ []);
  get_certificates = λ sns. ok (map (λ sn. ok (ordinary sn)) sns);
  has_capability = ok capable;
}

server-Serves : (capable : Bool) → Serves (server_of capable) (2 ∷ 3 ∷ []) ordinary
server-Serves capable = record {
  registered = refl;
  expects = refl;
  bundles = λ sns. refl;
  own_serial = λ sn. refl;
}

abbrev permissive : Host
permissive = record {
  can_unlink = λ n. true;
  can_unlink_key = λ n. true;
  can_write = λ n. true;
  can_write_key = λ n. true;
}

-- 1 and 2 are on the disk
abbrev world : (capable : Bool) → World no_data permissive (server_of capable)
world capable = (
  record {
    dir = record {
      certs = (numbered 1, some (ordinary 1)) ∷ (numbered 2, some (ordinary 2)) ∷ [];
      keys = numbered 1 ∷ numbered 2 ∷ [];
      listing = none;
    };
    report = record { valid = []; expected = []; added = []; rogue = []; _exceptions = [] };
    printed = [];
    hooks = [];
  },
  record { get_accessible_content = λ d. ok none; file = missing; can_write_cache = true },
)

perform-present_example :
    has (numbered 1) (perform no_data permissive (server_of true) (world true)).1.0.dir.certs
    ≡ present permissive (2 ∷ 3 ∷ []) (has (numbered 1) (world true).0.dir.certs) 1
perform-present_example =
    perform-present no_data permissive (server_of true) (2 ∷ 3 ∷ []) ordinary (server-Serves true)
      (world true) 1 ((ordinary 1, refl, refl), ((ordinary 2, refl, refl), tt))

perform_example :
    (report : EntCertUpdateReport) × ((perform no_data permissive (server_of false) (world false)).0
      ≡ ok report)
    × ((t : ℕ)
        → has
            (numbered t)
            (perform no_data permissive (server_of false) (world false)).1.0.dir.certs
          ≡ contains (2 ∷ 3 ∷ []) t)
perform_example =
    perform_lem no_data permissive (server_of false) (2 ∷ 3 ∷ []) ordinary (server-Serves false)
      (world false) ((ordinary 1, refl, refl), ((ordinary 2, refl, refl), tt)) refl (λ n. refl)
