-- ===== src/EntCerts/Directory.antt =====
-- The directory of entitlement certificates: `EntitlementDirectory` and `Writer` of
-- src/subscription_manager/certdirectory.py, and the deletion of a certificate of
-- src/rhsm/certificate2.py.
use subscription_manager.Base.{
  ℕ, ℕ_discrete, String-discrete, String, Bool, not, ◌&&◌, Option, none, some, List, [], ◌∷◌,
  filter, contains, Eq, ◌==◌, nat_eq, string_eq, if◌then◌else◌,
}
use subscription_manager.Base.Dict.{Dict, insert, erase, has}
use subscription_manager.Base.Result.{Result, ok, err, os_error, certificate_error}
use subscription_manager.Base.Exec.{Exec}

-- The name of a file without its ending: a number in decimal digits, or another text.
pub data Name : Type 0 where
  numbered : ℕ → Name
  named : String → Name

unfoldable pub Name-discrete : Discrete Name
Name-discrete = hlevel (ℕ_discrete, String-discrete)

instance abbrev pub name_eq : Eq Name
name_eq = record { dec = Name-discrete }

pub record Certificate : Type 0 where
  pub serial : ℕ
  pub is_content_access : Bool

-- A certificate with its path.
pub record Entry : Type 0 where
  pub path : Name
  pub cert : Certificate

-- What the operating system lets the process do with the certificate and the key of a name.
pub record Host : Type 0 where
  pub can_unlink : Name → Bool
  pub can_unlink_key : Name → Bool
  pub can_write : Name → Bool
  pub can_write_key : Name → Bool

-- The files whose names end in ".pem" and not in "key.pem", with what they are parsed as, if they can
-- be; the names that have a key file of their own; and the cache of the listing.
pub record Directory : Type 0 where
  pub certs : Dict Name (Option Certificate)
  pub keys : List Name
  pub listing : Option (List Entry)

unfoldable pub refresh : Directory → Directory
refresh dir = record dir { listing = none }

-- the loop of `CertificateDirectory.list`
unfoldable pub load : Dict Name (Option Certificate) → Result (List Entry)
load [] = ok []
load ((n, content) ∷ certs) =
    let rest = load certs in
    elim content [
      | none ↦ err certificate_error
      | some c ↦ elim rest [ err e ↦ err e | ok es ↦ ok (record { path = n; cert = c } ∷ es) ]
    ]

-- `list_with_content_access`
unfoldable pub list_with_content_access : Exec Directory (List Entry)
unfolding load
list_with_content_access dir = elim dir.listing [
  | some es ↦ (ok es, dir)
  | none ↦ elim (load dir.certs) [
    | err e ↦ (err e, dir)
    | ok es ↦ (ok es, record dir { listing = some es })
  ]
]

-- those that are not of content access, and those that are
abbrev pub without_access : List Entry → List Entry
without_access = filter (λ e. not e.cert.is_content_access)

abbrev pub with_access : List Entry → List Entry
with_access = filter (λ e. e.cert.is_content_access)

-- `EntitlementDirectory.list`
unfoldable pub list : Exec Directory (List Entry)
unfolding list_with_content_access
list dir =
    let (r, after) = list_with_content_access dir in
    (elim r [ err e ↦ err e | ok es ↦ ok (without_access es) ], after)

-- `EntitlementCertificate.delete`: the certificate goes before the key, and an OSError of the second
-- step does not bring it back.
unfoldable pub delete : Host → Entry → Directory → Result (Unit {0}) × Directory
delete host e dir =
    if not (has e.path dir.certs && host.can_unlink e.path)
    then (err os_error, dir)
    else let left = record dir { certs = erase e.path dir.certs } in
      if contains dir.keys e.path && host.can_unlink_key e.path
      then (ok tt, record left { keys = filter (λ n. not (n == e.path)) dir.keys })
      else (err os_error, left)

-- `Writer.write` of a key and a certificate; a file is opened before it changes
unfoldable pub write : Host → Certificate → Directory → Result Entry × Directory
write host cert dir =
    let n = numbered cert.serial in
    let keyed = record dir { keys = if contains dir.keys n then dir.keys else n ∷ dir.keys } in
    if not (host.can_write_key n)
    then (err os_error, dir)
    else if not (host.can_write n)
    then (err os_error, keyed)
    else (
      ok (record { path = n; cert = cert }),
      record keyed { certs = insert n (some cert) dir.certs },
    )
