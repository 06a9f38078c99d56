-- ===== src/EntCerts/Update.antt =====
-- `EntCertUpdateAction` and the installers of src/subscription_manager/entcertlib.py.

use subscription_manager.Base.{
  ℕ, ◌+◌, Bool, not, ◌||◌, Option, none, some, List, [], ◌∷◌, ◌++◌, length, map, filter, contains,
  is_nil, nat_eq, if◌then◌else◌,
}
use subscription_manager.Base.Dict.{Dict, insert, has}
use subscription_manager.Base.Result.{Error, Result, ok, err}
use subscription_manager.EntCerts.Directory.{
  Certificate, Entry, Host, Directory, refresh, list, list_with_content_access, delete, write,
}

pub record EntCertUpdateReport : Type 0 where
  pub valid : List ℕ
  pub expected : List ℕ
  pub added : List Entry
  pub rogue : List Entry
  pub _exceptions : List Error

unfoldable pub updates : EntCertUpdateReport → ℕ
updates report = length report.added + length report.rogue

-- What the server answers: the serial numbers of the consumer's certificates, the bundles for a list of
-- serial numbers, each as `build_cert` parses it or the exception that it raises, and whether it has the
-- capability. `identity_is_valid` is of the consumer.
pub record Server : Type 0 where
  pub identity_is_valid : Bool
  pub get_certificate_serials : Result (List ℕ)
  pub get_certificates : List ℕ → Result (List (Result Certificate))
  pub has_capability : Result Bool

pub data Hook : Type 0 where
  repo_hook branding_hook : Hook

-- The directory, the report, the numbers in the messages that were printed, and the hooks that were
-- called.
pub record State : Type 0 where
  pub dir : Directory
  pub report : EntCertUpdateReport
  pub printed : List ℕ
  pub hooks : List Hook

abbrev pub serial_of : Entry → ℕ
serial_of e = e.cert.serial

-- `list(set(ent_certs))`: of equal serial numbers the first stays
unfoldable pub unique_from : List ℕ → List Entry → List Entry
unique_from seen [] = []
unique_from seen (e ∷ es) =
    if contains seen (serial_of e)
    then unique_from seen es
    else e ∷ unique_from (serial_of e ∷ seen) es

-- the loop of `_get_local_serials`
unfoldable pub local_loop : List Entry → Dict ℕ Entry → Dict ℕ Entry
local_loop [] loc = loc
local_loop (e ∷ es) loc = local_loop es (insert (serial_of e) e loc)

abbrev found : List Entry → Result (List Entry) × Directory → State → Result (Dict ℕ Entry) × State
found es (err e, dir) s = (err e, record s { dir = dir })
found es (ok fs, dir) s =
    let certs = unique_from [] (es ++ fs) in
    (
      ok (local_loop certs []),
      record s {
        dir = dir;
        report = record s.report { valid = s.report.valid ++ map serial_of certs };
      },
    )

-- `list()` is followed by `list_with_content_access()`
abbrev find_both : Result (List Entry) × Directory → State → Result (Dict ℕ Entry) × State
find_both (err e, dir) s = (err e, record s { dir = dir })
find_both (ok es, dir) s = found es (list_with_content_access dir) s

unfoldable pub _get_local_serials : State → Result (Dict ℕ Entry) × State
_get_local_serials s = find_both (list (refresh s.dir)) s

unfoldable pub get_certificate_serials_list : Server → Result (List ℕ)
get_certificate_serials_list server =
    if server.identity_is_valid then server.get_certificate_serials else ok []

unfoldable pub get_certificates_by_serial_list :
    Server → List ℕ → Result (List (Result Certificate))
get_certificates_by_serial_list server sn_list =
    if is_nil sn_list then ok [] else server.get_certificates sn_list

unfoldable pub _find_missing_serials : Dict ℕ Entry → List ℕ → List ℕ
_find_missing_serials loc expected = filter (λ sn. not (has sn loc)) expected

unfoldable pub _find_rogue_serials : Dict ℕ Entry → List ℕ → List Entry
_find_rogue_serials [] expected = []
_find_rogue_serials ((sn, e) ∷ loc) expected =
    let rest = _find_rogue_serials loc expected in if contains expected sn then rest else e ∷ rest

-- one round of the loop of `delete`
unfoldable pub delete_one : Host → Entry → State → State
unfolding delete
delete_one host e s =
    let (r, dir) = delete host e s.dir in
    elim r [
      | err x ↦ record s { dir = dir }
      | ok _ ↦ record s {
        dir = dir;
        report = record s.report { rogue = s.report.rogue ++ (e ∷ []) };
      }
    ]

unfoldable pub delete_loop : Host → List Entry → State → State
unfolding delete_one
delete_loop host [] s = s
delete_loop host (e ∷ rogue) s = delete_loop host rogue (delete_one host e s)

-- the message and the refresh after the loop
unfoldable pub tell_deleted : State → State
unfolding refresh
tell_deleted s =
    if is_nil s.report.rogue
    then s
    else record s { printed = s.printed ++ (length s.report.rogue ∷ []); dir = refresh s.dir }

unfoldable pub delete_all : Host → List Entry → State → State
unfolding delete_loop tell_deleted
delete_all host rogue s = tell_deleted (delete_loop host rogue s)

-- `EntitlementCertBundleInstaller.install`
unfoldable pub install_bundle : Host → Result Certificate → State → Option ℕ × State
unfolding write
install_bundle host (err x) s =
    (none, record s { report = record s.report { _exceptions = s.report._exceptions ++ (x ∷ []) } })
install_bundle host (ok cert) s =
    let (r, dir) = write host cert s.dir in
    elim r [
      | err x ↦ (
        none,
        record s {
          dir = dir;
          report = record s.report { _exceptions = s.report._exceptions ++ (x ∷ []) };
        },
      )
      | ok e ↦ (
        some cert.serial,
        record s { dir = dir; report = record s.report { added = s.report.added ++ (e ∷ []) } },
      )
    ]

abbrev with_serial : Option ℕ → List ℕ → List ℕ
with_serial none serials = serials
with_serial (some sn) serials = sn ∷ serials

-- `EntitlementCertBundlesInstaller.install`
unfoldable pub install_bundles : Host → List (Result Certificate) → State → List ℕ × State
unfolding install_bundle
install_bundles host [] s = ([], s)
install_bundles host (bundle ∷ bundles) s =
    let (sn, t) = install_bundle host bundle s in
    let (installed, u) = install_bundles host bundles t in (with_serial sn installed, u)

unfoldable pub install : Host → Server → List ℕ → State → Result (List ℕ) × State
install host server missing_serials s =
    elim (get_certificates_by_serial_list server missing_serials) [
      | err e ↦ (err e, s)
      | ok bundles ↦ (ok (install_bundles host bundles s).0, (install_bundles host bundles s).1)
    ]

unfoldable pub obsolete_certs : List ℕ → List ℕ → List Entry → List Entry
obsolete_certs installed expected [] = []
obsolete_certs installed expected (e ∷ es) =
    let rest = obsolete_certs installed expected es in
    if contains installed (serial_of e) || contains expected (serial_of e) then rest else e ∷ rest

unfoldable pub call_hooks : Bool → State → State
call_hooks changed s =
    if changed then record s { hooks = s.hooks ++ (repo_hook ∷ branding_hook ∷ []) } else s
