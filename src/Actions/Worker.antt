-- ===== src/Actions/Worker.antt =====
-- `_main` of src/subscription_manager/scripts/rhsmcertd_worker.py, with `clean_all_data` of
-- src/subscription_manager/managerlib.py.
pub mod Deletion
use text.Mathlib.Text.{starts_with}
use subscription_manager.Base.{
  String, Bool, true, false, not, ◌&&◌, ◌||◌, Option, none, some, is_some, List, [], ◌∷◌, contains,
  filter, ◌==◌, string_eq, if◌then◌else◌,
}
use subscription_manager.Base.Slashes.{drop_suffix}
use subscription_manager.Connection.Exceptions.{
  Exception, Call, raised, returned, os_failed, deleted_id_of,
}
use subscription_manager.Actions.{Lib, _run_updates}

-- The consumer's identity on the disk and in the directory for its backup, the names of the files of
-- entitlement certificates, if their directory exists, and of caches, whether the cache of the system purpose
-- holds values, and the files of repositories.
pub record Host : Type 0 where
  pub consumer : Option String
  pub consumer_old : Option String
  pub entitlements : Option (List String)
  pub caches : List String
  pub syspurpose_cached : Bool
  pub repo_files : List String

-- glob's "*.pem"
abbrev is_pem : String → Bool
is_pem f = not (drop_suffix ".pem" f == f) && not (starts_with f ".")

-- the caches that are deleted
abbrev cleaned_caches : List String
cleaned_caches =
    "profile" ∷ "installed_products" ∷ "entitlement_status" ∷ "syspurpose_compliance_status"
    ∷ "product_status" ∷ "pool_status" ∷ "content_overrides" ∷ "releasever" ∷ "written_overrides"
    ∷ []

unfoldable pub clean_all_data : Bool → Host → Host
clean_all_data backup h = record {
  consumer = none;
  consumer_old = if backup then h.consumer else h.consumer_old;
  entitlements = elim h.entitlements [
    | none ↦ none
    | some files ↦ some (filter (λ f. not (is_pem f)) files)
  ];
  caches = filter (λ c. not (contains cleaned_caches c)) h.caches;
  syspurpose_cached = false;
  repo_files = [];
}

-- How the worker ends: it exits before it does anything, or with what its updates return or raise.
pub data Ending (R : Type 0) : Type 0 where
  exits : Ending R
  ends : Call R → Ending R

module _ {R : Type 0} where
  -- the clauses for exceptions of `_main`
  abbrev pub handled : Call (List (Option R)) × Host → Ending (List (Option R)) × Host
  handled (returned reports, h) = (ends (returned reports), h)
  handled (raised e, h) = elim (deleted_id_of e) [
    | none ↦ (ends (raised e), h)
    | some deleted_id ↦ elim h.consumer [
      | none ↦ (ends (raised (os_failed "No such file or directory")), h)
      | some uuid ↦ (ends (raised e), if deleted_id == uuid then clean_all_data true h else h)
    ]
  ]

  -- `_main` without automatic registration. `libs` are those of `ActionClient` or of `HealingActionClient`,
  -- whose lock is left out here; `supported` is how the request for the supported resources ends.
  unfoldable pub _main :
      (disabled force : Bool)
      → Call (Unit {0})
      → List (Lib Host R)
      → Host
      → Ending (List (Option R)) × Host
  unfolding _run_updates
  _main disabled force supported libs h =
      if disabled && not force || not (is_some h.consumer) then (exits, h) else elim supported [
        | raised e ↦ (ends (raised e), h)
        | returned x ↦ handled (_run_updates [] libs h)
      ]
