-- ===== src/Actions.antt =====
-- The sequence of updates of the client, src/subscription_manager/base_action_client.py, under the lock of
-- src/subscription_manager/lock.py, and the parts around it.
pub mod Locked
pub mod Worker
mod Tests
use subscription_manager.Base.{
  String, Bool, true, false, ◌||◌, Option, none, some, List, [], ◌∷◌, contains, string_eq,
  if◌then◌else◌,
}
use subscription_manager.Connection.Exceptions.{
  Class, Exception, is_instance, Call, raised, returned,
}

-- A library that updates something: the name of its type, and `update`, which may return no report.
pub record Lib (S R : Type 0) : Type 0 where
  pub name : String
  pub update : S → Call (Option R) × S

-- exceptions that `_run_update` does not catch
abbrev pub passes : Exception → Bool
passes e = is_instance Class.gone e || is_instance Class.expired_identity_cert e

module _ {S R : Type 0} where
  abbrev pub caught : Call (Option R) × S → Call (Option R) × S
  caught (returned report, s) = (returned report, s)
  caught (raised e, s) = if passes e then (raised e, s) else (returned none, s)

  -- `_run_update`
  unfoldable pub _run_update : Lib S R → S → Call (Option R) × S
  _run_update lib s = caught (lib.update s)

  abbrev pub add_report : Option R → Call (List (Option R)) × S → Call (List (Option R)) × S
  add_report report (raised e, s) = (raised e, s)
  add_report report (returned reports, s) = (returned (report ∷ reports), s)

  -- the rest of the loop behind an update
  abbrev pub then_rest :
      (S → Call (List (Option R)) × S) → Call (Option R) × S → Call (List (Option R)) × S
  then_rest rest (raised e, s) = (raised e, s)
  then_rest rest (returned report, s) = add_report report (rest s)

  -- `_run_updates`, with the names of the types that are skipped
  unfoldable pub _run_updates : List String → List (Lib S R) → S → Call (List (Option R)) × S
  unfolding _run_update
  _run_updates skips [] s = (returned [], s)
  _run_updates skips (lib ∷ libs) s =
      if contains skips lib.name
      then _run_updates skips libs s
      else then_rest (_run_updates skips libs) (_run_update lib s)
