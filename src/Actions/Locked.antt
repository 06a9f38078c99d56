-- ===== src/Actions/Locked.antt =====
-- `BaseActionClient.update` of src/subscription_manager/base_action_client.py: the updates run while the
-- process has the lock of src/subscription_manager/lock.py.
use subscription_manager.Base.{String, false, Option, List, string_eq}
use subscription_manager.Connection.Exceptions.{Call}
use subscription_manager.Locks as Locks
use subscription_manager.Locks.{releases, step, run, attempt}
use subscription_manager.Actions.{Lib, _run_updates}

-- `update` of a process, from the round in which it does not wait for the lock and that no other process disturbs, with what
-- other processes do to the lock meanwhile: the lock while the updates run, and the result, the lock and the rest at the end.
abbrev pub locked : String → List Locks.Call → Locks.State → Locks.State
locked p others l = run others (run (attempt false p) l)

module _ {S R : Type 0} where
  unfoldable pub update :
      String
      → List Locks.Call
      → List String
      → List (Lib S R)
      → Locks.State
      → S
      → Call (List (Option R)) × Locks.State × S
  unfolding _run_updates
  update p others skips libs l s =
      let (result, t) = _run_updates skips libs s in
      (result, step (releases false p) (locked p others l), t)
