-- ===== src/FileMonitor.antt =====
-- The watchers of files and directories of src/rhsmlib/file_monitor.py. Times are milliseconds, and the clock
-- does not go back.
pub mod Times
pub mod Polling
pub mod Disabled
mod Tests
use Prim.Native.Nat.{bit_and}
use subscription_manager.Base.{
  ℕ, ◌-◌, String, Bool, true, false, not, ◌&&◌, Option, none, some, List, [], ◌∷◌, ◌++◌, map, ◌==◌,
  nat_eq, ltb, if◌then◌else◌,
}
use subscription_manager.FileMonitor.Times.{time_eq}

-- A watch, with the names of the callbacks that were called. A callback may be None.
pub record DirectoryWatch : Type 0 where
  pub path : String
  pub is_file : Bool
  pub callbacks : List (Option String)
  pub timestamp : Option ℕ
  pub temporary_disabled : Bool
  pub _time_tmp_dis : ℕ
  pub calls : List String

abbrev pub present : List (Option String) → List String
present [] = []
present (none ∷ cbs) = present cbs
present (some cb ∷ cbs) = cb ∷ present cbs

-- `notify`: the exceptions of callbacks are caught
unfoldable pub notify : DirectoryWatch → DirectoryWatch
notify w = record w { calls = w.calls ++ present w.callbacks }

-- `IN_DELETE | IN_MODIFY | IN_MOVED_TO`
abbrev mask : ℕ
mask = 642

unfoldable pub is_file_modified : ℕ → Bool
is_file_modified event_mask = not (bit_and mask event_mask == 0)

unfoldable pub temporary_disable : ℕ → DirectoryWatch → DirectoryWatch
temporary_disable now w = record w { temporary_disabled = true; _time_tmp_dis = now }

unfoldable pub enable : DirectoryWatch → DirectoryWatch
enable w = record w { temporary_disabled = false }

unfoldable pub update_temporary_disabled_watcher : ℕ → DirectoryWatch → DirectoryWatch
update_temporary_disabled_watcher now w =
    if ltb 5000 (now - w._time_tmp_dis)
    then record w { temporary_disabled = false; _time_tmp_dis = 0 }
    else w

-- the end of a round of either loop
unfoldable pub try_enable : ℕ → DirectoryWatch → DirectoryWatch
unfolding update_temporary_disabled_watcher
try_enable now w = if w.temporary_disabled then update_temporary_disabled_watcher now w else w

-- `FilesystemWatcher`, with the modification times of paths, `none` for a missing one
unfoldable pub check_timestamp : (String → Option ℕ) → DirectoryWatch → DirectoryWatch
unfolding notify
check_timestamp mtime w =
    if w.timestamp == mtime w.path then w else notify (record w { timestamp = mtime w.path })

unfoldable pub update : (String → Option ℕ) → List DirectoryWatch → List DirectoryWatch
unfolding check_timestamp
update mtime watches = map (check_timestamp mtime) watches

-- the start of `loop`, and its rounds, each with the modification times and the time at its end
abbrev pub first_seen : (String → Option ℕ) → DirectoryWatch → DirectoryWatch
first_seen mtime w = record w { timestamp = mtime w.path }

unfoldable pub start : (String → Option ℕ) → List DirectoryWatch → List DirectoryWatch
start mtime watches = map (first_seen mtime) watches

unfoldable pub loop : List ((String → Option ℕ) × ℕ) → List DirectoryWatch → List DirectoryWatch
unfolding update try_enable
loop [] watches = watches
loop ((mtime, now) ∷ rounds) watches = loop rounds (map (try_enable now) (update mtime watches))

-- `InotifyFilesystemWatcher`: what the operating system tells, with the real paths of the event
pub record Event : Type 0 where
  pub path : String
  pub pathname : String
  pub mask : ℕ

module _ (fnmatchcase : String → String → Bool) where
  unfoldable pub paths_match : Event → DirectoryWatch → Bool
  paths_match e w = if w.is_file then fnmatchcase e.pathname w.path else fnmatchcase e.path w.path

  unfoldable pub handle_one : Event → DirectoryWatch → DirectoryWatch
  unfolding paths_match is_file_modified notify
  handle_one e w =
      if w.temporary_disabled
      then w
      else if paths_match e w && is_file_modified e.mask
      then notify w
      else w

  unfoldable pub handle_event : Event → List DirectoryWatch → List DirectoryWatch
  unfolding handle_one
  handle_event e watches = map (handle_one e) watches

  abbrev pub handle_all : List Event → List DirectoryWatch → List DirectoryWatch
  handle_all [] watches = watches
  handle_all (e ∷ events) watches = handle_all events (handle_event e watches)

  -- the rounds of `loop`, each with the events that are processed, and the time at its end
  unfoldable pub inotify_loop : List (List Event × ℕ) → List DirectoryWatch → List DirectoryWatch
  unfolding handle_event try_enable
  inotify_loop [] watches = watches
  inotify_loop ((events, now) ∷ rounds) watches =
      inotify_loop rounds (map (try_enable now) (handle_all events watches))
