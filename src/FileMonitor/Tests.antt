-- ===== src/FileMonitor/Tests.antt =====
-- Watches of a file in a few rounds.
use subscription_manager.Base.{
  ◌≡◌, refl, ℕ, ◌+◌, leb, String, Bool, true, false, Option, none, some, List, [], ◌∷◌, ◌++◌, map,
  ◌==◌, string_eq,
}
use subscription_manager.FileMonitor.{
  DirectoryWatch, Event, present, temporary_disable, start, loop, inotify_loop,
}
use subscription_manager.FileMonitor.Polling.{times, changes, loop-calls}
use subscription_manager.FileMonitor.Disabled.{enabled_again, inotify_loop-disabled}

abbrev watch : DirectoryWatch
watch = record {
  path = "/etc/rhsm/rhsm.conf";
  is_file = true;
  callbacks = some "reload" ∷ none ∷ [];
  timestamp = none;
  temporary_disabled = false;
  _time_tmp_dis = 0;
  calls = [];
}

-- the file is there, is written, stays, and is removed
abbrev at_first : String → Option ℕ
at_first path = some 1

abbrev written : String → Option ℕ
written path = some 2

abbrev removed : String → Option ℕ
removed path = none

abbrev rounds : List ((String → Option ℕ) × ℕ)
rounds = (written, 2000) ∷ (written, 4000) ∷ (removed, 6000) ∷ []

loop-calls_example :
    map (λ w. w.calls) (loop rounds (start at_first (watch ∷ [])))
    ≡ map
        (λ w. w.calls ++ times (changes w.path (at_first w.path) rounds) (present w.callbacks))
        (watch ∷ [])
loop-calls_example = loop-calls at_first rounds (watch ∷ [])

abbrev same_path : String → String → Bool
same_path s t = s == t

abbrev event : Event
event = record { path = "/etc/rhsm"; pathname = "/etc/rhsm/rhsm.conf"; mask = 2 }

abbrev one_round : List (List Event × ℕ)
one_round = (event ∷ [], 1500) ∷ []

-- a watch behind one that an event reaches
inotify_loop-disabled_example :
    let run = inotify_loop same_path in
    let rounds' = one_round in
    let disabled = temporary_disable 1000 watch in
    (run rounds' ((watch ∷ []) ++ (disabled ∷ []))
      ≡ run rounds' (watch ∷ []) ++ (disabled ∷ run rounds' []))
    × ((events : List Event) (now : ℕ)
        → leb now (1000 + 5000) ≡ false
        → let more = rounds' ++ ((events, now) ∷ []) in
          run more ((watch ∷ []) ++ (disabled ∷ []))
          ≡ run more (watch ∷ []) ++ (enabled_again watch ∷ run more []))
inotify_loop-disabled_example =
    inotify_loop-disabled same_path 1000 one_round (watch ∷ []) [] watch refl
