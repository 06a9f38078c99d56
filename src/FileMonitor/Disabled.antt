-- ===== src/FileMonitor/Disabled.antt =====
-- How long a watch is disabled.
use subscription_manager.Base.{
  ◌≡◌, refl, ap, ◌∙◌, ℕ, ◌+◌, leb, String, Bool, true, false, List, [], ◌∷◌, ◌++◌, map, all, arith,
}
use subscription_manager.FileMonitor.{
  DirectoryWatch, Event, temporary_disable, try_enable, update_temporary_disabled_watcher,
  handle_one, handle_event, handle_all, inotify_loop,
}
use subscription_manager.FileMonitor.Polling.{map-map, map_cong}

-- a watch as it was before it was disabled
abbrev pub enabled_again : DirectoryWatch → DirectoryWatch
enabled_again w = record w { temporary_disabled = false; _time_tmp_dis = 0 }

map-append : {A B : Type 0} (f : A → B) (xs ys : List A) → map f (xs ++ ys) ≡ map f xs ++ map f ys
map-append f [] ys = refl
map-append f (x ∷ xs) ys = ap (λ zs. f x ∷ zs) (map-append f xs ys)

try_enable-early :
    (since now : ℕ) (w : DirectoryWatch)
    → leb now (since + 5000) ≡ true
    → try_enable now (temporary_disable since w) ≡ temporary_disable since w
unfolding try_enable update_temporary_disabled_watcher temporary_disable
try_enable-early since now w h = ground (arith, h)

try_enable-late :
    (since now : ℕ) (w : DirectoryWatch)
    → leb now (since + 5000) ≡ false
    → try_enable now (temporary_disable since w) ≡ enabled_again w
unfolding try_enable update_temporary_disabled_watcher temporary_disable
try_enable-late since now w h = ground (arith, h)

module _ (fnmatchcase : String → String → Bool) where
  handle_event-disabled :
      (since : ℕ) (e : Event) (ws : List DirectoryWatch)
      → handle_event fnmatchcase e (map (temporary_disable since) ws)
        ≡ map (temporary_disable since) ws
  unfolding handle_event handle_one temporary_disable
  handle_event-disabled since e ws = map-map (handle_one fnmatchcase e) (temporary_disable since) ws

  handle_all-disabled :
      (since : ℕ) (events : List Event) (ws : List DirectoryWatch)
      → handle_all fnmatchcase events (map (temporary_disable since) ws)
        ≡ map (temporary_disable since) ws
  handle_all-disabled since [] ws = refl
  handle_all-disabled since (e ∷ events) ws =
      ap (handle_all fnmatchcase events) (handle_event-disabled since e ws)
      ∙ handle_all-disabled since events ws

  -- a list of watches that were all disabled then
  all-disabled :
      (since : ℕ) (rounds : List (List Event × ℕ)) (ws : List DirectoryWatch)
      → all (λ r. leb r.1 (since + 5000)) rounds ≡ true
      → let disabled = map (temporary_disable since) ws in
        (inotify_loop fnmatchcase rounds disabled ≡ disabled)
        × ((events : List Event) (now : ℕ)
            → leb now (since + 5000) ≡ false
            → inotify_loop fnmatchcase (rounds ++ ((events, now) ∷ [])) disabled
              ≡ map enabled_again ws)
  unfolding inotify_loop
  all-disabled since [] ws h = (
    refl,
    λ events now late.
        ap (map (try_enable now)) (handle_all-disabled since events ws)
        ∙ map-map (try_enable now) (temporary_disable since) ws
        ∙ map_cong (λ w. try_enable-late since now w late) ws,
  )
  all-disabled since ((events, now) ∷ rounds) ws h =
      let early : leb now (since + 5000) ≡ true = ground (arith, h) in
      let (same, later) = all-disabled since rounds ws (ground (arith, h)) in
      let kept =
        ap (map (try_enable now)) (handle_all-disabled since events ws)
        ∙ map-map (try_enable now) (temporary_disable since) ws
        ∙ map_cong (λ w. try_enable-early since now w early) ws in
      (
        ap (inotify_loop fnmatchcase rounds) kept ∙ same,
        λ more last late.
            ap (inotify_loop fnmatchcase (rounds ++ ((more, last) ∷ []))) kept
            ∙ later more last late,
      )

  handle_all-append :
      (events : List Event) (xs ys : List DirectoryWatch)
      → handle_all fnmatchcase events (xs ++ ys)
        ≡ handle_all fnmatchcase events xs ++ handle_all fnmatchcase events ys
  unfolding handle_event
  handle_all-append [] xs ys = refl
  handle_all-append (e ∷ events) xs ys =
      ap (handle_all fnmatchcase events) (map-append (handle_one fnmatchcase e) xs ys)
      ∙ handle_all-append events (handle_event fnmatchcase e xs) (handle_event fnmatchcase e ys)

  loop-append :
      (rounds : List (List Event × ℕ)) (xs ys : List DirectoryWatch)
      → inotify_loop fnmatchcase rounds (xs ++ ys)
        ≡ inotify_loop fnmatchcase rounds xs ++ inotify_loop fnmatchcase rounds ys
  unfolding inotify_loop
  loop-append [] xs ys = refl
  loop-append ((events, now) ∷ rounds) xs ys =
      let us = handle_all fnmatchcase events xs in
      let vs = handle_all fnmatchcase events ys in
      ap (λ ws. inotify_loop fnmatchcase rounds (map (try_enable now) ws))
        (handle_all-append events xs ys)
      ∙ ap (inotify_loop fnmatchcase rounds) (map-append (try_enable now) us vs)
      ∙ loop-append rounds (map (try_enable now) us) (map (try_enable now) vs)

  loop-between :
      (rounds : List (List Event × ℕ)) (before after ws vs : List DirectoryWatch)
      → inotify_loop fnmatchcase rounds ws ≡ vs
      → inotify_loop fnmatchcase rounds (before ++ (ws ++ after))
        ≡ inotify_loop fnmatchcase rounds before ++ (vs ++ inotify_loop fnmatchcase rounds after)
  loop-between rounds before after ws vs h =
      loop-append rounds before (ws ++ after)
      ∙ ap (λ us. inotify_loop fnmatchcase rounds before ++ us)
          (loop-append rounds ws after ∙ ap (λ us. us ++ inotify_loop fnmatchcase rounds after) h)

  -- A watch that was disabled at some time, wherever it stands among the others, stays as it is, whatever
  -- events come, in all rounds that end within five seconds of it; the first round that ends later enables it
  -- again, and calls none of its callbacks. The others do what they do without it.
  pub inotify_loop-disabled :
      (since : ℕ) (rounds : List (List Event × ℕ)) (before after : List DirectoryWatch)
      (w : DirectoryWatch)
      → all (λ r. leb r.1 (since + 5000)) rounds ≡ true
      → let run = inotify_loop fnmatchcase in
        let disabled = temporary_disable since w in
        (run rounds (before ++ (disabled ∷ after))
          ≡ run rounds before ++ (disabled ∷ run rounds after))
        × ((events : List Event) (now : ℕ)
            → leb now (since + 5000) ≡ false
            → let more = rounds ++ ((events, now) ∷ []) in
              run more (before ++ (disabled ∷ after))
              ≡ run more before ++ (enabled_again w ∷ run more after))
  inotify_loop-disabled since rounds before after w h =
      let disabled = temporary_disable since w in
      let (same, later) = all-disabled since rounds (w ∷ []) h in
      (
        loop-between rounds before after (disabled ∷ []) (disabled ∷ []) same,
        λ events now late.
            loop-between (rounds ++ ((events, now) ∷ [])) before after (disabled ∷ [])
              (enabled_again w ∷ []) (later events now late),
      )
