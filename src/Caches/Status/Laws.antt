-- ===== src/Caches/Status/Laws.antt =====
-- Which status is told, and when the server is asked for it.
use subscription_manager.Base.{
  ◌≡◌, refl, ap, ◌∙◌, ℕ, zero, suc, Bool, false, Option, none, some, if◌then◌else◌, arith,
  Option-cases, inl, inr, ◌⊎◌,
}
use subscription_manager.Caches.File.{
  File, missing, unreadable, corrupt, stored, _cache_exists, _read_cache,
}
use subscription_manager.Caches.Status.{
  Outcome, raised, returned, unreachable, or_none, cleared, failed_with, StatusCache, Answer,
  _status_exists, _read_status, run_thread, failed, start_write, keep_loaded, read_or_load,
  load_status, read_status,
}

-- The status that is known without the server: that in memory, or else that in the file.
abbrev pub known : {J : Type 0} → StatusCache J → Option J
known s = elim s.server_status [ some j ↦ some j | none ↦ or_none (_read_cache s.file) ]

Zero-cases : (n : ℕ) → (n ≡ 0) ⊎ ((m : ℕ) × (n ≡ suc m))
Zero-cases zero = inl refl
Zero-cases (suc m) = inr (m, refl)

module _ {J : Type 0} where
  file_cases :
      (file : File (Option J))
      → (if _cache_exists file then or_none (_read_cache file) else none)
        ≡ or_none (_read_cache file)
  unfolding _read_cache
  file_cases missing = refl
  file_cases unreadable = refl
  file_cases corrupt = refl
  file_cases (stored j) = refl

  read_status_known :
      (s : StatusCache J) → _read_status s ≡ (known s, record s { server_status = known s })
  unfolding _read_status
  read_status_known s = elim (Option-cases s.server_status) [
    | inl q ↦ rw (_read_status, q, file_cases s.file) refl
    | inr (j, q) ↦ rw (_read_status, q) (ap (λ o. (some j, record s { server_status = o })) q)
  ]

  nothing_known : (s : StatusCache J) → _status_exists s ≡ false → known s ≡ none
  unfolding _status_exists _read_cache
  nothing_known s h = elim (Option-cases s.server_status) [
    | inl q ↦ ground (arith, q, file_cases s.file)
    | inr (j, q) ↦ ground (arith, q)
  ]

  -- `load_status` tells the answer of the server, which is then in memory with one more thread that is
  -- to write it; where the server cannot be reached, it tells the status in memory or else in the file,
  -- and the same status is known afterwards.
  pub load_status_lem :
      (answer : Option J) (s : StatusCache J)
      → ((load_status (returned answer) s) ≡ (
        returned answer,
        record s { server_status = answer; last_error = cleared; pending = suc s.pending },
      ))
        × ((load_status (raised unreachable) s).0 ≡ returned (known s))
        × (known (load_status (raised unreachable) s).1 ≡ known s)
  unfolding load_status failed start_write
  load_status_lem answer s =
      let noted = record s { last_error = failed_with unreachable } in
      (
        refl,
        ground (arith, nothing_known noted, ap (λ p. p.0) (read_status_known noted)),
        ground (
          arith,
          nothing_known noted,
          ap (λ p. known p.1) (read_status_known noted),
          file_cases s.file,
        ),
      )

  keep_loaded-memory :
      (p : Outcome (Option J) × StatusCache J) (o : Option J)
      → (keep_loaded p).0 ≡ returned o
      → (keep_loaded p).1.server_status ≡ o
  keep_loaded-memory (raised f, s) o h = cc
  keep_loaded-memory (returned r, s) o h = cc

  read_or_load-memory :
      (answer : Answer J) (p : Option J × StatusCache J) (o : Option J)
      → (read_or_load answer p).0 ≡ returned o
      → (read_or_load answer p).1.server_status ≡ o
  read_or_load-memory answer (some j, s) o h = cc
  read_or_load-memory answer (none, s) o h =
      keep_loaded-memory (load_status answer (record s { server_status = none })) o h

  -- what is told is in memory afterwards
  read_status-memory :
      (answer : Answer J) (s : StatusCache J) (o : Option J)
      → (read_status answer s).0 ≡ returned o
      → (read_status answer s).1.server_status ≡ o
  unfolding read_status
  read_status-memory answer s o h = elim (Option-cases s.server_status) [
    | inl q ↦ ground (arith, q, h, read_or_load-memory answer (_read_status s) o)
    | inr (j, q) ↦ ground (arith, q, h)
  ]

  read_status-kept :
      (answer : Answer J) (s : StatusCache J) (j : J)
      → s.server_status ≡ some j
      → read_status answer s ≡ (returned (some j), s)
  unfolding read_status
  read_status-kept answer s j q =
      rw (read_status, q) (ap (λ o. (returned (some j), record s { server_status = o })) q)

  run_thread-memory :
      (can_write : Bool) (s : StatusCache J)
      → (run_thread can_write s).server_status ≡ s.server_status
  unfolding run_thread
  run_thread-memory can_write s = elim (Zero-cases s.pending) [
    | inl q ↦ rw (run_thread, q) refl
    | inr (n, q) ↦ rw (run_thread, q) refl
  ]

  -- Once `read_status` has told a status, it tells the same again without asking the server, whatever
  -- that would answer, also after the threads that write the file have run.
  pub read_status_again :
      (first second : Answer J) (s : StatusCache J) (j : J) (can_write : Bool)
      → (read_status first s).0 ≡ returned (some j)
      → let t = run_thread can_write (read_status first s).1 in
        read_status second t ≡ (returned (some j), t)
  read_status_again first second s j can_write h =
      read_status-kept second (run_thread can_write (read_status first s).1) j (
        run_thread-memory can_write (read_status first s).1 ∙ read_status-memory first s (some j) h)
