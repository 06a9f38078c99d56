-- ===== src/Locks/Exclusion.antt =====
-- When two processes never hold the lock together.
use subscription_manager.Base.{
  ◌≡◌, ◌∙◌, ℕ, ◌<◌, String, true, false, ◌&&◌, none, some, List, ◌∷◌, All, nat_eq, string_eq, arith,
}
use subscription_manager.Base.Slashes.{size}
use subscription_manager.Locks.{
  State, number, round, wait, signal, acquire, acquired, release, Call, acquires, releases,
  process_of, step, run, attempt, initial,
}
use subscription_manager.Locks.Invariant.{
  holds, Inv, Undisturbed, opened, opened-process, opened-number, run-Inv, initial-Inv,
}

-- When all process numbers have as many digits, and no process starts, exits, acquires the lock or releases
-- it while another one is in a round of `acquire`, from its test whether the file exists to the end of the
-- round: then however processes do these things, two that run and hold the lock are one, and the lock file
-- holds its number.
pub mutual_exclusion :
    (width : ℕ) (calls : List Call) (p q : String)
    → 0 < width
    → All (λ c. size (process_of c) ≡ width) calls
    → Undisturbed calls
    → holds p (run calls initial) ≡ true
    → holds q (run calls initial) ≡ true
    → (p ≡ q) × (number (run calls initial) ≡ some p)
mutual_exclusion width calls p q wide h u hp hq =
    let inv = run-Inv width calls initial wide h u (initial-Inv width) in
    (ground (arith, inv.owner p hp, inv.owner q hq), inv.owner p hp)

-- what the release of a lock of depth 1 leaves
released-file :
    (width : ℕ) (s : State) (p : String)
    → Inv width s
    → holds p s ≡ true
    → (s.process p).lockdir ≡ true
    → (s.process p).depth ≡ 1
    → number (step (releases false p) s) ≡ none
unfolding step release acquired signal
released-file width s p inv h may once = ground (arith, inv.owner p h, h, may, once)

-- with no file, a round takes the lock
free-taken :
    (q : String) (s : State)
    → number s ≡ none
    → (s.process q).running ≡ true
    → (s.process q).lockdir ≡ true
    → holds q (step (acquires false q) (opened q s)) ≡ true
unfolding step acquire round wait
free-taken q s free runs may =
    let may' : ((s.process q).running && (s.process q).lockdir) ≡ true =
      ground (arith, runs, may) in
    let (there, fp) = opened-number q s may' in
    ground (arith, there, fp, free, opened-process q q s, runs, may)

released-process :
    (p q : String) (s : State)
    → ((step (releases false p) s).process q).running ≡ (s.process q).running
      × ((step (releases false p) s).process q).lockdir ≡ (s.process q).lockdir
unfolding step release acquired signal
released-process p q s = (ground arith, ground arith)

-- When all process numbers have as many digits, and up to then no process does anything while another one is
-- in a round of `acquire`, the release of a lock of depth 1 by its holder, with no other process having the
-- file locked by flock, lets another running process take the lock in the round that it makes next.
pub handover :
    (width : ℕ) (calls : List Call) (p q : String)
    → 0 < width
    → All (λ c. size (process_of c) ≡ width) calls
    → Undisturbed calls
    → holds p (run calls initial) ≡ true
    → ((run calls initial).process p).lockdir ≡ true
    → ((run calls initial).process p).depth ≡ 1
    → ((run calls initial).process q).running ≡ true
    → ((run calls initial).process q).lockdir ≡ true
    → holds q (run (releases false p ∷ attempt false q) (run calls initial)) ≡ true
unfolding run
handover width calls p q wide h u hp may once runs may_q =
    let s = run calls initial in
    let inv = run-Inv width calls initial wide h u (initial-Inv width) in
    let (still, still_may) = released-process p q s in
    free-taken q (step (releases false p) s) (released-file width s p inv hp may once)
      (still ∙ runs) (still_may ∙ may_q)
