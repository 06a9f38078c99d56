-- ===== src/Locks/Tests.antt =====
-- Two processes that take the lock one after the other, and two that disturb each other.
use subscription_manager.Base.{
  ◌≡◌, refl, String, String-discrete, ℕ_discrete, true, false, some, List, [], ◌∷◌, ◌++◌, All, all,
  ◌==◌, nat_eq, arith,
}
use subscription_manager.Base.Slashes.{size}
use subscription_manager.Locks.{
  Call, process_of, start, exit, looks, creates, opens, acquires, releases, number, valid, look,
  create, open_file, round, wait, signal, acquired, acquire, release, step, run, attempt, initial,
}
use subscription_manager.Locks.Invariant.{holds, Undisturbed, done, starts, tries, frees}
use subscription_manager.Locks.Exclusion.{mutual_exclusion, handover}

one_digit :
    (calls : List Call)
    → all (λ c. size (process_of c) == 1) calls ≡ true
    → All (λ c. size (process_of c) ≡ 1) calls
one_digit [] h = tt
one_digit (c ∷ calls) h = (ground (arith, h), one_digit calls (ground (arith, h)))

abbrev calls : List Call
calls = start true "1" ∷ start true "2" ∷ attempt false "1" ++ attempt false "2"

calls-Undisturbed : Undisturbed calls
calls-Undisturbed = starts true "1" (starts true "2" (tries false "1" (tries false "2" done)))

abbrev handed : List Call
handed =
    start true "1" ∷ start true "2" ∷ attempt false "1"
    ++ attempt false "2"
    ++ (releases false "1" ∷ attempt false "2")
    ++ attempt false "1"

handed-Undisturbed : Undisturbed handed
handed-Undisturbed = starts true "1" (
    starts true "2" (
      tries false "1" (tries false "2" (frees false "1" (tries false "2" (tries false "1" done))))))

mutual_exclusion_example : ◌≡◌ {A = String} "2" "2" × (number (run handed initial) ≡ some "2")
unfolding run step look create open_file acquire round wait valid release signal acquired
    String-discrete ℕ_discrete
mutual_exclusion_example =
    mutual_exclusion 1 handed "2" "2" (omega arith) (one_digit handed refl) handed-Undisturbed refl
      refl

handover_example :
    holds "2" (run (releases false "1" ∷ attempt false "2") (run calls initial)) ≡ true
unfolding run step look create open_file acquire round wait valid String-discrete ℕ_discrete
handover_example =
    handover 1 calls "1" "2" (omega arith) (one_digit calls refl) calls-Undisturbed refl refl refl
      refl refl

-- both look before either creates the file, and the second one cuts off the file of the holder
abbrev disturbed : List Call
disturbed =
    start true "1"
    ∷ start true "2"
    ∷ looks "1"
    ∷ looks "2"
    ∷ creates "1"
    ∷ opens "1"
    ∷ acquires false "1"
    ∷ creates "2"
    ∷ opens "2"
    ∷ acquires false "2"
    ∷ []

two_holders :
    (holds "1" (run disturbed initial) ≡ true) × (holds "2" (run disturbed initial) ≡ true)
unfolding run step look create open_file acquire round wait valid String-discrete ℕ_discrete
two_holders = (refl, refl)

-- the second one opens the file of the first, which that unlinks, and a third one makes a new file
abbrev unlinked : List Call
unlinked =
    (start true "1" ∷ start true "2" ∷ start true "3" ∷ attempt false "1")
    ++ (looks "2"
        ∷ creates "2"
        ∷ opens "2"
        ∷ releases false "1"
        ∷ exit "1"
        ∷ acquires false "2"
        ∷ [])
    ++ attempt false "3"

two_files : (holds "2" (run unlinked initial) ≡ true) × (holds "3" (run unlinked initial) ≡ true)
unfolding run step look create open_file acquire round wait valid release signal acquired
    String-discrete ℕ_discrete
two_files = (refl, refl)
