-- ===== src/Locks.antt =====
-- `LockFile` and `Lock` of src/subscription_manager/lock.py: a file that holds the number of the process
-- that owns the lock. `LockFile.open` creates a missing file without a lock by flock, so that its parts are
-- steps of their own. Process numbers are decimal texts, and the file holds only what this code writes.
pub mod Invariant
pub mod Exclusion
mod Tests
use subscription_manager.Base.{
  ℕ, zero, suc, ◌-◌, String, Bool, true, false, not, ◌&&◌, ◌||◌, Option, none, some, is_some,
  nat_eq, List, [], ◌∷◌, ltb, ◌==◌, string_eq, if◌then◌else◌,
}

-- A process with its lock: whether it runs, whether it could use the directory of locks, the depth, whether
-- `open` found no file and is about to create it, and the file that it has open.
pub record Process : Type 0 where
  pub running : Bool
  pub lockdir : Bool
  pub depth : ℕ
  creating : Bool
  pub fp : Option ℕ

-- The file that has the name of the lock file, if one has, what the files hold, the number of the next new
-- file, and the processes by their numbers. A file that was unlinked stays for those that have it open.
pub record State : Type 0 where
  pub file : Option ℕ
  pub content : ℕ → String
  pub next : ℕ
  pub process : String → Process

-- what the lock file holds
abbrev pub number : State → Option String
number s = elim s.file [ none ↦ none | some i ↦ some (s.content i) ]

abbrev set_process : String → Process → State → State
set_process p x s = record s { process = λ q. if q == p then x else s.process q }

abbrev set_content : ℕ → String → State → State
set_content i text s = record s { content = λ j. if j == i then text else s.content j }

-- What a file holds after `seek(0)` and a write, which cuts nothing off.
unfoldable pub overwrite : String → String → String
overwrite String.[] old = old
overwrite (String.◌∷◌ c new') String.[] = String.◌∷◌ c new'
overwrite (String.◌∷◌ c new') (String.◌∷◌ d old) = String.◌∷◌ c (overwrite new' old)

-- `valid`: signal 0 reaches the process
unfoldable pub valid : State → String → Bool
valid s content = not (content == "") && (s.process content).running

-- the test in `open`, by notcreated()
unfoldable pub look : String → State → State
look p s = set_process p (record (s.process p) { creating = not (is_some s.file) }) s

-- `open(path, "w")`, `setpid` and `close`: a file that another process has created meanwhile is cut off
abbrev created : String → State → State
created p s = elim s.file [
  | some i ↦ set_content i p s
  | none ↦ set_content s.next p (record s { file = some s.next; next = suc s.next })
]

abbrev no_longer_creating : String → State → State
no_longer_creating p s = set_process p (record (s.process p) { creating = false }) s

unfoldable pub create : String → State → State
create p s = if (s.process p).creating then no_longer_creating p (created p s) else s

-- `open(path, "r+")`; where the file is missing the process has none open, and `acquire` ends
unfoldable pub open_file : String → State → State
open_file p s = set_process p (record (s.process p) { fp = s.file }) s

-- How a round of the loop of `acquire` ends: the lock is taken, with what the file holds then, the process is
-- to wait, or an OSError was caught, since another process had the file locked.
pub data Round : Type 0 where
  taken : String → Round
  waiting : Round
  failed : Round

-- From `flock` on: `getpid`, `mypid`, `valid` and `setpid`, on what the file holds; `busy` is whether
-- another process has the file locked by flock.
unfoldable pub round : String → Bool → String → State → Round
unfolding valid overwrite
round p busy content s =
    if busy
    then failed
    else if content == p
    then taken content
    else if valid s content
    then waiting
    else taken (overwrite p content)

-- `P` and `V`
unfoldable pub wait : String → State → State
wait p s = set_process p (record (s.process p) { depth = suc (s.process p).depth }) s

unfoldable pub signal : String → State → State
signal p s = set_process p (record (s.process p) { depth = (s.process p).depth - 1 }) s

abbrev pub after_round : String → ℕ → Round → State → State
after_round p i (taken content) s = wait p (set_content i content s)
after_round p i waiting s = s
after_round p i failed s = s

-- `close`
abbrev close : String → State → State
close p s = set_process p (record (s.process p) { fp = none }) s

-- a round of `acquire` behind the opening of the file
unfoldable pub acquire : String → Bool → State → State
unfolding round wait
acquire p busy s = elim (s.process p).fp [
  | none ↦ s
  | some i ↦ close p (after_round p i (round p busy (s.content i) s) s)
]

-- What `acquire` returns after a round, from its argument; `none` where it goes on.
unfoldable pub returned : Option Bool → Round → Option (Option Bool)
returned blocking (taken content) = elim blocking [ none ↦ some none | some b ↦ some (some true) ]
returned blocking waiting = elim blocking [
  | none ↦ none
  | some true ↦ none
  | some false ↦ some (some false)
]
returned blocking failed = elim blocking [ none ↦ some none | some b ↦ some (some true) ]

-- `acquired`
unfoldable pub acquired : String → State → Bool
acquired p s = (s.process p).lockdir && ltb 0 (s.process p).depth

-- `open` and `delete` of a lock file, which raises an OSError where another process has it locked by flock; a
-- missing file is created first
abbrev ensured : String → State → State
ensured p s = if is_some s.file then s else created p s

abbrev delete_file : Bool → String → State → State
delete_file busy p s =
    let t = ensured p s in
    elim t.file [
      | none ↦ t
      | some i ↦
          if not busy && (t.content i == p || not (valid t (t.content i)))
          then record t { file = none }
          else t
    ]

unfoldable pub release : String → Bool → State → State
unfolding signal acquired valid
release p busy s =
    if not (acquired p s)
    then s
    else let t = signal p s in if acquired p t then t else delete_file busy p t

-- What processes do, by their numbers. A process starts with a lock of depth 0, and may use the directory
-- of locks or not. To acquire the lock, it looks for the file, creates it if it was missing, opens it, and
-- makes the rest of a round; between these steps, other processes can make theirs.
pub data Call : Type 0 where
  start : (lockdir : Bool) → String → Call
  exit : String → Call
  looks : String → Call
  creates : String → Call
  opens : String → Call
  acquires : (busy : Bool) → String → Call
  releases : (busy : Bool) → String → Call

abbrev pub process_of : Call → String
process_of (start lockdir p) = p
process_of (exit p) = p
process_of (looks p) = p
process_of (creates p) = p
process_of (opens p) = p
process_of (acquires busy p) = p
process_of (releases busy p) = p

abbrev fresh : Bool → Process
fresh lockdir = record { running = true; lockdir = lockdir; depth = 0; creating = false; fp = none }

-- `acquire` and `release` of a process that runs; both return at once without a directory of locks
abbrev may_lock : String → State → Bool
may_lock p s = (s.process p).running && (s.process p).lockdir

-- A call of a process that does not run, and a start of one that does, change nothing.
unfoldable pub step : Call → State → State
unfolding look create open_file acquire release
step (start lockdir p) s = if (s.process p).running then s else set_process p (fresh lockdir) s
step (exit p) s = set_process p (record (s.process p) { running = false; fp = none }) s
step (looks p) s = if may_lock p s then look p s else s
step (creates p) s = if may_lock p s then create p s else s
step (opens p) s = if may_lock p s then open_file p s else s
step (acquires busy p) s = if may_lock p s then acquire p busy s else s
step (releases busy p) s = if may_lock p s then release p busy s else s

unfoldable pub run : List Call → State → State
unfolding step
run [] s = s
run (c ∷ calls) s = run calls (step c s)

-- a round of `acquire`
abbrev pub attempt : Bool → String → List Call
attempt busy p = looks p ∷ creates p ∷ opens p ∷ acquires busy p ∷ []

-- no process runs, and there is no lock file
abbrev pub initial : State
initial = record {
  file = none;
  content = λ i. "";
  next = 0;
  process = λ p. record { running = false; lockdir = true; depth = 0; creating = false; fp = none };
}
