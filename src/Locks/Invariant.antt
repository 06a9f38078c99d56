-- ===== src/Locks/Invariant.antt =====
-- The number of a process that holds the lock is in the lock file, where no process disturbs another one.
use subscription_manager.Base.{
  ◌≡◌, refl, sym, ap, ◌∙◌, ℕ, ◌<◌, String, Bool, true, false, ◌&&◌, none, nat_eq, some, List, [],
  ◌∷◌, All, ltb, ◌==◌, string_eq, arith, String-discrete, Bool-cases, Option-cases, inl, inr,
}
use subscription_manager.Base.Slashes.{size}
use subscription_manager.Locks.{
  State, Round, overwrite, valid, number, look, create, open_file, round, wait, signal, acquire,
  after_round, acquired, release, Call, start, exit, looks, creates, opens, acquires, releases,
  process_of, step, run, initial,
}

overwrite-same : (new' old : String) → size old ≡ size new' → overwrite new' old ≡ new'
unfolding overwrite
overwrite-same String.[] String.[] h = refl
overwrite-same String.[] (String.◌∷◌ d old) h = absurd (omega (arith, h))
overwrite-same (String.◌∷◌ c new') String.[] h = refl
overwrite-same (String.◌∷◌ c new') (String.◌∷◌ d old) h =
    ap (λ t. String.◌∷◌ c t) (overwrite-same new' old (omega (arith, h)))

-- whether a process runs and holds the lock
abbrev pub holds : String → State → Bool
holds p s = (s.process p).running && ltb 0 (s.process p).depth

-- A holder's number is in the file, and what is in the file has the width of all numbers.
pub record Inv (width : ℕ) (s : State) : Type 0 where
  pub owner : (p : String) → holds p s ≡ true → number s ≡ some p
  sized : (content : String) → number s ≡ some content → size content ≡ width

not_blank : (content : String) → 0 < size content → (content == "") ≡ false
not_blank content h = elim (String-discrete content "") [
  | yes blank ↦ absurd (omega (arith, h, ap size blank))
  | no there ↦ ground (arith, there)
]

-- No process does anything while another one is in a round of `acquire`: from its look at the file to the
-- end of the round, its steps stand together.
pub data Undisturbed : List Call → Type 0 where
  done : Undisturbed []
  starts :
      {calls : List Call} (lockdir : Bool) (p : String)
      → Undisturbed calls
      → Undisturbed (start lockdir p ∷ calls)
  exits : {calls : List Call} (p : String) → Undisturbed calls → Undisturbed (exit p ∷ calls)
  tries :
      {calls : List Call} (busy : Bool) (p : String)
      → Undisturbed calls
      → Undisturbed (looks p ∷ creates p ∷ opens p ∷ acquires busy p ∷ calls)
  frees :
      {calls : List Call} (busy : Bool) (p : String)
      → Undisturbed calls
      → Undisturbed (releases busy p ∷ calls)

-- the three steps that open the file
abbrev pub opened : String → State → State
opened p s = step (opens p) (step (creates p) (step (looks p) s))

-- nothing else of a process changes while a file is opened
pub opened-process :
    (p q : String) (s : State)
    → ((opened p s).process q).running ≡ (s.process q).running
      × ((opened p s).process q).lockdir ≡ (s.process q).lockdir
      × ((opened p s).process q).depth ≡ (s.process q).depth
unfolding step look create open_file
opened-process p q s = (ground arith, ground arith, ground arith)

-- the file is there then, and holds what it held, or the number of the process where it is new
pub opened-number :
    (p : String) (s : State)
    → ((s.process p).running && (s.process p).lockdir) ≡ true
    → (number (opened p s) ≡ (elim (number s) [ none ↦ some p | some text ↦ some text ]))
      × (((opened p s).process p).fp ≡ (opened p s).file)
unfolding step look create open_file
opened-number p s may = elim (Option-cases s.file) [
  | inl missing ↦ (ground (arith, may, missing), ground (arith, may, missing))
  | inr (i, there) ↦ (ground (arith, may, there), ground (arith, may, there))
]

-- a process that may not lock opens nothing
opened-none :
    (p : String) (s : State)
    → ((s.process p).running && (s.process p).lockdir) ≡ false
    → opened p s ≡ s
unfolding step
opened-none p s may = rw (step, may, may, may) refl

module _ (width : ℕ) (s : State) (inv : Inv width s) where
  start-Inv : (lockdir : Bool) (p : String) → Inv width (step (start lockdir p) s)
  unfolding step
  start-Inv lockdir p = record {
    owner = λ q h. ground (arith, inv.owner q, h);
    sized = λ text h. ground (arith, inv.sized text, h);
  }

  exit-Inv : (p : String) → Inv width (step (exit p) s)
  unfolding step
  exit-Inv p = record {
    owner = λ q h. ground (arith, inv.owner q, h);
    sized = λ text h. ground (arith, inv.sized text, h);
  }

  opened-Inv : (p : String) → size p ≡ width → Inv width (opened p s)
  opened-Inv p h = elim (Bool-cases ((s.process p).running && (s.process p).lockdir)) [
    | inr not_may ↦ rw (opened-none p s not_may) inv
    | inl may ↦ record {
      owner =
          λ q k. ground (arith, (opened-number p s may).0, opened-process p q s, inv.owner q, k);
      sized = λ text k. elim (Option-cases (number s)) [
        | inl missing ↦ ground (arith, (opened-number p s may).0, missing, k, h)
        | inr (old, there) ↦
            ground (arith, (opened-number p s may).0, inv.sized old there, there, k)
      ];
    }
  ]

  -- the number of a holder is not blank
  holder-size : (q : String) → holds q s ≡ true → size q ≡ width
  holder-size q h = inv.sized q (inv.owner q h)

  -- the process of a holder is there for every other one
  holder-valid : (q : String) → 0 < width → holds q s ≡ true → valid s q ≡ true
  unfolding valid
  holder-valid q wide h = ground (arith, not_blank q (omega (arith, holder-size q h, wide)), h)

  -- A round on the lock file that takes the lock leaves the number of its process there, and no other holder
  -- is there.
  round-taken :
      (p : String) (busy : Bool) (i : ℕ) (text : String)
      → 0 < width
      → size p ≡ width
      → s.file ≡ some i
      → round p busy (s.content i) s ≡ Round.taken text
      → (text ≡ p) × ((q : String) → holds q s ≡ true → q ≡ p)
  unfolding round
  round-taken p busy i text wide h there e =
      let fits = inv.sized (s.content i) (ground (arith, there)) in
      (
        ground (arith, e, overwrite-same p (s.content i) (fits ∙ sym h)),
        λ q k. ground (arith, there, e, inv.owner q k, holder-valid q wide k),
      )

  after_round-Inv :
      (p : String) (busy : Bool) (i : ℕ) (r : Round)
      → 0 < width
      → size p ≡ width
      → s.file ≡ some i
      → round p busy (s.content i) s ≡ r
      → Inv width (after_round p i r s)
  unfolding wait
  after_round-Inv p busy i (Round.taken text) wide h there e = record {
    owner = λ q k. ground (
      arith,
      there,
      (round-taken p busy i text wide h there e).0,
      (round-taken p busy i text wide h there e).1 q,
      k,
    );
    sized = λ c k. ground (arith, there, (round-taken p busy i text wide h there e).0, h, k);
  }
  after_round-Inv p busy i Round.waiting wide h there e = inv
  after_round-Inv p busy i Round.failed wide h there e = inv

  acquires-Inv :
      (busy : Bool) (p : String)
      → 0 < width
      → size p ≡ width
      → (((s.process p).running && (s.process p).lockdir) ≡ true → (s.process p).fp ≡ s.file)
      → Inv width (step (acquires busy p) s)
  unfolding step acquire
  acquires-Inv busy p wide h opened' =
      elim (Bool-cases ((s.process p).running && (s.process p).lockdir)) [
        | inr not_may ↦ rw (step, not_may) inv
        | inl may ↦ elim (Option-cases s.file) [
          | inl missing ↦ rw (step, may, acquire, opened' may, missing) inv
          | inr (i, there) ↦
              let after =
                after_round-Inv p busy i (round p busy (s.content i) s) wide h there refl in
              rw (step, may, acquire, opened' may, there)
                (record {
                  owner = λ q k. ground (arith, after.owner q, k);
                  sized = λ text k. ground (arith, after.sized text, k);
                })
        ]
      ]

  releases-Inv :
      (busy : Bool) (p : String) → 0 < width → size p ≡ width → Inv width (step (releases busy p) s)
  unfolding step release acquired signal
  releases-Inv busy p wide h = elim (Option-cases s.file) [
    | inl missing ↦ record {
      owner = λ q k. ground (arith, inv.owner q, inv.owner p, k, missing);
      sized = λ text k. ground (arith, inv.sized text, inv.owner p, h, k, missing);
    }
    | inr (i, there) ↦ record {
      owner = λ q k. ground (arith, inv.owner q, inv.owner p, k, there, holder-valid q wide);
      sized = λ text k. ground (arith, inv.sized text, k, there);
    }
  ]

-- a round that no other process disturbs
tries-Inv :
    (width : ℕ) (s : State) (busy : Bool) (p : String)
    → 0 < width
    → size p ≡ width
    → Inv width s
    → Inv width (step (acquires busy p) (opened p s))
tries-Inv width s busy p wide h inv =
    acquires-Inv width (opened p s) (opened-Inv width s inv p h) busy p wide h
      (λ may. (opened-number p s (ground (arith, may, opened-process p p s))).1)

pub run-Inv :
    (width : ℕ) (calls : List Call) (s : State)
    → 0 < width
    → All (λ c. size (process_of c) ≡ width) calls
    → Undisturbed calls
    → Inv width s
    → Inv width (run calls s)
unfolding run
run-Inv width [] s wide h done inv = inv
run-Inv width (_ ∷ calls) s wide h (starts lockdir p u) inv =
    run-Inv width calls (step (start lockdir p) s) wide h.1 u (start-Inv width s inv lockdir p)
run-Inv width (_ ∷ calls) s wide h (exits p u) inv =
    run-Inv width calls (step (exit p) s) wide h.1 u (exit-Inv width s inv p)
run-Inv width (_ ∷ _ ∷ _ ∷ _ ∷ calls) s wide h (tries busy p u) inv =
    run-Inv width calls (step (acquires busy p) (opened p s)) wide h.1.1.1.1 u
      (tries-Inv width s busy p wide h.0 inv)
run-Inv width (_ ∷ calls) s wide h (frees busy p u) inv =
    run-Inv width calls (step (releases busy p) s) wide h.1 u
      (releases-Inv width s inv busy p wide h.0)

pub initial-Inv : (width : ℕ) → Inv width initial
initial-Inv width = record { owner = λ q k. ground (arith, k); sized = λ text k. ground (arith, k) }
