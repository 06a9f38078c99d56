-- ===== src/Base/Lists.antt =====
-- Lists measured by native numbers, and predicates on lists by recursion.
use Prim.Native.Nat.{ℕ, suc, ◌+◌}
use mathlib.Core.Path.{◌≡◌, refl}
use mathlib.Core.Logic.{inl, inr}
use mathlib.Core.Bool.{Bool, true, false, ◌&&◌}
use mathlib.Core.List.{List, [], ◌∷◌, ◌++◌}
use native.Mathlib.Omega.{arith}
use subscription_manager.Base.Equality.{Eq, contains, Bool-cases, if◌then◌else◌}

module _ {ℓ} {A : Type ℓ} where
  abbrev pub length : List A → ℕ
  length [] = 0
  length (x ∷ xs) = suc (length xs)

  pub length-append : (xs ys : List A) → length (xs ++ ys) ≡ length xs + length ys
  length-append [] ys = omega arith
  length-append (x ∷ xs) ys = omega (arith, length-append xs ys)

  -- `[x for x in xs if keep(x)]`
  abbrev pub filter : (A → Bool) → List A → List A
  filter keep [] = []
  filter keep (x ∷ xs) = let rest = filter keep xs in if keep x then x ∷ rest else rest

  -- `any(test(x) for x in xs)`
  abbrev pub any : (A → Bool) → List A → Bool
  any test [] = false
  any test (x ∷ xs) = if test x then true else any test xs

  -- `all(test(x) for x in xs)`
  abbrev pub all : (A → Bool) → List A → Bool
  all test [] = true
  all test (x ∷ xs) = if test x then all test xs else false

-- A property of every element.
abbrev pub All {ℓ κ} : {A : Type ℓ} → (A → Type κ) → List A → Type κ
All P [] = Unit
All P (x ∷ xs) = P x × All P xs

module _ {ℓ} {A : Type ℓ} ⦃e : Eq A⦄ where
  pub contains-filter :
      (keep : A → Bool) (a : A) (xs : List A)
      → contains (filter keep xs) a ≡ (contains xs a && keep a)
  contains-filter keep a [] = refl
  contains-filter keep a (x ∷ xs) = ground (arith, contains-filter keep a xs)

  -- A test that holds of some element holds of one that is in the list.
  pub any_sound :
      (test : A → Bool) (xs : List A)
      → any test xs ≡ true
      → (a : A) × (contains xs a ≡ true) × (test a ≡ true)
  any_sound test [] h = cc
  any_sound test (x ∷ xs) h = elim (Bool-cases (test x)) [
    | inl yes' ↦ (x, ground arith, yes')
    | inr no' ↦ let (a, m, t) = any_sound test xs (ground (arith, no')) in (a, ground (arith, m), t)
  ]

  pub any_complete :
      (test : A → Bool) (xs : List A) (a : A)
      → contains xs a ≡ true
      → test a ≡ true
      → any test xs ≡ true
  any_complete test [] a m t = cc
  any_complete test (x ∷ xs) a m t = ground (arith, any_complete test xs a)
