-- ===== src/ProductIds/Manager/Marking.antt =====
-- What the loop of `update_installed` marks.
use subscription_manager.Base.{
  ◌≡◌, refl, sym, ap, ◌∙◌, String, Bool, true, false, not, ◌&&◌, Option, none, some, List, [], ◌∷◌,
  ◌++◌, filter, any, all, contains, ◌==◌, string_eq, if◌then◌else◌, arith, Bool-cases, Option-cases,
  inl, inr,
}
use subscription_manager.ProductIds.Database.{Content, find_repos, repos_or_empty}
use subscription_manager.ProductIds.Manager.{
  Product, State, find_by_product, _is_workstation, _is_desktop, Marked, is_unknown_repo, Calls,
  is_newer, mark, consider, mark_loop,
}

-- the products and repositories of the enabled repositories that are active
abbrev pub active_of : List String → List (Product × String) → List (Product × String)
active_of active [] = []
active_of active ((p, repo) ∷ enabled) =
    let rest = active_of active enabled in if contains active repo then (p, repo) ∷ rest else rest

abbrev pub products_of : List (Product × String) → List Product
products_of [] = []
products_of ((p, repo) ∷ pairs) = p ∷ products_of pairs

-- the last product with an identity
abbrev pub last_of : String → List Product → Option Product
last_of t [] = none
last_of t (p ∷ products) = elim (last_of t products) [
  | some q ↦ some q
  | none ↦ if t == p.id then some p else none
]

abbrev pub or_else : Option Product → Option Product → Option Product
or_else (some p) o = some p
or_else none o = o

-- the repositories of an identity that the database does not know for it
abbrev pub new_repos : String → Content → List (Product × String) → List String
new_repos t db [] = []
new_repos t db ((p, repo) ∷ pairs) =
    let rest = new_repos t db pairs in
    if t == p.id && is_unknown_repo repo (find_repos p.id db) then repo ∷ rest else rest

abbrev pub with_repos : Option (List String) → List String → Option (List String)
with_repos old [] = old
with_repos old (r ∷ repos) = some (repos_or_empty old ++ (r ∷ repos))

-- a product that is neither a workstation nor a desktop of RHEL 5
abbrev pub is_ordinary : Product → Bool
is_ordinary p = not (_is_workstation p) && not (_is_desktop p)

pub append_one : {A : Type 0} (xs ys : List A) (x : A) → (xs ++ (x ∷ [])) ++ ys ≡ xs ++ (x ∷ ys)
append_one [] ys x = refl
append_one (z ∷ xs) ys x = ap (λ l. z ∷ l) (append_one xs ys x)

pub append_nil : {A : Type 0} (xs : List A) → xs ++ [] ≡ xs
append_nil [] = refl
append_nil (x ∷ xs) = ap (λ l. x ∷ l) (append_nil xs)

-- the repositories of an identity among pairs
abbrev pub all_repos : String → List (Product × String) → List String
all_repos t [] = []
all_repos t ((p, repo) ∷ pairs) =
    let rest = all_repos t pairs in if t == p.id then repo ∷ rest else rest

module _ (calls : Calls) (s : State) where
  -- whether a product is to be installed, to be updated, or one of both
  abbrev pub is_missing : Product → Bool
  is_missing p = elim (find_by_product p.id s) [ none ↦ true | some old ↦ false ]

  abbrev pub is_outdated : Product → Bool
  is_outdated p = elim (find_by_product p.id s) [ none ↦ false | some old ↦ is_newer calls p old ]

  abbrev pub is_wanted : Product → Bool
  is_wanted p = elim (find_by_product p.id s) [ none ↦ true | some old ↦ is_newer calls p old ]

  abbrev pub unknown_pairs : List (Product × String) → List (Product × String)
  unknown_pairs [] = []
  unknown_pairs ((p, repo) ∷ pairs) =
      let rest = unknown_pairs pairs in
      if is_unknown_repo repo (find_repos p.id s.db) then (p, repo) ∷ rest else rest

  -- what the loop has marked after some pairs
  abbrev pub marked_after : List (Product × String) → Marked → Marked
  marked_after pairs m = record {
    products_to_install = m.products_to_install ++ filter is_missing (products_of pairs);
    products_to_update = m.products_to_update ++ filter is_outdated (products_of pairs);
    products_to_update_db = m.products_to_update_db ++ unknown_pairs pairs;
  }

  -- the fields of what is marked, one by one
  Marked-path :
      (m k : Marked)
      → m.products_to_install ≡ k.products_to_install
      → m.products_to_update ≡ k.products_to_update
      → m.products_to_update_db ≡ k.products_to_update_db
      → m ≡ k
  Marked-path m k p q r = λ i. record {
    products_to_install = p i;
    products_to_update = q i;
    products_to_update_db = r i;
  }

  mark_lem :
      (p : Product) (repo : String) (pairs : List (Product × String)) (m : Marked)
      → marked_after pairs (mark calls p repo s m) ≡ marked_after ((p, repo) ∷ pairs) m
  unfolding mark
  mark_lem p repo pairs m =
      Marked-path (marked_after pairs (mark calls p repo s m)) (marked_after ((p, repo) ∷ pairs) m)
        (ground (arith, append_one m.products_to_install (filter is_missing (products_of pairs)) p))
        (ground (arith, append_one m.products_to_update (filter is_outdated (products_of pairs)) p))
        (ground (arith, append_one m.products_to_update_db (unknown_pairs pairs) (p, repo)))

  marked_after-nil : (m : Marked) → marked_after [] m ≡ m
  marked_after-nil m =
      Marked-path (marked_after [] m) m (append_nil m.products_to_install)
        (append_nil m.products_to_update) (append_nil m.products_to_update_db)

  consider_ordinary :
      (p : Product) (repo : String) (m : Marked)
      → is_ordinary p ≡ true
      → consider calls p repo (m, s) ≡ (mark calls p repo s m, s)
  unfolding consider
  consider_ordinary p repo m h = ground (arith, h)

  pub mark_loop_lem :
      (active : List String) (enabled : List (Product × String)) (m : Marked)
      → all is_ordinary (products_of enabled) ≡ true
      → mark_loop calls active enabled (m, s) ≡ (marked_after (active_of active enabled) m, s)
  unfolding mark_loop
  mark_loop_lem active [] m h = ap (λ k. (k, s)) (sym (marked_after-nil m))
  mark_loop_lem active ((p, repo) ∷ enabled) m h = elim (Bool-cases (contains active repo)) [
    | inl q ↦
        rw (q, consider_ordinary p repo m (ground (arith, h)))
          (mark_loop_lem active enabled (mark calls p repo s m) (ground (arith, h))
            ∙ ap (λ k. (k, s)) (mark_lem p repo (active_of active enabled) m))
    | inr q ↦ rw q (mark_loop_lem active enabled m (ground (arith, h)))
  ]

  -- A product that is not there is installed and never updated, and one that is there is not installed.
  last_of_missing :
      (t : String) (ps : List Product)
      → find_by_product t s ≡ none
      → (last_of t (filter is_outdated ps) ≡ none)
        × (last_of t (filter is_missing ps) ≡ last_of t (filter is_wanted ps))
  last_of_missing t [] q = (refl, refl)
  last_of_missing t (p ∷ ps) q = ground (arith, last_of_missing t ps q, q)

  last_of_found :
      (t : String) (ps : List Product) (old : Product)
      → find_by_product t s ≡ some old
      → (last_of t (filter is_missing ps) ≡ none)
        × (last_of t (filter is_outdated ps) ≡ last_of t (filter is_wanted ps))
  last_of_found t [] old q = (refl, refl)
  last_of_found t (p ∷ ps) old q = ground (arith, last_of_found t ps old q, q)

  pub last_of-wanted :
      (t : String) (ps : List Product)
      → or_else (last_of t (filter is_outdated ps)) (last_of t (filter is_missing ps))
        ≡ last_of t (filter is_wanted ps)
  last_of-wanted t ps = elim (Option-cases (find_by_product t s)) [
    | inl q ↦ ground (arith, last_of_missing t ps q)
    | inr (old, q) ↦ ground (arith, last_of_found t ps old q)
  ]

  -- marked products are ordinary where the enabled ones are
  pub no_desktop_marked :
      (keep : Product → Bool) (active : List String) (enabled : List (Product × String))
      → all is_ordinary (products_of enabled) ≡ true
      → any _is_desktop (filter keep (products_of (active_of active enabled))) ≡ false
  no_desktop_marked keep active [] h = refl
  no_desktop_marked keep active ((p, repo) ∷ enabled) h =
      ground (arith, no_desktop_marked keep active enabled, h)

  pub no_desktop_pairs :
      (active : List String) (enabled : List (Product × String))
      → all is_ordinary (products_of enabled) ≡ true
      → any _is_desktop (products_of (unknown_pairs (active_of active enabled))) ≡ false
  no_desktop_pairs active [] h = refl
  no_desktop_pairs active ((p, repo) ∷ enabled) h =
      ground (arith, no_desktop_pairs active enabled, h)
