-- ===== src/Repos/YumFile/Laws.antt =====
-- How the sections of a file change, and the identity of a repository that is read from one.
use subscription_manager.Base.{
  ◌≡◌, refl, ◌∙◌, String, Bool, true, false, ◌||◌, Option, some, List, [], ◌∷◌, all, contains, ◌==◌,
  string_eq, arith, Bool-cases, inl, inr,
}
use subscription_manager.Base.Dict.{Dict, keys, has}
use subscription_manager.Base.Result.{ok}
use subscription_manager.Repos.Repo.{
  Property, properties, Repo, set_item, _clean_id, set_values, set_defaults, new_repo, items,
}
use subscription_manager.Repos.YumFile.{
  IniParser, IniLaws, is_default, remove_options, set_options, update, add, on_disk,
  _configparsers_equal, _has_changed, write,
}

set_values-id :
    (existing : List (String × String)) (repo : Repo) → (set_values existing repo).id ≡ repo.id
unfolding set_values set_item
set_values-id [] repo = refl
set_values-id ((key, value) ∷ existing) repo = elim (Bool-cases (value == "")) [
  | inl e ↦ rw (set_values, e) (set_values-id existing repo)
  | inr e ↦ rw (set_values, e) (set_values-id existing (set_item key (some value) repo))
]

set_defaults-id :
    (props : Dict String Property) (repo : Repo) → (set_defaults props repo).id ≡ repo.id
unfolding set_defaults set_item
set_defaults-id [] repo = refl
set_defaults-id ((key, (m, d)) ∷ props) repo = elim (Bool-cases (has key repo.values)) [
  | inl e ↦ rw (set_defaults, e) (set_defaults-id props repo)
  | inr e ↦ rw (set_defaults, e) (set_defaults-id props (set_item key d repo))
]

pub new_repo-id :
    (s : String) (existing : List (String × String)) → (new_repo s existing).id ≡ _clean_id s
unfolding new_repo
new_repo-id s existing = set_defaults-id properties _ ∙ set_values-id existing _

module _ {F : Type 0} (ini : IniParser F) where
  abbrev pub in_file : String → F → Bool
  in_file t f = contains (ini.sections f) t

module _ {F : Type 0} (ini : IniParser F) (laws : IniLaws ini) where
  set_options-sections :
      (s t : String) (options' : List (String × String)) (f : F)
      → in_file ini s f ≡ true
      → in_file ini t (set_options ini s options' f) ≡ in_file ini t f
  set_options-sections s t [] f h = refl
  set_options-sections s t ((k, v) ∷ options') f h = ground (
    arith,
    set_options-sections s t options' (ini.set s k v f),
    laws.kept_by_set s k v t f,
    laws.kept_by_set s k v s f,
  )

  remove_options-sections :
      (s t : String) (ks : List String) (f : F)
      → in_file ini t (remove_options ini s ks f) ≡ in_file ini t f
  remove_options-sections s t [] f = refl
  remove_options-sections s t (k ∷ ks) f =
      remove_options-sections s t ks (ini.remove_option s k f) ∙ laws.kept_by_remove s k t f

  pub update-sections :
      (repo : Repo) (t : String) (f : F)
      → in_file ini repo.id f ≡ true
      → in_file ini t (update ini repo f) ≡ in_file ini t f
  unfolding update
  update-sections repo t f h =
      let ks = keys (ini.options repo.id f) in
      set_options-sections repo.id t (items repo) (remove_options ini repo.id ks f)
        (remove_options-sections repo.id repo.id ks f ∙ h)
      ∙ remove_options-sections repo.id t ks f

  pub add-sections :
      (repo : Repo) (f : F)
      → in_file ini repo.id f ≡ false
      → is_default repo.id ≡ false
      → (g : F) × (add ini repo f ≡ ok g)
        × ((t : String) → in_file ini t g ≡ (t == repo.id || in_file ini t f))
  unfolding add
  add-sections repo f h named =
      let (g, e, added) = laws.added repo.id f h named in
      (
        update ini repo g,
        rw (add, e) refl,
        λ t. ground (arith, update-sections repo t g, added t, added repo.id),
      )

  all_sound :
      (keep : String → Bool) (ss : List String) (t : String)
      → all keep ss ≡ true
      → contains ss t ≡ true
      → keep t ≡ true
  all_sound keep [] t h m = cc
  all_sound keep (s ∷ ss) t h m = ground (arith, all_sound keep ss t)

  equal-sections :
      (f g : F) (t : String)
      → _configparsers_equal ini f g ≡ true
      → in_file ini t f ≡ in_file ini t g
  unfolding _configparsers_equal
  equal-sections f g t h = ground (
    arith,
    all_sound (contains (ini.sections g)) (ini.sections f) t,
    all_sound (contains (ini.sections f)) (ini.sections g) t,
  )

  pub write-sections :
      (disk : Option F) (f : F) (t : String)
      → in_file ini t (on_disk ini (write ini disk f)) ≡ in_file ini t f
  unfolding write _has_changed
  write-sections disk f t = elim (Bool-cases (_configparsers_equal ini (on_disk ini disk) f)) [
    | inl same ↦ rw (write, _has_changed, same) (equal-sections (on_disk ini disk) f t same)
    | inr other ↦ rw (write, _has_changed, other) refl
  ]
