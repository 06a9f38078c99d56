-- ===== src/Repos/YumFile.antt =====
-- `YumRepoFile` of src/subscription_manager/repofile.py, over the parser of the package iniparse.
pub mod Laws
use subscription_manager.Base.{
  String, Bool, true, false, not, ◌&&◌, ◌||◌, Option, none, some, List, [], ◌∷◌, contains, all, Eq,
  String-discrete, ◌==◌, string_eq, if◌then◌else◌, ◌≡◌,
}
use subscription_manager.Base.Dict.{Dict, dict_eq, keys}
use subscription_manager.Base.Result.{Result, ok, err}
use subscription_manager.Base.Slashes.{same_letters}
use subscription_manager.Repos.Repo.{Repo, new_repo, items}

-- iniparse.RawConfigParser: what the code calls of it. A file is its sections with their options.
pub record IniParser (F : Type 0) : Type 0 where
  pub empty : F
  pub sections : F → List String
  pub options : String → F → Dict String String
  pub add_section : String → F → Result F
  pub remove_section : String → F → F
  pub set : String → String → String → F → F
  pub remove_option : String → String → F → F

-- a name that the parser refuses for a section: "default", in any case
abbrev pub is_default : String → Bool
is_default s = same_letters s "default"

module _ {F : Type 0} (ini : IniParser F) where
  -- What its documentation says of sections: a new one is added unless it is named "default" in any case,
  -- one is removed, and options are set and removed inside of their sections.
  pub record IniLaws : Type 0 where
    pub added :
        (s : String) (f : F)
        → contains (ini.sections f) s ≡ false
        → is_default s ≡ false
        → (g : F) × (ini.add_section s f ≡ ok g)
          × ((t : String) → contains (ini.sections g) t ≡ (t == s || contains (ini.sections f) t))
    pub removed :
        (s t : String) (f : F)
        → contains (ini.sections (ini.remove_section s f)) t
          ≡ (contains (ini.sections f) t && not (t == s))
    pub kept_by_set :
        (s k v t : String) (f : F)
        → contains (ini.sections f) s ≡ true
        → contains (ini.sections (ini.set s k v f)) t ≡ contains (ini.sections f) t
    pub kept_by_remove :
        (s k t : String) (f : F)
        → contains (ini.sections (ini.remove_option s k f)) t ≡ contains (ini.sections f) t

  abbrev pub remove_options : String → List String → F → F
  remove_options s [] f = f
  remove_options s (k ∷ ks) f = remove_options s ks (ini.remove_option s k f)

  abbrev pub set_options : String → List (String × String) → F → F
  set_options s [] f = f
  set_options s ((k, v) ∷ options') f = set_options s options' (ini.set s k v f)

  unfoldable pub update : Repo → F → F
  update repo f =
      set_options repo.id (items repo) (remove_options repo.id (keys (ini.options repo.id f)) f)

  unfoldable pub add : Repo → F → Result F
  unfolding update
  add repo f = elim (ini.add_section repo.id f) [ err e ↦ err e | ok g ↦ ok (update repo g) ]

  unfoldable pub section : String → F → Option Repo
  section s f = if contains (ini.sections f) s then some (new_repo s (ini.options s f)) else none

  -- Both parsers have the same sections, and each section the same options.
  unfoldable pub _configparsers_equal : F → F → Bool
  _configparsers_equal other f =
      all (contains (ini.sections f)) (ini.sections other)
      && all (contains (ini.sections other)) (ini.sections f)
      && all (λ s. dict_eq (ini.options s f) (ini.options s other)) (ini.sections f)

  -- The contents of a file on the disk, `none` where there is no file.
  abbrev pub on_disk : Option F → F
  on_disk none = ini.empty
  on_disk (some f) = f

  unfoldable pub _has_changed : Option F → F → Bool
  unfolding _configparsers_equal
  _has_changed disk f = not (_configparsers_equal (on_disk disk) f)

  -- the file on the disk after `write`
  unfoldable pub write : Option F → F → Option F
  unfolding _has_changed
  write disk f = if _has_changed disk f then some f else disk
