-- ===== src/Repos/Repo.antt =====
-- `Repo` of src/subscription_manager/repofile.py, a dictionary that keeps the order in which its keys
-- were first set. Values are texts or `None`; systems without the package debian.deb822 have no others.
use Prim.Native.Char.{Char, code}
use subscription_manager.Base.{
  ℕ, String, Bool, true, false, not, ◌&&◌, ◌||◌, Option, none, some, List, [], ◌∷◌, ◌++◌, leb,
  contains, ◌==◌, string_eq, nat_eq, if◌then◌else◌,
}
use subscription_manager.Base.Dict.{Dict, lookup, insert, erase, has}

-- a property: whether it is mutable, and its default
abbrev pub Property : Type 0
Property = Bool × Option String

-- `Repo.PROPERTIES`
unfoldable pub properties : Dict String Property
properties =
    ("name", (false, none))
    ∷ ("baseurl", (false, none))
    ∷ ("enabled", (true, some "1"))
    ∷ ("gpgcheck", (true, some "1"))
    ∷ ("gpgkey", (false, none))
    ∷ ("sslverify", (true, some "1"))
    ∷ ("sslcacert", (false, none))
    ∷ ("sslclientkey", (false, none))
    ∷ ("sslclientcert", (false, none))
    ∷ ("sslverifystatus", (true, none))
    ∷ ("metadata_expire", (true, none))
    ∷ ("enabled_metadata", (true, some "0"))
    ∷ ("proxy", (false, none))
    ∷ ("proxy_username", (false, none))
    ∷ ("proxy_password", (false, none))
    ∷ ("ui_repoid_vars", (false, none))
    ∷ []

pub record Repo : Type 0 where
  pub id : String
  pub content_type : Option String
  pub order : List String
  pub values : Dict String (Option String)

-- `bool(value)`
abbrev pub truthy : Option String → Bool
truthy none = false
truthy (some t) = not (t == "")

abbrev pub or_none : Option (Option String) → Option String
or_none none = none
or_none (some v) = v

-- `repo.get(key)`
unfoldable pub get : String → Repo → Option String
get key repo = or_none (lookup key repo.values)

-- `repo[key] = value`
unfoldable pub set_item : String → Option String → Repo → Repo
set_item key value repo = record repo {
  order = if contains repo.order key then repo.order else repo.order ++ (key ∷ []);
  values = insert key value repo.values;
}

-- `repo.pop(key, None)`
unfoldable pub del_item : String → Repo → Repo
del_item key repo = record repo { values = erase key repo.values }

abbrev is_between : ℕ → ℕ → Char → Bool
is_between low high c = leb low (code c) && leb (code c) high

-- string.ascii_letters + string.digits + "-_.:"
abbrev pub is_valid_char : Char → Bool
is_valid_char c =
    is_between 97 122 c
    || is_between 65 90 c
    || is_between 48 57 c
    || code c == 45
    || code c == 95
    || code c == 46
    || code c == 58

unfoldable pub _clean_id : String → String
_clean_id String.[] = ""
_clean_id (String.◌∷◌ c repo_id) =
    String.◌∷◌ (if is_valid_char c then c else "-") (_clean_id repo_id)

-- the loop over the existing values
unfoldable pub set_values : List (String × String) → Repo → Repo
unfolding set_item
set_values [] repo = repo
set_values ((key, value) ∷ existing) repo =
    set_values existing (if value == "" then repo else set_item key (some value) repo)

-- the loop over the properties
unfoldable pub set_defaults : Dict String Property → Repo → Repo
unfolding set_item
set_defaults [] repo = repo
set_defaults ((key, (_, default)) ∷ props) repo =
    set_defaults props (if has key repo.values then repo else set_item key default repo)

-- `Repo(repo_id, existing_values)`
unfoldable pub new_repo : String → List (String × String) → Repo
unfolding set_values set_defaults properties _clean_id
new_repo repo_id existing = set_defaults properties (
    set_values existing
      (record { id = _clean_id repo_id; content_type = none; order = []; values = [] }))

-- `self[k]` where it is neither missing nor falsy
abbrev item_of : String → Option String → List (String × String)
item_of key none = []
item_of key (some t) = if t == "" then [] else (key, t) ∷ []

abbrev items_in : Repo → List String → List (String × String)
items_in repo [] = []
items_in repo (key ∷ order) = item_of key (get key repo) ++ items_in repo order

unfoldable pub items : Repo → List (String × String)
unfolding get
items repo = items_in repo repo.order

unfoldable pub copy : Repo → Repo
unfolding new_repo items
copy repo = set_values (items repo) (new_repo repo.id [])
