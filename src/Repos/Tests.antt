-- ===== src/Repos/Tests.antt =====
-- Runs of src/subscription_manager/repolib.py on small files.
use subscription_manager.Base.{
  ◌≡◌, refl, String, String-discrete, true, false, ◌||◌, ◌&&◌, not, none, some, List, [], ◌∷◌, ◌<>◌,
  ℕ_discrete, All, map, contains, ◌==◌, string_eq, if◌then◌else◌, arith,
}
use subscription_manager.Base.Dict.{
  Dict, lookup, insert, erase, has, keys, contains-keys, has-insert, has-lookup, lookup-erase,
}
use subscription_manager.Base.Result.{Result, ok, err, value_error}
use subscription_manager.Repos.Repo.{
  Repo, new_repo, _clean_id, get, set_values, set_defaults, properties, set_item,
}
use subscription_manager.Repos.Update.{
  update_repo, property_of, protected, OverrideItem, load_overrides, _set_override_info, is_unset,
}
use subscription_manager.Repos.Update.Overrides.{override_wins}
use subscription_manager.Repos.Update.Laws.{updated, noted, update_repo-pointwise}
use subscription_manager.Repos.YumFile.{IniParser, IniLaws, is_default, on_disk}
use subscription_manager.Repos.YumFile.Laws.{in_file}
use subscription_manager.Repos.Content.{
  Content, EntitlementSource, Settings, matching_content, get_all_content, get_unique_content,
}
use subscription_manager.Repos.Content.Cleaned.{Cleaned}
use subscription_manager.Repos.Content.Ids.{ids, Distinct, get_unique_content-ids}
use subscription_manager.Repos.Perform.Contents.{perform-contents}
use subscription_manager.Repos.Perform.{Command, Disk, RepoActionReport, perform}
use subscription_manager.Repos.Perform.Sections.{yum_id, perform-Sections, Sections}

-- a file as a dictionary of sections
abbrev File : Type 0
File = Dict String (Dict String String)

abbrev options_of : String → File → Dict String String
options_of s f = elim (lookup s f) [ none ↦ [] | some d ↦ d ]

abbrev section_added : String → File → Result File
section_added s f = if has s f || is_default s then err value_error else ok (insert s [] f)

abbrev option_removed : String → String → File → File
option_removed s k f = if has s f then insert s (erase k (options_of s f)) f else f

abbrev simple : IniParser File
simple = record {
  empty = [];
  sections = keys;
  options = options_of;
  add_section = section_added;
  remove_section = erase;
  set = λ s k v f. insert s (insert k v (options_of s f)) f;
  remove_option = option_removed;
}

contains-keys-insert :
    (s t : String) (d : Dict String String) (f : File)
    → contains (keys (insert s d f)) t ≡ (t == s || contains (keys f) t)
contains-keys-insert s t d f =
    ground (arith, contains-keys t (insert s d f), contains-keys t f, has-insert t s d f)

contains-keys-erase :
    (s t : String) (f : File)
    → contains (keys (erase s f)) t ≡ (contains (keys f) t && not (t == s))
contains-keys-erase s t f = ground (
  arith,
  contains-keys t (erase s f),
  contains-keys t f,
  has-lookup t f,
  has-lookup t (erase s f),
  lookup-erase t s f,
)

simple-IniLaws : IniLaws simple
simple-IniLaws = record {
  added = λ s f h named. (
    insert s [] f,
    ground (arith, contains-keys s f, h, named),
    λ t. contains-keys-insert s t [] f,
  );
  removed = λ s t f. contains-keys-erase s t f;
  kept_by_set =
      λ s k v t f h. ground (arith, contains-keys-insert s t (insert k v (options_of s f)) f, h);
  kept_by_remove = λ s k t f.
      ground (arith, contains-keys-insert s t (erase k (options_of s f)) f, contains-keys s f);
}

-- a repository "a" with a value of `enabled`
abbrev repo_a : String → Repo
repo_a enabled = record {
  id = "a";
  content_type = some "yum";
  order = "enabled" ∷ [];
  values = ("enabled", some enabled) ∷ [];
}

abbrev fresh : Repo
fresh = repo_a "1"

abbrev local : Repo
local = repo_a "0"

abbrev last_server : Repo
last_server = repo_a "1"

-- the user's value of `enabled` stays
update_repo-pointwise_example :
    let shielded = protected [] [] local.id "enabled" (get "enabled" local) in
    let done = update_repo [] [] local fresh last_server in
    let mutable' = (property_of "enabled").0 in
    (get "enabled" done.old_repo
      ≡ updated mutable' shielded
          (get "enabled" local)
          (get "enabled" last_server)
          (get "enabled" fresh))
    × (get "enabled" done.server
        ≡ noted mutable' shielded
            (get "enabled" local)
            (get "enabled" last_server)
            (get "enabled" fresh))
update_repo-pointwise_example = update_repo-pointwise [] [] local fresh last_server "enabled"

abbrev items_a : List OverrideItem
items_a = ("b", "enabled", "0") ∷ ("a", "enabled", "1") ∷ []

override_wins_example :
    let overrides = load_overrides items_a [] in
    get "enabled"
      (update_repo overrides [] local (_set_override_info overrides fresh) last_server).old_repo
    ≡ some "1"
unfolding new_repo set_values set_defaults properties _clean_id set_item has insert lookup
    String-discrete ℕ_discrete is_unset
override_wins_example =
    override_wins items_a [] local fresh last_server "enabled" "1" refl refl refl

abbrev command : Command
command = record { manage_repos = true; override_supported = false; overrides = []; written = [] }

-- "a" is new, "old" is obsolete, and "mine" is not of the server
abbrev disk : Disk File
disk = record {
  repo_disk = some (("old", []) ∷ ("mine", []) ∷ []);
  server_disk = some (("old", []) ∷ []);
  written_cache = none;
}

perform-Sections_example :
    let after : Disk File = (perform simple command (fresh ∷ []) disk).2 in
    (report : RepoActionReport) × ((perform simple command (fresh ∷ []) disk).0 ≡ ok (some report))
    × Sections simple (fresh ∷ []) disk after
unfolding new_repo set_values set_defaults properties _clean_id set_item has insert String-discrete
    ℕ_discrete
perform-Sections_example =
    perform-Sections simple simple-IniLaws command (fresh ∷ []) disk refl ((refl, refl), tt)

abbrev content : Content
content = record {
  content_type = "yum";
  name = "A";
  label = "a b";
  url = "/a";
  gpg = none;
  tags = [];
  key_path = "k";
  cert_path = "c";
  enabled = true;
  metadata_expire = none;
}

abbrev source : EntitlementSource
source = record {
  entitlements =
      record { contents = content ∷ []; entitlement_type = "OrgLevel" }
      ∷ record { contents = (record content { label = "b" }) ∷ []; entitlement_type = "Basic" }
      ∷ [];
  product_tags = [];
}

abbrev settings : Settings
settings = record {
  urljoin = λ base url. base <> url;
  has_yum = true;
  baseurl = "https://cdn";
  repo_ca_cert = "ca";
  repomd_gpg_url = "";
  proxy_scheme = "";
  default_proxy_scheme = "http";
  proxy_hostname = "";
  proxy_port = "";
  proxy_user = "";
  proxy_password = "";
}

get_unique_content-ids_example :
    let repos = get_unique_content (get_all_content settings true none none ("yum" ∷ []) source) in
    ((t : String)
      → contains (ids repos) t
        ≡ contains (map (λ c. _clean_id c.label) (matching_content ("yum" ∷ []) source)) t)
    × Distinct repos
    × All (λ c. Cleaned c.label (_clean_id c.label)) (matching_content ("yum" ∷ []) source)
    × All (λ r. Cleaned r.id r.id) repos
get_unique_content-ids_example = get_unique_content-ids settings true none none ("yum" ∷ []) source

perform-contents_example :
    let repos = get_unique_content (get_all_content settings true none none ("yum" ∷ []) source) in
    let done = perform simple command repos disk in
    let cleaned = map (λ c. _clean_id c.label) (matching_content ("yum" ∷ []) source) in
    (report : RepoActionReport) × (done.0 ≡ ok (some report))
    × ((t : String)
        → in_file simple t (on_disk simple (done.2).repo_disk) ≡ (
            yum_id repos t
            || (in_file simple t (on_disk simple disk.repo_disk)
                && (contains cleaned t
                    || not (in_file simple t (on_disk simple disk.server_disk))))))
    × All (λ c. Cleaned c.label (_clean_id c.label)) (matching_content ("yum" ∷ []) source)
unfolding matching_content _clean_id String-discrete ℕ_discrete insert
perform-contents_example =
    perform-contents simple simple-IniLaws command settings true none none ("yum" ∷ []) source disk
      refl (refl, (refl, tt))
