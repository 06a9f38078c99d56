-- ===== src/Repos/Content.antt =====
-- The contents of entitlements as repositories: src/subscription_manager/model, the class methods of
-- `Repo` of src/subscription_manager/repofile.py, and `get_all_content` of
-- src/subscription_manager/repolib.py.
pub mod Cleaned
pub mod Ids
pub mod Laws
use text.Mathlib.Text.{starts_with}
use subscription_manager.Base.{
  ◌<>◌, String, Bool, true, false, not, ◌&&◌, ◌||◌, Option, none, some, List, [], ◌∷◌, ◌++◌, map,
  filter, contains, is_nil, all, any, ◌==◌, string_eq, if◌then◌else◌,
}
use subscription_manager.Base.Dict.{Dict, lookup, insert}
use subscription_manager.Base.Slashes.{
  strip_left, split, has_part, replace, drop_suffix, ends_with_slash, same_letters, join,
}
use subscription_manager.Repos.Repo.{Repo, new_repo, get, set_item}
use subscription_manager.Repos.Update.{Overrides, _set_override_info}

pub record Content : Type 0 where
  pub content_type : String
  pub name : String
  pub label : String
  pub url : String
  pub gpg : Option String
  pub tags : List String
  pub key_path : String
  pub cert_path : String
  pub enabled : Bool
  pub metadata_expire : Option String

pub record Entitlement : Type 0 where
  pub contents : List Content
  pub entitlement_type : String

pub record EntitlementSource : Type 0 where
  pub entitlements : List Entitlement
  pub product_tags : List String

-- `CONTENT_ACCESS_CERT_TYPE`
abbrev pub content_access : String
content_access = "OrgLevel"

-- the loop of `content_tag_match`
unfoldable pub content_tag_match : List String → List String → Bool
content_tag_match [] product_tags = true
content_tag_match (tag ∷ content_tags) product_tags =
    contains product_tags tag && content_tag_match content_tags product_tags

-- whether a content has the type, and tags that products provide
unfoldable pub is_matching : List String → String → Content → Bool
unfolding content_tag_match
is_matching product_tags content_type content =
    same_letters content.content_type content_type && content_tag_match content.tags product_tags

-- What the loop of `find_content` has gathered: the contents of ordinary entitlements, whose labels are
-- its `content_labels`, and those of content access by their labels.
pub record Gathered : Type 0 where
  pub entitled : List Content
  pub access : Dict String Content

unfoldable pub gather_one : List String → String → String → Content → Gathered → Gathered
unfolding is_matching
gather_one product_tags content_type entitlement_type content g =
    if not (is_matching product_tags content_type content)
    then g
    else if entitlement_type == content_access
    then record g { access = insert content.label content g.access }
    else record g { entitled = g.entitled ++ (content ∷ []) }

unfoldable pub gather_contents : List String → String → String → List Content → Gathered → Gathered
unfolding gather_one
gather_contents product_tags content_type entitlement_type [] g = g
gather_contents product_tags content_type entitlement_type (c ∷ contents) g =
    gather_contents product_tags content_type entitlement_type contents
      (gather_one product_tags content_type entitlement_type c g)

unfoldable pub gather : List String → String → List Entitlement → Gathered → Gathered
unfolding gather_contents
gather product_tags content_type [] g = g
gather product_tags content_type (e ∷ entitlements) g =
    gather product_tags content_type entitlements
      (gather_contents product_tags content_type e.entitlement_type e.contents g)

abbrev pub labels : List Content → List String
labels = map (λ c. c.label)

-- the loop that adds the content that ordinary entitlements do not cover
unfoldable pub add_uncovered : List String → Dict String Content → List Content
add_uncovered covered [] = []
add_uncovered covered ((label, content) ∷ access) =
    let rest = add_uncovered covered access in
    if contains covered label then rest else content ∷ rest

unfoldable pub find_content : EntitlementSource → String → List Content
unfolding gather add_uncovered
find_content source content_type =
    let g =
      gather source.product_tags content_type source.entitlements
        (record { entitled = []; access = [] }) in
    g.entitled ++ add_uncovered (labels g.entitled) g.access

-- What the code reads of the configuration, of the package urllib and of the environment.
pub record Settings : Type 0 where
  pub urljoin : String → String → String
  pub has_yum : Bool
  pub baseurl : String
  pub repo_ca_cert : String
  pub repomd_gpg_url : String
  pub proxy_scheme : String
  pub default_proxy_scheme : String
  pub proxy_hostname : String
  pub proxy_port : String
  pub proxy_user : String
  pub proxy_password : String

unfoldable pub url_base_join : Settings → String → String → String
url_base_join conf base url =
    if url == ""
    then url
    else if has_part "://" url
    then url
    else conf.urljoin (if not (base == "") && not (ends_with_slash base) then base <> "/" else base)
        (if starts_with url "/" then strip_left url else url)

-- `is_set` and `get_expansion` of `YumReleaseverSource`: the release that the cache gives, if any
unfoldable pub get_expansion : Option String → String
get_expansion none = "$releasever"
get_expansion (some release) = if release == "" then "$releasever" else release

unfoldable pub _expand_releasever : Option String → String → String
unfolding get_expansion
_expand_releasever release contenturl =
    if has_part "$releasever" contenturl
    then replace "$releasever" (get_expansion release) contenturl
    else contenturl

abbrev proxy_scheme_of : Settings → String
proxy_scheme_of conf =
    let scheme = drop_suffix "://" conf.proxy_scheme in
    if scheme == "" then conf.default_proxy_scheme else scheme

unfoldable pub proxy_of : Settings → String
proxy_of conf =
    if conf.proxy_hostname == ""
    then ""
    else if conf.proxy_port == ""
    then proxy_scheme_of conf <> "://" <> conf.proxy_hostname
    else proxy_scheme_of conf <> "://" <> conf.proxy_hostname <> ":" <> conf.proxy_port

unfoldable pub _set_proxy_info : Settings → Repo → Repo
unfolding proxy_of
_set_proxy_info conf repo = set_item "proxy_password" (some conf.proxy_password) (
    set_item "proxy_username" (some conf.proxy_user) (set_item "proxy" (some (proxy_of conf)) repo))

-- the variables of an URL: its parts that begin with a dollar, without it
abbrev pub variables : List String → List String
variables [] = []
variables (String.[] ∷ parts) = variables parts
variables ((String.◌∷◌ c part) ∷ parts) =
    let rest = variables parts in if starts_with (String.◌∷◌ c part) "$" then part ∷ rest else rest

abbrev pub or_blank : Option String → String
or_blank none = ""
or_blank (some t) = t

-- The URL of the GPG key, from that of the content, joined or blank, and that of the metadata.
unfoldable pub gpg_url : Settings → String → String
unfolding url_base_join
gpg_url conf own =
    let repomd = url_base_join conf conf.baseurl conf.repomd_gpg_url in
    if conf.repomd_gpg_url == ""
    then own
    else if own == "" || own == "https://" || own == "http://"
    then repomd
    else if not (has_part repomd own)
    then own <> "," <> repomd
    else own

unfoldable pub from_ent_cert_content : Settings → Option String → Content → Repo
unfolding _set_proxy_info gpg_url url_base_join _expand_releasever
from_ent_cert_content conf release content =
    let flag = if content.enabled then "1" else "0" in
    let baseurl = url_base_join conf conf.baseurl (_expand_releasever release content.url) in
    let repo_vars = variables (split baseurl) in
    let no_key = or_blank content.gpg == "" in
    let own = if no_key then "" else url_base_join conf conf.baseurl (or_blank content.gpg) in
    let repo = record (new_repo content.label []) { content_type = some content.content_type } in
    let named = set_item "name" (some content.name) repo in
    let flagged = set_item "enabled_metadata" (some flag) (set_item "enabled" (some flag) named) in
    let based = set_item "baseurl" (some baseurl) flagged in
    let varied =
      if conf.has_yum && not (is_nil repo_vars)
      then set_item "ui_repoid_vars" (some (join " " repo_vars)) based
      else based in
    let checked = if no_key then set_item "gpgcheck" (some "0") varied else varied in
    let keyed = set_item "gpgkey" (some (gpg_url conf own)) checked in
    let certified = set_item "sslcacert" (some conf.repo_ca_cert) (
      set_item "sslclientcert" (some content.cert_path)
        (set_item "sslclientkey" (some content.key_path) keyed)) in
    _set_proxy_info conf (set_item "metadata_expire" content.metadata_expire certified)

-- The body of the loop of `get_all_content`; `overrides` is `none` if they are not applied.
unfoldable pub build_repo : Settings → Bool → Option Overrides → Option String → Content → Repo
unfolding from_ent_cert_content
build_repo conf has_ssl_verify_status overrides release content =
    let repo = from_ent_cert_content conf release content in
    let verified =
      if has_ssl_verify_status then set_item "sslverifystatus" (some "1") repo else repo in
    elim overrides [ none ↦ verified | some o ↦ _set_override_info o verified ]

-- The content types are "yum" and, with the package debian.deb822, "deb".
unfoldable pub matching_content : List String → EntitlementSource → List Content
unfolding find_content
matching_content [] source = []
matching_content (t ∷ types) source = find_content source t ++ matching_content types source

unfoldable pub get_all_content :
    Settings → Bool → Option Overrides → Option String → List String → EntitlementSource → List Repo
unfolding build_repo matching_content
get_all_content conf has_ssl_verify_status overrides release types source =
    map (build_repo conf has_ssl_verify_status overrides release) (matching_content types source)

-- `set(content_list)`: the first of the repositories with one identity stays.
unfoldable pub unique_from : List String → List Repo → List Repo
unique_from seen [] = []
unique_from seen (repo ∷ repos) =
    if contains seen repo.id
    then unique_from seen repos
    else repo ∷ unique_from (repo.id ∷ seen) repos

unfoldable pub get_unique_content : List Repo → List Repo
unfolding unique_from
get_unique_content repos = unique_from [] repos
