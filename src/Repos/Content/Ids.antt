-- ===== src/Repos/Content/Ids.antt =====
-- The identities of the repositories that `get_all_content` and `get_unique_content` give.
use subscription_manager.Base.{
  ◌≡◌, ℕ_discrete, refl, String, Bool, false, not, ◌&&◌, Option, none, some, List, [], ◌∷◌, map,
  contains, All, string_eq, if◌then◌else◌, arith, Bool-cases, inl, inr,
}
use subscription_manager.Repos.Repo.{Repo, set_item, _clean_id, is_valid_char}
use subscription_manager.Repos.Content.Cleaned.{Cleaned, _clean_id-Cleaned, Cleaned-twice}
use subscription_manager.Repos.Update.{Overrides, overrides_of, _set_override_info}
use subscription_manager.Repos.Update.Overrides.{set_overrides-id}
use subscription_manager.Repos.YumFile.Laws.{new_repo-id}
use subscription_manager.Repos.Content.{
  Content, EntitlementSource, Settings, _set_proxy_info, from_ent_cert_content, build_repo,
  matching_content, get_all_content, unique_from, get_unique_content,
}

_clean_id_idem : (s : String) → _clean_id (_clean_id s) ≡ _clean_id s
unfolding _clean_id ℕ_discrete
_clean_id_idem String.[] = refl
_clean_id_idem (String.◌∷◌ c s) = elim (Bool-cases (is_valid_char c)) [
  | inl e ↦ rw (e, e, _clean_id_idem s) refl
  | inr e ↦ rw (e, _clean_id_idem s) refl
]

set_item-id :
    (key : String) (value : Option String) (repo : Repo) → (set_item key value repo).id ≡ repo.id
unfolding set_item
set_item-id key value repo = refl

from_ent_cert_content-id :
    (conf : Settings) (release : Option String) (c : Content)
    → (from_ent_cert_content conf release c).id ≡ _clean_id c.label
unfolding from_ent_cert_content set_item _set_proxy_info
from_ent_cert_content-id conf release c = ground (arith, new_repo-id c.label [])

build_repo-id :
    (conf : Settings) (verify : Bool) (overrides : Option Overrides) (release : Option String)
    (c : Content)
    → (build_repo conf verify overrides release c).id ≡ _clean_id c.label
unfolding build_repo set_item _set_override_info
build_repo-id conf verify none release c = ground (arith, from_ent_cert_content-id conf release c)
build_repo-id conf verify (some overrides) release c = ground (
  arith,
  from_ent_cert_content-id conf release c,
  set_overrides-id (overrides_of (_clean_id c.label) overrides) (
      if verify
      then set_item "sslverifystatus" (some "1") (from_ent_cert_content conf release c)
      else from_ent_cert_content conf release c),
)

abbrev pub ids : List Repo → List String
ids = map (λ r. r.id)

-- The repositories of `get_all_content` have the cleaned labels of the contents as identities.
get_all_content-ids :
    (conf : Settings) (verify : Bool) (overrides : Option Overrides) (release : Option String)
    (types : List String) (source : EntitlementSource)
    → ids (get_all_content conf verify overrides release types source)
      ≡ map (λ c. _clean_id c.label) (matching_content types source)
unfolding get_all_content
get_all_content-ids conf verify overrides release types source = go (matching_content types source)
  where
    go :
        (cs : List Content)
        → ids (map (build_repo conf verify overrides release) cs) ≡ map (λ c. _clean_id c.label) cs
    go [] = refl
    go (c ∷ cs) = rw (build_repo-id conf verify overrides release c, go cs) refl

get_all_content-All :
    (P : String → Type 0) (conf : Settings) (verify : Bool) (overrides : Option Overrides)
    (release : Option String) (types : List String) (source : EntitlementSource)
    → All (λ c. P (_clean_id c.label)) (matching_content types source)
    → All (λ r. P r.id) (get_all_content conf verify overrides release types source)
unfolding get_all_content
get_all_content-All P conf verify overrides release types source h =
    go (matching_content types source) h
  where
    go :
        (cs : List Content)
        → All (λ c. P (_clean_id c.label)) cs
        → All (λ r. P r.id) (map (build_repo conf verify overrides release) cs)
    go [] h = tt
    go (c ∷ cs) h = (rw (build_repo-id conf verify overrides release c) h.0, go cs h.1)

unique_from-All :
    (P : Repo → Type 0) (seen : List String) (repos : List Repo)
    → All P repos
    → All P (unique_from seen repos)
unfolding unique_from
unique_from-All P seen [] h = tt
unique_from-All P seen (r ∷ repos) h = elim (Bool-cases (contains seen r.id)) [
  | inl e ↦ rw (unique_from, e) (unique_from-All P seen repos h.1)
  | inr e ↦ rw (unique_from, e) (h.0, unique_from-All P (r.id ∷ seen) repos h.1)
]

unique_from-ids :
    (seen : List String) (repos : List Repo) (t : String)
    → contains (ids (unique_from seen repos)) t ≡ (contains (ids repos) t && not (contains seen t))
unfolding unique_from
unique_from-ids seen [] t = refl
unique_from-ids seen (r ∷ repos) t =
    ground (arith, unique_from-ids seen repos t, unique_from-ids (r.id ∷ seen) repos t)

-- No identity occurs twice.
abbrev pub Distinct : List Repo → Type 0
Distinct [] = Unit
Distinct (r ∷ repos) = (contains (ids repos) r.id ≡ false) × Distinct repos

unique_from-Distinct : (seen : List String) (repos : List Repo) → Distinct (unique_from seen repos)
unfolding unique_from
unique_from-Distinct seen [] = tt
unique_from-Distinct seen (r ∷ repos) = elim (Bool-cases (contains seen r.id)) [
  | inl e ↦ rw (unique_from, e) (unique_from-Distinct seen repos)
  | inr e ↦
      rw (unique_from, e)
        (
          ground (arith, unique_from-ids (r.id ∷ seen) repos r.id),
          unique_from-Distinct (r.id ∷ seen) repos,
        )
]

contents-All : (P : Content → Type 0) (cs : List Content) → ((c : Content) → P c) → All P cs
contents-All P [] h = tt
contents-All P (c ∷ cs) h = (h c, contents-All P cs h)

-- what holds of all cleaned labels holds of the identities of the unique contents
pub get_unique_content-All :
    (P : String → Type 0) (conf : Settings) (verify : Bool) (overrides : Option Overrides)
    (release : Option String) (types : List String) (source : EntitlementSource)
    → All (λ c. P (_clean_id c.label)) (matching_content types source)
    → All
        (λ r. P r.id)
        (get_unique_content (get_all_content conf verify overrides release types source))
unfolding get_unique_content
get_unique_content-All P conf verify overrides release types source h =
    unique_from-All (λ r. P r.id) [] (get_all_content conf verify overrides release types source)
      (get_all_content-All P conf verify overrides release types source h)

-- The unique contents have as identities the labels of the matching contents, each once, with "-" in place
-- of every character that is not an ASCII letter, a digit or one of "-_.:" and all others as they are; and
-- they hold only characters of these kinds.
pub get_unique_content-ids :
    (conf : Settings) (verify : Bool) (overrides : Option Overrides) (release : Option String)
    (types : List String) (source : EntitlementSource)
    → let repos = get_unique_content (get_all_content conf verify overrides release types source) in
      let contents = matching_content types source in
      ((t : String) → contains (ids repos) t ≡ contains (map (λ c. _clean_id c.label) contents) t)
      × Distinct repos
      × All (λ c. Cleaned c.label (_clean_id c.label)) contents
      × All (λ r. Cleaned r.id r.id) repos
unfolding get_unique_content
get_unique_content-ids conf verify overrides release types source =
    let repos = get_all_content conf verify overrides release types source in
    let contents = matching_content types source in
    (
      λ t. ground (
        arith,
        unique_from-ids [] repos t,
        get_all_content-ids conf verify overrides release types source,
      ),
      unique_from-Distinct [] repos,
      contents-All (λ c. Cleaned c.label (_clean_id c.label)) contents
          (λ c. _clean_id-Cleaned c.label),
      get_unique_content-All (λ t. Cleaned t t) conf verify overrides release types source
          (contents-All (λ c. Cleaned (_clean_id c.label) (_clean_id c.label)) contents
            (λ c. Cleaned-twice (_clean_id-Cleaned c.label))),
    )

-- the identities of the unique contents are clean
pub get_unique_content-clean :
    (conf : Settings) (verify : Bool) (overrides : Option Overrides) (release : Option String)
    (types : List String) (source : EntitlementSource)
    → All
        (λ r. _clean_id r.id ≡ r.id)
        (get_unique_content (get_all_content conf verify overrides release types source))
get_unique_content-clean conf verify overrides release types source =
    get_unique_content-All (λ t. _clean_id t ≡ t) conf verify overrides release types source
      (contents-All (λ c. _clean_id (_clean_id c.label) ≡ _clean_id c.label)
        (matching_content types source) (λ c. _clean_id_idem c.label))
