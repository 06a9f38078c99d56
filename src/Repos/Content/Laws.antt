-- ===== src/Repos/Content/Laws.antt =====
-- Which contents are found, and the identities of their repositories.
use subscription_manager.Base.{
  ◌≡◌, refl, String, Bool, not, ◌&&◌, ◌||◌, List, [], ◌∷◌, ◌++◌, any, contains, All, ◌==◌,
  string_eq, arith,
}
use subscription_manager.Base.Dict.{Dict, insert, has, has-insert}
use subscription_manager.Repos.Content.{
  Content, Entitlement, EntitlementSource, is_matching, Gathered, gather_one, gather_contents,
  gather, labels, add_uncovered, find_content,
}

-- a matching content of an entitlement with the label
abbrev offers : List String → String → String → List Content → Bool
offers tags content_type t = any (λ c. is_matching tags content_type c && t == c.label)

-- the labels that are gathered, each content-access content under its own
abbrev found : String → Gathered → Bool
found t g = contains (labels g.entitled) t || has t g.access

-- the entries of a dictionary of contents stand under their labels
abbrev Labelled : Dict String Content → Type 0
Labelled = All (λ (k, c). c.label ≡ k)

insert-Labelled :
    (c : Content) (d : Dict String Content) → Labelled d → Labelled (insert c.label c d)
unfolding insert
insert-Labelled c [] h = (refl, tt)
insert-Labelled c ((k, b) ∷ d) h = ground (arith, insert-Labelled c d h.1)

labels-append :
    (cs ds : List Content) (t : String)
    → contains (labels (cs ++ ds)) t ≡ (contains (labels cs) t || contains (labels ds) t)
labels-append [] ds t = refl
labels-append (c ∷ cs) ds t = ground (arith, labels-append cs ds t)

module _ (tags : List String) (content_type : String) where
  gather_one-found :
      (type : String) (c : Content) (g : Gathered) (t : String)
      → found t (gather_one tags content_type type c g)
        ≡ (found t g || (is_matching tags content_type c && t == c.label))
  unfolding gather_one
  gather_one-found type c g t =
      ground (arith, labels-append g.entitled (c ∷ []) t, has-insert t c.label c g.access)

  gather_one-Labelled :
      (type : String) (c : Content) (g : Gathered)
      → Labelled g.access
      → Labelled (gather_one tags content_type type c g).access
  unfolding gather_one
  gather_one-Labelled type c g h = ground (arith, insert-Labelled c g.access h)

  gather_contents-found :
      (type : String) (cs : List Content) (g : Gathered) (t : String)
      → found t (gather_contents tags content_type type cs g)
        ≡ (found t g || offers tags content_type t cs)
  unfolding gather_contents
  gather_contents-found type [] g t = ground arith
  gather_contents-found type (c ∷ cs) g t = ground (
    arith,
    gather_contents-found type cs (gather_one tags content_type type c g) t,
    gather_one-found type c g t,
  )

  gather_contents-Labelled :
      (type : String) (cs : List Content) (g : Gathered)
      → Labelled g.access
      → Labelled (gather_contents tags content_type type cs g).access
  unfolding gather_contents
  gather_contents-Labelled type [] g h = h
  gather_contents-Labelled type (c ∷ cs) g h =
      gather_contents-Labelled type cs (gather_one tags content_type type c g)
        (gather_one-Labelled type c g h)

  gather-found :
      (es : List Entitlement) (g : Gathered) (t : String)
      → found t (gather tags content_type es g)
        ≡ (found t g || any (λ e. offers tags content_type t e.contents) es)
  unfolding gather
  gather-found [] g t = ground arith
  gather-found (e ∷ es) g t = ground (
    arith,
    gather-found es (gather_contents tags content_type e.entitlement_type e.contents g) t,
    gather_contents-found e.entitlement_type e.contents g t,
  )

  gather-Labelled :
      (es : List Entitlement) (g : Gathered)
      → Labelled g.access
      → Labelled (gather tags content_type es g).access
  unfolding gather
  gather-Labelled [] g h = h
  gather-Labelled (e ∷ es) g h =
      gather-Labelled es (gather_contents tags content_type e.entitlement_type e.contents g)
        (gather_contents-Labelled e.entitlement_type e.contents g h)

add_uncovered-labels :
    (covered : List String) (access : Dict String Content) (t : String)
    → Labelled access
    → contains (labels (add_uncovered covered access)) t
      ≡ (has t access && not (contains covered t))
unfolding add_uncovered has
add_uncovered-labels covered [] t h = refl
add_uncovered-labels covered ((k, c) ∷ access) t h =
    ground (arith, add_uncovered-labels covered access t h.1, h.0)

-- The labels of the contents that `find_content` returns are those of the matching contents of all
-- entitlements, of content access or not.
find_content-labels :
    (source : EntitlementSource) (content_type t : String)
    → contains (labels (find_content source content_type)) t
      ≡ any (λ e. offers source.product_tags content_type t e.contents) source.entitlements
unfolding find_content has
find_content-labels source content_type t =
    let start : Gathered = record { entitled = []; access = [] } in
    let g = gather source.product_tags content_type source.entitlements start in
    ground (
      arith,
      labels-append g.entitled (add_uncovered (labels g.entitled) g.access) t,
      add_uncovered-labels (labels g.entitled) g.access t
          (gather-Labelled source.product_tags content_type source.entitlements start tt),
      gather-found source.product_tags content_type source.entitlements start t,
    )
