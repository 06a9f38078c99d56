-- ===== src/Compliance/Groups.antt =====
-- `EntitlementCertStackingGroupSorter` of src/subscription_manager/cert_sorter.py. The dictionary of the
-- stacking groups refers to a group by its place in the list of groups.
use mathlib.Core.List.{Perm, append-nil, append_assoc, perm_append_comm}
use mathlib.Core.List.Perm
use subscription_manager.Base.{
  ◌≡◌, refl, sym, ap, ◌∙◌, ℕ, zero, suc, ◌<◌, String, Option, none, some, List, [], ◌∷◌, ◌++◌,
  length, length-append, ◌==◌, string_eq, if◌then◌else◌, arith, Option-cases, inl, inr,
}
use subscription_manager.Base.Dict.{Dict, lookup, insert, lookup-insert, lookup-nil}
use subscription_manager.Compliance.Certificates.{Order, EntitlementCertificate}

pub record EntitlementGroup : Type 0 where
  pub name : String
  pub entitlements : List EntitlementCertificate

abbrev order_id : Option Order → Option String
order_id none = none
order_id (some o) = o.stacking_id

abbrev order_name : Option Order → String
order_name none = ""
order_name (some o) = o.name

unfoldable pub _get_stacking_id : EntitlementCertificate → Option String
_get_stacking_id cert = order_id cert.order

unfoldable pub _get_identity_name : EntitlementCertificate → String
_get_identity_name cert = order_name cert.order

-- `if stacking_id:`
abbrev nonblank : Option String → Option String
nonblank none = none
nonblank (some id) = if id == "" then none else some id

-- The group at a place, with one more certificate.
unfoldable pub add_entitlement_cert :
    ℕ → EntitlementCertificate → List EntitlementGroup → List EntitlementGroup
add_entitlement_cert i cert [] = []
add_entitlement_cert zero cert (g ∷ groups) =
    record g { entitlements = g.entitlements ++ (cert ∷ []) } ∷ groups
add_entitlement_cert (suc i) cert (g ∷ groups) = g ∷ add_entitlement_cert i cert groups

abbrev new_group : EntitlementCertificate → String → EntitlementGroup
new_group cert name = record { name = name; entitlements = cert ∷ [] }

abbrev Sorter : Type 0
Sorter = List EntitlementGroup × Dict String ℕ

-- the body of the loop, with the stacking identity if there is one
unfoldable pub sort_one : Option String → EntitlementCertificate → Sorter → Sorter
unfolding add_entitlement_cert _get_identity_name
sort_one none cert (groups, stacking_groups) = (groups ++ (new_group cert "" ∷ []), stacking_groups)
sort_one (some id) cert (groups, stacking_groups) = elim (lookup id stacking_groups) [
  | none ↦ (
    groups ++ (new_group cert (_get_identity_name cert) ∷ []),
    insert id (length groups) stacking_groups,
  )
  | some i ↦ (add_entitlement_cert i cert groups, stacking_groups)
]

unfoldable pub sort_loop : List EntitlementCertificate → Sorter → Sorter
unfolding sort_one _get_stacking_id
sort_loop [] sorter = sorter
sort_loop (cert ∷ certs) sorter =
    sort_loop certs (sort_one (nonblank (_get_stacking_id cert)) cert sorter)

-- `StackingGroupSorter(entitlements).groups`
unfoldable pub stacking_groups_of : List EntitlementCertificate → List EntitlementGroup
unfolding sort_loop
stacking_groups_of certs = (sort_loop certs ([], [])).0

-- the certificates of all groups
abbrev pub members : List EntitlementGroup → List EntitlementCertificate
members [] = []
members (g ∷ groups) = g.entitlements ++ members groups

-- Every place in the dictionary is one of the list.
abbrev InRange : Sorter → Type 0
InRange (groups, d) = (id : String) (i : ℕ) → lookup id d ≡ some i → i < length groups

members-append : (xs ys : List EntitlementGroup) → members (xs ++ ys) ≡ members xs ++ members ys
members-append [] ys = refl
members-append (x ∷ xs) ys =
    ap (x.entitlements ++◌) (members-append xs ys)
    ∙ sym (append_assoc x.entitlements (members xs) (members ys))

length-add_entitlement_cert :
    (i : ℕ) (cert : EntitlementCertificate) (groups : List EntitlementGroup)
    → length (add_entitlement_cert i cert groups) ≡ length groups
unfolding add_entitlement_cert
length-add_entitlement_cert i cert [] = refl
length-add_entitlement_cert zero cert (g ∷ groups) = refl
length-add_entitlement_cert (suc i) cert (g ∷ groups) =
    ap suc (length-add_entitlement_cert i cert groups)

members-add_entitlement_cert :
    (i : ℕ) (cert : EntitlementCertificate) (groups : List EntitlementGroup)
    → i < length groups
    → Perm (members (add_entitlement_cert i cert groups)) (members groups ++ (cert ∷ []))
unfolding add_entitlement_cert
members-add_entitlement_cert i cert [] h = absurd (omega arith)
members-add_entitlement_cert zero cert (g ∷ groups) h =
    rw (append_assoc, append_assoc)
      (Perm.append_left g.entitlements (perm_append_comm (cert ∷ []) (members groups)))
members-add_entitlement_cert (suc i) cert (g ∷ groups) h =
    rw append_assoc
      (Perm.append_left g.entitlements (members-add_entitlement_cert i cert groups (omega arith)))

abbrev Adds : EntitlementCertificate → Sorter → Sorter → Type 0
Adds cert before after =
    Perm (members (after.0)) (members (before.0) ++ (cert ∷ [])) × InRange after

members-new_group :
    (cert : EntitlementCertificate) (name : String) (groups : List EntitlementGroup)
    → Perm (members (groups ++ (new_group cert name ∷ []))) (members groups ++ (cert ∷ []))
members-new_group cert name groups = rw members-append (Perm.refl _)

longer :
    (groups : List EntitlementGroup) (g : EntitlementGroup)
    → length (groups ++ (g ∷ [])) ≡ suc (length groups)
longer groups g = omega (arith, length-append groups (g ∷ []))

sort_one-Adds :
    (o : Option String) (cert : EntitlementCertificate) (sorter : Sorter)
    → InRange sorter
    → Adds cert sorter (sort_one o cert sorter)
unfolding sort_one
sort_one-Adds none cert (groups, d) r = (
  members-new_group cert "" groups,
  λ id i e. omega (arith, r id i e, longer groups (new_group cert "")),
)
sort_one-Adds (some id) cert (groups, d) r = elim (Option-cases (lookup id d)) [
  | inl e ↦
      rw (sort_one, e)
        (
          members-new_group cert (_get_identity_name cert) groups,
          λ j i f. ground (
            arith,
            lookup-insert j id (length groups) d,
            longer groups (new_group cert (_get_identity_name cert)),
            r j i,
          ),
        )
  | inr (i, e) ↦
      rw (sort_one, e)
        (
          members-add_entitlement_cert i cert groups (r id i e),
          λ j k f. omega (arith, r j k f, length-add_entitlement_cert i cert groups),
        )
]

sort_loop-perm :
    (certs : List EntitlementCertificate) (sorter : Sorter)
    → InRange sorter
    → Perm (members ((sort_loop certs sorter).0)) (members (sorter.0) ++ certs)
unfolding sort_loop
sort_loop-perm [] sorter r = rw append-nil (Perm.refl _)
sort_loop-perm (cert ∷ certs) sorter r =
    let next = sort_one (nonblank (_get_stacking_id cert)) cert sorter in
    let (same, r') = sort_one-Adds (nonblank (_get_stacking_id cert)) cert sorter r in
    Perm.trans (sort_loop-perm certs next r')
      (Perm.trans (Perm.append_right certs same) (rw append_assoc (Perm.refl _)))

-- The groups hold exactly the certificates that were sorted, each as often.
stacking_groups_of-perm :
    (certs : List EntitlementCertificate) → Perm (members (stacking_groups_of certs)) certs
unfolding stacking_groups_of
stacking_groups_of-perm certs =
    sort_loop-perm certs ([], []) (λ id i e. absurd (ground (arith, lookup-nil {V = ℕ} id)))
