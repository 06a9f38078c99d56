-- ===== src/EntCerts/Local.antt =====
-- The certificates that are found on the disk.
use subscription_manager.Base.{
  ◌≡◌, refl, ℕ, Bool, true, not, ◌&&◌, ◌||◌, Option, some, List, [], ◌∷◌, ◌++◌, map, filter, any,
  contains, All, ◌==◌, nat_eq, arith, Bool-cases, inl, inr,
}
use subscription_manager.Base.Dict.{Dict, insert, has, has-insert}
use subscription_manager.Base.Result.{ok}
use subscription_manager.EntCerts.Directory.{
  Name, numbered, name_eq, Name-discrete, Certificate, Entry, Directory, refresh, load, list,
  list_with_content_access, without_access,
}
use subscription_manager.EntCerts.Update.{
  State, serial_of, unique_from, local_loop, _get_local_serials, _find_rogue_serials,
}

-- Every file can be read, and is named by the serial number of its certificate.
abbrev pub WellNamed : Dict Name (Option Certificate) → Type 0
WellNamed = All (λ (n, content). (c : Certificate) × (content ≡ some c) × (n ≡ numbered c.serial))

pub numbered-eq : (s t : ℕ) → (numbered s == numbered t) ≡ (s == t)
unfolding Name-discrete
numbered-eq s t = ground arith

-- An entry whose path is the name of its serial number.
abbrev pub OwnName : Entry → Type 0
OwnName e = e.path ≡ numbered e.cert.serial

abbrev pub serials : List Entry → List ℕ
serials = map serial_of

pub load_lem :
    (d : Dict Name (Option Certificate))
    → WellNamed d
    → (es : List Entry) × (load d ≡ ok es)
      × All OwnName es
      × ((t : ℕ) → contains (serials es) t ≡ has (numbered t) d)
unfolding load has
load_lem [] h = ([], refl, tt, λ t. refl)
load_lem ((n, content) ∷ d) ((c, e, own), h) =
    let (es, l, all, same) = load_lem d h in
    (
      record { path = n; cert = c } ∷ es,
      rw (load, e, l) refl,
      (own, all),
      λ t. ground (arith, same t, own, numbered-eq t c.serial),
    )

serials-filter :
    (keep : Entry → Bool) (es : List Entry) (t : ℕ)
    → contains (serials (filter keep es)) t ≡ true
    → contains (serials es) t ≡ true
serials-filter keep [] t h = cc
serials-filter keep (e ∷ es) t h = ground (arith, serials-filter keep es t)

serials-append :
    (es fs : List Entry) (t : ℕ)
    → contains (serials (es ++ fs)) t ≡ (contains (serials es) t || contains (serials fs) t)
serials-append [] fs t = refl
serials-append (e ∷ es) fs t = ground (arith, serials-append es fs t)

pub All-filter :
    {A : Type 0} (P : A → Type 0) (keep : A → Bool) (xs : List A)
    → All P xs
    → All P (filter keep xs)
All-filter P keep [] h = tt
All-filter P keep (x ∷ xs) h = elim (Bool-cases (keep x)) [
  | inl e ↦ rw e (h.0, All-filter P keep xs h.1)
  | inr e ↦ rw e (All-filter P keep xs h.1)
]

All-append : {A : Type 0} (P : A → Type 0) (xs ys : List A) → All P xs → All P ys → All P (xs ++ ys)
All-append P [] ys h k = k
All-append P (x ∷ xs) ys h k = (h.0, All-append P xs ys h.1 k)

unique_from-serials :
    (seen : List ℕ) (es : List Entry) (t : ℕ)
    → contains (serials (unique_from seen es)) t
      ≡ (contains (serials es) t && not (contains seen t))
unfolding unique_from
unique_from-serials seen [] t = refl
unique_from-serials seen (e ∷ es) t =
    ground (arith, unique_from-serials seen es t, unique_from-serials (e.cert.serial ∷ seen) es t)

unique_from-OwnName :
    (seen : List ℕ) (es : List Entry) → All OwnName es → All OwnName (unique_from seen es)
unfolding unique_from
unique_from-OwnName seen [] h = tt
unique_from-OwnName seen (e ∷ es) h = elim (Bool-cases (contains seen e.cert.serial)) [
  | inl there ↦ rw (unique_from, there) (unique_from-OwnName seen es h.1)
  | inr new' ↦ rw (unique_from, new') (h.0, unique_from-OwnName (e.cert.serial ∷ seen) es h.1)
]

-- The entries of a dictionary of local certificates have the names of their keys.
abbrev pub Local : Dict ℕ Entry → Type 0
Local = All (λ (sn, e). e.path ≡ numbered sn)

insert-Local :
    (sn : ℕ) (e : Entry) (loc : Dict ℕ Entry)
    → e.path ≡ numbered sn
    → Local loc
    → Local (insert sn e loc)
unfolding insert
insert-Local sn e [] p h = (p, tt)
insert-Local sn e ((k, f) ∷ loc) p h = ground (arith, insert-Local sn e loc p h.1)

local_loop_lem :
    (es : List Entry) (loc : Dict ℕ Entry)
    → All OwnName es
    → Local loc
    → Local (local_loop es loc)
      × ((t : ℕ) → has t (local_loop es loc) ≡ (contains (serials es) t || has t loc))
unfolding local_loop
local_loop_lem [] loc h k = (k, λ t. refl)
local_loop_lem (e ∷ es) loc h k =
    let (all, same) =
      local_loop_lem es (insert e.cert.serial e loc) h.1 (insert-Local e.cert.serial e loc h.0 k) in
    (all, λ t. ground (arith, same t, has-insert t e.cert.serial e loc))

-- A directory whose listing is not cached reads the files.
list_fresh :
    (dir : Directory) (es : List Entry)
    → load dir.certs ≡ ok es
    → list_with_content_access (refresh dir) ≡ (ok es, record dir { listing = some es })
unfolding list_with_content_access refresh
list_fresh dir es l = rw (list_with_content_access, l) refl

list_ordinary :
    (dir : Directory) (es : List Entry)
    → load dir.certs ≡ ok es
    → list (refresh dir) ≡ (ok (without_access es), record dir { listing = some es })
unfolding list
list_ordinary dir es l = rw (list, list_fresh dir es l) refl

-- What `_get_local_serials` finds in a directory of well-named files: their serial numbers.
pub get_local_serials_lem :
    (s : State)
    → WellNamed s.dir.certs
    → (loc : Dict ℕ Entry) × ((_get_local_serials s).0 ≡ ok loc)
      × ((_get_local_serials s).1.dir.certs ≡ s.dir.certs)
      × Local loc
      × ((t : ℕ) → has t loc ≡ has (numbered t) s.dir.certs)
unfolding _get_local_serials list_with_content_access has
get_local_serials_lem s h =
    let (es, l, all, same) = load_lem s.dir.certs h in
    let certs = unique_from [] (without_access es ++ es) in
    let (own, there) =
      local_loop_lem certs []
        (unique_from-OwnName [] (without_access es ++ es) (
          All-append OwnName (without_access es) es
            (All-filter OwnName (λ e. not e.cert.is_content_access) es all) all))
        tt in
    (
      local_loop certs [],
      rw (_get_local_serials, list_ordinary s.dir es l) refl,
      rw (_get_local_serials, list_ordinary s.dir es l) refl,
      own,
      λ t. ground (
        arith,
        there t,
        unique_from-serials [] (without_access es ++ es) t,
        serials-append (without_access es) es t,
        serials-filter (λ e. not e.cert.is_content_access) es t,
        same t,
      ),
    )

-- The rogue certificates are the local ones that the server does not expect.
pub find_rogue_serials_lem :
    (loc : Dict ℕ Entry) (expected : List ℕ) (t : ℕ)
    → Local loc
    → any (λ e. numbered t == e.path) (_find_rogue_serials loc expected)
      ≡ (has t loc && not (contains expected t))
unfolding _find_rogue_serials has
find_rogue_serials_lem [] expected t h = refl
find_rogue_serials_lem ((sn, e) ∷ loc) expected t h =
    ground (arith, find_rogue_serials_lem loc expected t h.1, h.0, numbered-eq t sn)
