-- ===== src/EntCerts/Listing.antt =====
-- Listings of certificates whose files are there.
use subscription_manager.Base.{
  ◌≡◌, refl, sym, ap, ◌∙◌, ℕ, true, none, some, List, [], ◌∷◌, contains, All, nat_eq, arith,
}
use subscription_manager.Base.Dict.{has}
use subscription_manager.Base.Result.{ok}
use subscription_manager.EntCerts.Directory.{
  Name, numbered, name_eq, Entry, Directory, list_with_content_access,
}
use subscription_manager.EntCerts.Local.{WellNamed, OwnName, serials, load_lem}

-- An entry that has its own name and whose file is there.
abbrev pub Present : Directory → Entry → Type 0
Present dir e = (e.path ≡ numbered e.cert.serial) × (has e.path dir.certs ≡ true)

-- A listing of entries that are there, cached or to be read.
abbrev pub Listable : Directory → Type 0
Listable dir =
    (es : List Entry) × (list_with_content_access dir ≡ (ok es, record dir { listing = some es }))
    × All (Present dir) es

-- entries whose serial numbers are names of files are there
Present-of_serials :
    (dir : Directory) (es : List Entry)
    → All OwnName es
    → ((t : ℕ) → contains (serials es) t ≡ true → has (numbered t) dir.certs ≡ true)
    → All (Present dir) es
Present-of_serials dir [] h k = tt
Present-of_serials dir (e ∷ es) h k = (
  (h.0, rw (h.0) (k e.cert.serial (ground arith))),
  Present-of_serials dir es h.1 (λ t m. k t (ground (arith, m))),
)

pub Listable-of_WellNamed :
    (dir : Directory) → dir.listing ≡ none → WellNamed dir.certs → Listable dir
unfolding list_with_content_access
Listable-of_WellNamed dir fresh h =
    let (es, l, own, same) = load_lem dir.certs h in
    (
      es,
      rw (list_with_content_access, fresh, l) refl,
      Present-of_serials dir es own (λ t m. sym (same t) ∙ m),
    )

pub Listable-of_listing :
    (dir : Directory) (es : List Entry)
    → dir.listing ≡ some es
    → All (Present dir) es
    → Listable dir
unfolding list_with_content_access
Listable-of_listing dir es q h =
    (es, rw (list_with_content_access, q) (ap (λ l. (ok es, record dir { listing = l })) q), h)

pub Present-moved :
    (dir after : Directory) (es : List Entry)
    → after.certs ≡ dir.certs
    → All (Present dir) es
    → All (Present after) es
Present-moved dir after [] q h = tt
Present-moved dir after (e ∷ es) q h = ((h.0.0, rw q (h.0.1)), Present-moved dir after es q h.1)

-- The same file names.
abbrev pub SameNames : Directory → Directory → Type 0
SameNames dir after = (n : Name) → has n after.certs ≡ has n dir.certs

abbrev pub AllThere : Directory → List Entry → Type 0
AllThere dir = All (λ e. has e.path dir.certs ≡ true)

pub AllThere-moved :
    (dir after : Directory) (es : List Entry)
    → SameNames dir after
    → AllThere dir es
    → AllThere after es
AllThere-moved dir after [] same h = tt
AllThere-moved dir after (e ∷ es) same h = (same e.path ∙ h.0, AllThere-moved dir after es same h.1)

pub Present-AllThere : (dir : Directory) (es : List Entry) → All (Present dir) es → AllThere dir es
Present-AllThere dir [] h = tt
Present-AllThere dir (e ∷ es) h = (h.0.1, Present-AllThere dir es h.1)
