-- ===== src/ProductIds/Versions.antt =====
-- `RpmVersion` and the comparable products of src/subscription_manager/productid.py.
use Prim.Native.Char.{Char, code}
use subscription_manager.Base.{
  ℕ, String, Bool, true, false, ◌&&◌, ◌||◌, Option, none, some, ltb, ◌==◌, nat_eq, string_eq,
  if◌then◌else◌,
}
use subscription_manager.Base.Slashes.{same_letters}

-- what rpm.labelCompare returns
pub data Sign : Type 0 where
  minus_one zero one : Sign

abbrev same_sign : Sign → Sign → Bool
same_sign minus_one minus_one = true
same_sign zero zero = true
same_sign one one = true
same_sign a b = false

-- A version is not empty.
pub record Version : Type 0 where
  pub first : Char
  pub rest : String

abbrev pub text : Version → String
text v = String.◌∷◌ v.first v.rest

-- epoch, version and release
pub record Evr : Type 0 where
  epoch : String
  pub version : String
  pub release : String

abbrev evr : String → Evr
evr version = record { epoch = "0"; version = version; release = "1" }

-- s[:-len(suffix)] where s ends with the suffix, up to the case of ASCII letters
abbrev before_suffix : String → String → Option String
before_suffix suffix String.[] = none
before_suffix suffix (String.◌∷◌ c s) =
    let rest = before_suffix suffix s in
    if same_letters (String.◌∷◌ c s) suffix
    then some ""
    else elim rest [ none ↦ none | some t ↦ some (String.◌∷◌ c t) ]

abbrev is_dash_or_blank : Char → Bool
is_dash_or_blank c = code c == 45 || code c == 32

-- s.strip("- ")
abbrev strip_left : String → String
strip_left String.[] = ""
strip_left (String.◌∷◌ c s) = if is_dash_or_blank c then strip_left s else String.◌∷◌ c s

abbrev strip_right : String → String
strip_right String.[] = ""
strip_right (String.◌∷◌ c s) =
    let rest = strip_right s in if is_dash_or_blank c && rest == "" then "" else String.◌∷◌ c rest

-- `no_suff`, whose suffixes are "alpha" and "beta", in this order
unfoldable pub no_suff : String → String
no_suff s = elim (before_suffix "alpha" s) [
  | some t ↦ strip_left (strip_right t)
  | none ↦ elim (before_suffix "beta" s) [ some t ↦ strip_left (strip_right t) | none ↦ s ]
]

-- `ends_with_which`
unfoldable pub ends_with_which : String → ℕ
ends_with_which s = elim (before_suffix "alpha" s) [
  | some t ↦ 0
  | none ↦ elim (before_suffix "beta" s) [ some t ↦ 1 | none ↦ 2 ]
]

-- `label_compare` is rpm.labelCompare.
module _ (label_compare : Evr → Evr → Sign) where
  -- `RpmVersion.compare`
  unfoldable pub compare : String → String → Sign
  compare v w =
      let raw = label_compare (evr v) (evr w) in
      if same_sign (label_compare (evr (no_suff v)) (evr (no_suff w))) raw
      then raw
      else if ltb (ends_with_which v) (ends_with_which w)
      then minus_one
      else one

  -- `RpmVersion.__lt__`
  unfoldable pub less : String → String → Bool
  less v w = same_sign (compare v w) minus_one
