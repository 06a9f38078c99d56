-- ===== src/Syspurpose/Value.antt =====
-- The values of syspurpose.json: `null`, a text, or a list of texts.
use subscription_manager.Base.{
  String, Bool, true, false, Option, none, some, List, [], ◌∷◌, Eq, ◌==◌, string_eq,
  String-discrete, not,
}
use subscription_manager.Base.Dict.{Dict, lookup}

pub data Value : Type 0 where
  null : Value
  str : String → Value
  list : List String → Value

unfoldable pub Value-discrete : Discrete Value
Value-discrete = hlevel String-discrete

instance abbrev pub value_eq : Eq Value
value_eq = record { dec = Value-discrete }

abbrev pub Contents : Type 0
Contents = Dict String Value

-- `bool(v)`
abbrev pub truthy : Value → Bool
truthy null = false
truthy (str s) = not (s == "")
truthy (list []) = false
truthy (list (x ∷ xs)) = true

-- what `d.get(key)` yields from the entry of `key`: a missing one reads as `None`
abbrev pub or_null : Option Value → Value
or_null none = null
or_null (some v) = v

-- `d.get(key)`
abbrev pub get : String → Contents → Value
get key d = or_null (lookup key d)
