-- ===== src/Syspurpose/Fields.antt =====
-- The valid fields that the server answers with: `post_process_received_data` and `get_valid_fields` of
-- src/syspurpose/files.py.
use subscription_manager.Base.{
  ◌≡◌, String, Option, none, some, List, arith, ◌==◌, string_eq, is_some, if◌then◌else◌,
}
use subscription_manager.Base.Dict.{Dict, lookup, insert, erase, lookup-insert, lookup-erase}
use subscription_manager.Base.Result.{Result, ok, err}
use subscription_manager.Syspurpose.Files.{Uep}

abbrev pub Fields : Type 0
Fields = Dict String (List String)

-- `d[new] = d[old]; del d[old]`, if the old key is there
unfoldable pub rename_key : String → String → Fields → Fields
rename_key old new d = elim (lookup old d) [ none ↦ d | some v ↦ erase old (insert new v d) ]

-- The part of the answer under "systemPurposeAttributes", if it has one.
unfoldable pub post_process_received_data : Option Fields → Option Fields
unfolding rename_key
post_process_received_data none = none
post_process_received_data (some d) =
    some (rename_key "support_level" "service_level_agreement" (rename_key "roles" "role" d))

module _ {S : Type 0} where
  unfoldable pub get_valid_fields : Option (Uep S) → Option String → S → Result (Option Fields)
  unfolding post_process_received_data
  get_valid_fields none uuid server = ok none
  get_valid_fields (some u) none server = ok none
  get_valid_fields (some u) (some id) server = elim (u.get_owner server id) [
    | err e ↦ err e
    | ok none ↦ ok none
    | ok (some key) ↦ elim (u.get_valid_fields server key) [
      | err e ↦ ok none
      | ok response ↦ ok (post_process_received_data response)
    ]
  ]

lookup-rename_key :
    (old new k : String) (d : Fields)
    → lookup k (rename_key old new d) ≡ (
        if is_some (lookup old d)
        then (if k == old then none else if k == new then lookup old d else lookup k d)
        else lookup k d)
unfolding rename_key
lookup-rename_key old new k d = renamed (lookup old d)
  where
    renamed :
        (o : Option (List String))
        → lookup k (elim o [ none ↦ d | some v ↦ erase old (insert new v d) ]) ≡ (
            if is_some o
            then (if k == old then none else if k == new then o else lookup k d)
            else lookup k d)
    renamed none = ground arith
    renamed (some v) = ground (arith, lookup-erase k old (insert new v d), lookup-insert k new v d)
