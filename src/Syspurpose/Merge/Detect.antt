-- ===== src/Syspurpose/Merge/Detect.antt =====
-- What `detect_changed` takes for a change.
use subscription_manager.Base.{◌≡◌, ◌↔◌, String, false, some, List, string_eq, arith}
use subscription_manager.Base.Dict.{lookup, has-lookup}
use subscription_manager.Base.Text.{sorted_iff, SameItems, texts_eq}
use subscription_manager.Syspurpose.Value.{list, Contents}
use subscription_manager.Syspurpose.Merge.{
  unchanged, Source, local, server, values_differ, detect_changed,
}

values_differ-list :
    (source : Source) (xs ys : List String)
    → (values_differ source (list xs) (list ys) ≡ false) ↔ SameItems xs ys
unfolding values_differ
values_differ-list local xs ys = (
  λ h. (sorted_iff xs ys).0 (ground arith),
  λ h. let e = (sorted_iff xs ys).1 h in ground (arith, e),
)
values_differ-list server xs ys = (
  λ h. (sorted_iff xs ys).0 (ground arith),
  λ h. let e = (sorted_iff xs ys).1 h in ground (arith, e),
)

-- Two lists under a key count as unchanged, on either side, exactly if they hold the same texts, each
-- as often: the order of the texts does not matter.
pub detect_changed-list :
    (base other : Contents) (key : String) (source : Source) (xs ys : List String)
    → lookup key base ≡ some (list xs)
    → lookup key other ≡ some (list ys)
    → (detect_changed base other key source ≡ unchanged) ↔ SameItems xs ys
unfolding detect_changed
detect_changed-list base other key local xs ys b o = (
  λ h. (values_differ-list local xs ys).0 (ground (arith, has-lookup key other)),
  λ h. let e = (values_differ-list local xs ys).1 h in ground (arith, e, has-lookup key other),
)
detect_changed-list base other key server xs ys b o = (
  λ h. (values_differ-list server xs ys).0 (ground (arith, has-lookup key other)),
  λ h. let e = (values_differ-list server xs ys).1 h in ground (arith, e, has-lookup key other),
)
