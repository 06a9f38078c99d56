-- ===== src/Compliance/Known.antt =====
-- No installed product has an unknown status after the compliance status was loaded.
use subscription_manager.Base.{
  ◌≡◌, ◌≢◌, refl, ◌∙◌, String, Bool, true, false, not, ◌&&◌, ◌||◌, some, contains, ◌==◌, string_eq,
  if◌then◌else◌, arith, String-discrete,
}
use subscription_manager.Base.Dict.{has}
use subscription_manager.Base.Result.{ok}
use subscription_manager.Compliance.Manager.{
  ServerStatus, Environment, ComplianceManager, load, get_status,
}
use subscription_manager.Compliance.Status.{is_installed, load-Loaded, get_status-load}

abbrev which : (a b c d e : Bool) → String
which a b c d e =
    if a
    then "partially_subscribed"
    else if b
    then "subscribed"
    else if c
    then "future_subscribed"
    else if d
    then "expired"
    else if e
    then "not_subscribed"
    else "unknown"

texts_differ : (s t : String) → (s == t) ≡ false → s ≢ t
texts_differ s t h q = ground arith

-- With one of the five tests passed, the status is known.
which-ne-unknown : (a b c d e : Bool) → (a || b || c || d || e) ≡ true → which a b c d e ≢ "unknown"
unfolding String-discrete
which-ne-unknown true b c d e h = texts_differ "partially_subscribed" "unknown" refl
which-ne-unknown false true c d e h = texts_differ "subscribed" "unknown" refl
which-ne-unknown false false true d e h = texts_differ "future_subscribed" "unknown" refl
which-ne-unknown false false false true e h = texts_differ "expired" "unknown" refl
which-ne-unknown false false false false true h = texts_differ "not_subscribed" "unknown" refl
which-ne-unknown false false false false false h = absurd cc

one_passes :
    (a b c d n : Bool)
    → (a || b || c || d || ((n || (true && (true && not (b || a)))) && true)) ≡ true
one_passes a b c d n = ground arith

-- After a status of the server was loaded on a registered system that is not in simple content access, no
-- product that is the first one of a product certificate has an unknown status.
pub installed_is_known :
    {J : Type 0} (env : Environment J) (st : ServerStatus J) (m : ComplianceManager J) (j : String)
    → env.registered ≡ true
    → env.is_sca ≡ false
    → env.compliance_status ≡ some st
    → load env ≡ ok m
    → is_installed env j ≡ true
    → get_status true m j ≢ "unknown"
installed_is_known env st m j r sca s h i =
    let w = load-Loaded env st m r s h in
    rw (get_status-load env st m j r s h, i, w.installed j (w.certified j ∙ i), sca)
      (which-ne-unknown (has j st.partially_compliant_products) (has j st.compliant_products) _ _ _
        (one_passes (has j st.partially_compliant_products) (has j st.compliant_products) _ _
          (contains st.non_compliant_products j)))
