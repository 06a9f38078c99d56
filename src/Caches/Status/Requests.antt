-- ===== src/Caches/Status/Requests.antt =====
-- `StatusCache.load_status` of src/subscription_manager/cache.py on the responses of the server, as
-- src/rhsm/connection.py turns them into values and exceptions.
use subscription_manager.Base.{
  ◌≡◌, refl, ℕ, String, Bool, true, false, not, ◌&&◌, ◌||◌, Option, none, some, is_some, ◌==◌,
  nat_eq, string_eq, if◌then◌else◌, arith, Option-cases, inl, inr,
}
use subscription_manager.Base.Dict.{lookup}
use subscription_manager.Connection.Exceptions.{
  Class, Exception, is_instance, class_of, bases, class_eq, Class-discrete,
}
use subscription_manager.Connection.Responses.{
  Body, Response, RestLib, is_accepted, parsed_of, with_body, without_body, validate_result,
  gone_of, rate_limit, text_or, proxy_message, _parse_msg_from_error_response_body,
}
use subscription_manager.Caches.Status.{Failure, Outcome, Answer, StatusCache, failed, load_status}
use subscription_manager.Caches.Status.Laws.{known, load_status_lem}

-- the clause of `load_status` that catches an exception
unfoldable pub caught_by : Exception → Failure
unfolding is_instance
caught_by e =
    if is_instance Class.ssl_error e
    then Failure.ssl
    else if is_instance Class.authentication e
    then Failure.authentication
    else if is_instance Class.expired_identity_cert e
    then Failure.expired_identity
    else if is_instance Class.connection_exception e
        || is_instance Class.rate_limit_exceeded e
        || is_instance Class.os_error e
        || is_instance Class.proxy e
    then Failure.unreachable
    else if is_instance Class.restlib e
    then Failure.rest
    else Failure.uncaught

-- the answer of a server that sends a response, whose value is read by `read`
abbrev pub answer_of :
    {J : Type 0} → (String → Option Body) → (Response → Option J) → RestLib → Response → Answer J
answer_of loads read lib r = elim (validate_result loads lib r) [
  | some e ↦ Outcome.raised (caught_by e)
  | none ↦ Outcome.returned (read r)
]

-- whether a response refuses the credentials without a body
abbrev pub is_rejected : (String → Option Body) → Response → Bool
is_rejected loads r = (r.status == 401 || r.status == 403) && not (is_some (parsed_of loads r))

-- whether a body that says that the resource is gone lacks an entry
abbrev lacks_entry : Option Body → Bool
lacks_entry none = false
lacks_entry (some b) = not (is_some b.display_message && is_some b.deleted_id)

abbrev pub is_broken : (String → Option Body) → Response → Bool
is_broken loads r = r.status == 410 && lacks_entry (parsed_of loads r)

-- Where no `except` clause comes first, a class of the code's own counts as an unreachable server.
caught_by-own :
    (code : ℕ) (msg : String)
    → ((caught_by (Exception.restlib_exception code msg) ≡ Failure.unreachable)
        × (caught_by (Exception.remote_server_exception code) ≡ Failure.unreachable)
        × (caught_by Exception.proxy_exception ≡ Failure.unreachable)
        × (caught_by Exception.missing_key ≡ Failure.uncaught))
unfolding caught_by is_instance class_of bases Class-discrete
caught_by-own code msg = (refl, refl, refl, refl)

caught_by-gone :
    (code : ℕ) (msg id : String)
    → caught_by (Exception.gone_exception code msg id) ≡ Failure.unreachable
unfolding caught_by is_instance class_of bases Class-discrete
caught_by-gone code msg id = refl

caught_by-rate_limit :
    (r : Response) (msg : Option String) → caught_by (rate_limit r msg) ≡ Failure.unreachable
unfolding caught_by is_instance class_of bases Class-discrete rate_limit
caught_by-rate_limit r msg = refl

caught_by-rest :
    (code : ℕ) (t : Option String)
    → ((caught_by (Exception.unknown_content_exception code t) ≡ Failure.unreachable)
        × (caught_by (Exception.unauthorized_exception code) ≡ Failure.authentication)
        × (caught_by (Exception.forbidden_exception code) ≡ Failure.authentication))
unfolding caught_by is_instance class_of bases Class-discrete
caught_by-rest code t = (refl, refl, refl)

caught_by-gone_of :
    (code : ℕ) (msg id : Option String)
    → caught_by (gone_of code msg id)
      ≡ (if is_some msg && is_some id then Failure.unreachable else Failure.uncaught)
caught_by-gone_of code none id = (caught_by-own code "").3
caught_by-gone_of code (some msg) none = (caught_by-own code "").3
caught_by-gone_of code (some msg) (some id) = caught_by-gone code msg id

caught_by-with_body :
    (lib : RestLib) (r : Response) (b : Body)
    → caught_by (with_body lib r b)
      ≡ (if r.status == 410 && lacks_entry (some b) then Failure.uncaught else Failure.unreachable)
unfolding with_body
caught_by-with_body lib r b =
    let error_msg = _parse_msg_from_error_response_body b in
    ground (
      arith,
      caught_by-gone_of r.status b.display_message b.deleted_id,
      caught_by-own r.status proxy_message,
      caught_by-own r.status (text_or "" error_msg),
      caught_by-rate_limit r error_msg,
    )

caught_by-without_body :
    (r : Response)
    → caught_by (without_body r)
      ≡ (if r.status == 401 || r.status == 403 then Failure.authentication else Failure.unreachable)
unfolding without_body
caught_by-without_body r = ground (
  arith,
  caught_by-own r.status "",
  caught_by-rest r.status (lookup "Content-Type" r.headers),
  caught_by-rate_limit r none,
)

-- what catches the exception of a response that is not accepted
caught_by-refused :
    (loads : String → Option Body) (lib : RestLib) (r : Response)
    → is_accepted r.status ≡ false
    → elim (validate_result loads lib r) [ none ↦ none | some e ↦ some (caught_by e) ]
      ≡ some (
          if is_rejected loads r
          then Failure.authentication
          else if is_broken loads r
          then Failure.uncaught
          else Failure.unreachable)
unfolding validate_result
caught_by-refused loads lib r h = elim (Option-cases (parsed_of loads r)) [
  | inl empty ↦ ground (arith, h, empty, caught_by-without_body r)
  | inr (b, there) ↦ ground (arith, h, there, caught_by-with_body lib r b)
]

answer-raised :
    {J : Type 0} (v : Option Exception) (f : Failure) (answer : Option J)
    → elim v [ none ↦ none | some e ↦ some (caught_by e) ] ≡ some f
    → elim v [ none ↦ Outcome.returned answer | some e ↦ Outcome.raised (caught_by e) ]
      ≡ Outcome.raised f
answer-raised none f answer h = cc
answer-raised (some e) f answer h = cc

-- what is told after the failures that responses lead to
after_failure :
    {J : Type 0} (rejected broken : Bool) (s : StatusCache J)
    → let f =
        if rejected
        then Failure.authentication
        else if broken
        then Failure.uncaught
        else Failure.unreachable in
      ((load_status (Outcome.raised f) s).0 ≡ (
        if rejected
        then Outcome.returned none
        else if broken
        then Outcome.raised Failure.uncaught
        else Outcome.returned (known s)))
      × (known (load_status (Outcome.raised f) s).1 ≡ known s)
unfolding load_status failed
after_failure true broken s = (refl, refl)
after_failure false true s = (refl, refl)
after_failure false false s =
    let known_told = load_status_lem none s in (known_told.1, known_told.2)

-- After a response that is not accepted, `load_status` returns nothing where the server refused the
-- credentials without a body, raises where a body with status 410 lacks an entry, and else tells the status
-- that was known before, in memory or in the file; that is known afterwards in every case.
pub load_status-refused :
    {J : Type 0} (loads : String → Option Body) (read : Response → Option J) (lib : RestLib)
    (r : Response) (s : StatusCache J)
    → is_accepted r.status ≡ false
    → let after = load_status (answer_of loads read lib r) s in
      (after.0 ≡ (
        if is_rejected loads r
        then Outcome.returned none
        else if is_broken loads r
        then Outcome.raised Failure.uncaught
        else Outcome.returned (known s)))
      × (known after.1 ≡ known s)
load_status-refused loads read lib r s h =
    rw (answer-raised (validate_result loads lib r) _ (read r) (caught_by-refused loads lib r h))
      (after_failure (is_rejected loads r) (is_broken loads r) s)
