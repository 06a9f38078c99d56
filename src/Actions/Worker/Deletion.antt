-- ===== src/Actions/Worker/Deletion.antt =====
-- When the worker deletes the data of a consumer.
use subscription_manager.Base.{
  ◌≡◌, refl, ap, ◌∙◌, ℕ, String, Bool, true, false, not, ◌&&◌, Option, none, some, is_some, List,
  [], ◌∷◌, map, ◌==◌, nat_eq, string_eq, text_option_eq, if◌then◌else◌, arith, Option-cases, inl,
  inr,
}
use subscription_manager.Base.Dict.{lookup}
use subscription_manager.Connection.Exceptions.{
  Exception, restlib_exception, proxy_exception, remote_server_exception, unauthorized_exception,
  forbidden_exception, unknown_content_exception, deleted_id_of, is_instance, class_of, bases,
  class_eq, Class-discrete, Call, raised, returned,
}
use subscription_manager.Connection.Responses.{
  Body, Response, RestLib, parsed_of, with_body, without_body, text_or, proxy_message,
  _parse_msg_from_error_response_body, gone_of, rate_limit, validate_result,
}
use subscription_manager.Actions.{
  Lib, passes, caught, add_report, then_rest, _run_updates, _run_update,
}
use subscription_manager.Actions.Worker.{Host, clean_all_data, handled, _main}

-- the identity, where there is a message as well
abbrev pub both : Option String → Option String → Option String
both (some msg) id = id
both none id = none

-- the identity that an exception tells is deleted
abbrev raised_id : {A : Type 0} → Call A → Option String
raised_id (returned a) = none
raised_id (raised e) = deleted_id_of e

-- The exceptions for responses with a body that say nothing of a deletion.
told-own :
    (r : Response) (msg : String) (o : Option String)
    → (deleted_id_of (restlib_exception r.status msg) ≡ none)
      × (passes (restlib_exception r.status msg) ≡ false)
      × (deleted_id_of proxy_exception ≡ none)
      × (passes proxy_exception ≡ false)
      × (deleted_id_of (rate_limit r o) ≡ none)
      × (passes (rate_limit r o) ≡ false)
unfolding deleted_id_of rate_limit is_instance class_of bases Class-discrete
told-own r msg o = (refl, refl, refl, refl, refl, refl)

told-rest :
    (code : ℕ) (t : Option String)
    → (deleted_id_of (remote_server_exception code) ≡ none)
      × (passes (remote_server_exception code) ≡ false)
      × (deleted_id_of (unauthorized_exception code) ≡ none)
      × (passes (unauthorized_exception code) ≡ false)
      × (deleted_id_of (forbidden_exception code) ≡ none)
      × (passes (forbidden_exception code) ≡ false)
      × (deleted_id_of (unknown_content_exception code t) ≡ none)
      × (passes (unknown_content_exception code t) ≡ false)
unfolding deleted_id_of is_instance class_of bases Class-discrete
told-rest code t = (refl, refl, refl, refl, refl, refl, refl, refl)

told-gone_of :
    (code : ℕ) (msg id : Option String)
    → (deleted_id_of (gone_of code msg id) ≡ both msg id)
      × (passes (gone_of code msg id) ≡ is_some (both msg id))
unfolding deleted_id_of is_instance class_of bases Class-discrete
told-gone_of code none id = (refl, refl)
told-gone_of code (some msg) none = (refl, refl)
told-gone_of code (some msg) (some id) = (refl, refl)

told-with_body :
    (lib : RestLib) (r : Response) (b : Body)
    → let id = if r.status == 410 then both b.display_message b.deleted_id else none in
      (deleted_id_of (with_body lib r b) ≡ id) × (passes (with_body lib r b) ≡ is_some id)
unfolding with_body
told-with_body lib r b =
    let error_msg = _parse_msg_from_error_response_body b in
    ground (
      arith,
      told-gone_of r.status b.display_message b.deleted_id,
      told-own r proxy_message error_msg,
      told-own r (text_or "" error_msg) error_msg,
    )

told-without_body :
    (r : Response) → (deleted_id_of (without_body r) ≡ none) × (passes (without_body r) ≡ false)
unfolding without_body
told-without_body r =
    ground (arith, told-own r "" none, told-rest r.status (lookup "Content-Type" r.headers))

add_report-told :
    {R : Type 0} (report : Option R) (got : Call (List (Option R)) × Host)
    → ((add_report report got).1 ≡ got.1) × (raised_id (add_report report got).0 ≡ raised_id got.0)
add_report-told report (raised e, h) = (refl, refl)
add_report-told report (returned reports, h) = (refl, refl)

-- one update in the loop, by the exception of its request
one_update :
    {R : Type 0} (v : Option Exception) (d : Option String) (answer : Option R) (h : Host)
    (rest : Host → Call (List (Option R)) × Host)
    → ((e : Exception) → v ≡ some e → (deleted_id_of e ≡ d) × (passes e ≡ is_some d))
    → (v ≡ none → d ≡ none)
    → (rest h).1 ≡ h
    → let got =
        then_rest rest (caught (elim v [ some e ↦ raised e | none ↦ returned answer ], h)) in
      (got.1 ≡ h) × (raised_id got.0 ≡ elim d [ some id ↦ some id | none ↦ raised_id (rest h).0 ])
one_update none d answer h rest tells quiet same =
    let (kept, told) = add_report-told answer (rest h) in rw (quiet refl) (kept ∙ same, told)
one_update (some e) none answer h rest tells quiet same =
    let (kept, told) = add_report-told none (rest h) in rw ((tells e refl).1) (kept ∙ same, told)
one_update (some e) (some id) answer h rest tells quiet same =
    rw ((tells e refl).1) (refl, (tells e refl).0)

-- a library whose update makes one request, with the response of the server and the report that it makes of it
module _ {R : Type 0} (loads : String → Option Body) (rest : RestLib)
    (report : Response → Option R) where
  abbrev pub outcome : Response → Call (Option R)
  outcome r = elim (validate_result loads rest r) [ some e ↦ raised e | none ↦ returned (report r) ]

  abbrev pub asks : String × Response → Lib Host R
  asks (name, r) = record { name = name; update = λ h. (outcome r, h) }

  -- the consumer that a response says is deleted: its status is 410, and its body tells both a message and
  -- the identity
  abbrev deleted_in : Response → Option String
  deleted_in r = elim (parsed_of loads r) [
    | none ↦ none
    | some b ↦ if r.status == 410 then both b.display_message b.deleted_id else none
  ]

  abbrev pub first_deleted : List (String × Response) → Option String
  first_deleted [] = none
  first_deleted ((name, r) ∷ rs) =
      let later = first_deleted rs in elim (deleted_in r) [ some id ↦ some id | none ↦ later ]

  exceptions-refused :
      (r : Response) (e : Exception)
      → validate_result loads rest r ≡ some e
      → (deleted_id_of e ≡ deleted_in r) × (passes e ≡ is_some (deleted_in r))
  unfolding validate_result
  exceptions-refused r e h = elim (Option-cases (parsed_of loads r)) [
    | inl empty ↦ ground (arith, h, empty, told-without_body r)
    | inr (b, there) ↦ ground (arith, h, there, told-with_body rest r b)
  ]

  accepted-deleted_in : (r : Response) → validate_result loads rest r ≡ none → deleted_in r ≡ none
  unfolding validate_result
  accepted-deleted_in r h = ground (arith, h)

  run_updates-deleted :
      (rs : List (String × Response)) (h : Host)
      → let (result, after) = _run_updates [] (map asks rs) h in
        (after ≡ h) × (raised_id result ≡ first_deleted rs)
  unfolding _run_updates _run_update
  run_updates-deleted [] h = (refl, refl)
  run_updates-deleted ((name, r) ∷ rs) h =
      let (same, later) = run_updates-deleted rs h in
      let (kept, told) =
        one_update (validate_result loads rest r) (deleted_in r) (report r) h
          (_run_updates [] (map asks rs)) (exceptions-refused r) (accepted-deleted_in r) same in
      (kept, told ∙ ap (λ o. elim (deleted_in r) [ some id ↦ some id | none ↦ o ]) later)

  handled-deleted :
      (got : Call (List (Option R)) × Host) (uuid : String)
      → got.1.consumer ≡ some uuid
      → (handled got).1
        ≡ (if raised_id got.0 == some uuid then clean_all_data true got.1 else got.1)
  handled-deleted (returned reports, h) uuid here = ground arith
  handled-deleted (raised e, h) uuid here = ground (arith, here)

  -- Where the worker runs, on a host with a consumer, updates that make one request each, it cleans the data
  -- of the consumer, with a backup, exactly if the first response with status 410 whose body tells a message
  -- and a deleted identity tells that of the consumer; any other response leaves the host as it was.
  pub main-deleted :
      (disabled force : Bool) (rs : List (String × Response)) (h : Host) (uuid : String)
      → (disabled && not force) ≡ false
      → h.consumer ≡ some uuid
      → (_main disabled force (returned tt) (map asks rs) h).1
        ≡ (if first_deleted rs == some uuid then clean_all_data true h else h)
  unfolding _main
  main-deleted disabled force rs h uuid runs here =
      let (same, told) = run_updates-deleted rs h in
      let after =
        handled-deleted (_run_updates [] (map asks rs) h) uuid (ap (λ x. x.consumer) same ∙ here) in
      ground (arith, runs, here, same, told, after)
