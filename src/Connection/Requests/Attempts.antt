-- ===== src/Connection/Requests/Attempts.antt =====
-- How often a request is tried.
use subscription_manager.Base.{
  ◌≡◌, refl, ℕ, suc, ◌+◌, ◌*◌, ◌≤◌, ◌<◌, String, Option, none, some, List, [], ◌∷◌, nat_eq, arith,
  length,
}
use subscription_manager.Connection.Exceptions.{Call, raised, returned}
use subscription_manager.Connection.Responses.{Body, Response, RestLib}
use subscription_manager.Connection.Requests.{
  Pair, State, Attempt, close_connection, use_headers, pairs_or, _get_cert_key_list, Conn, use_conn,
  go_on, _create_connection, attempt, _make_request, retried, checked, _request,
}

module _ (lib : RestLib) (net : ℕ → Attempt) where
  use_conn-attempts :
      (a : Attempt) (s : State) (made : Call Conn × Option Conn)
      → (use_conn lib net a s made).1.attempts ≡ suc s.attempts
  use_conn-attempts a s (raised e, kept) = refl
  use_conn-attempts a s (returned c, kept) = refl

  pub attempt-attempts :
      (cert : Pair) (s : State) → (attempt lib net cert s).1.attempts ≡ suc s.attempts
  unfolding attempt
  attempt-attempts cert s =
      use_conn-attempts (net s.attempts) s (_create_connection cert (net s.attempts) s.conn)

  go_on-attempts :
      (next : Option Response → State → Call (Option Response) × State) (last : Option Response)
      (got : Call Response × State) (n : ℕ)
      → ((o : Option Response)
          → (got.1.attempts ≤ (next o got.1).1.attempts)
            × ((next o got.1).1.attempts ≤ got.1.attempts + n))
      → let after = (go_on lib net next last got).1 in
        (got.1.attempts ≤ after.attempts) × (after.attempts ≤ got.1.attempts + n)
  go_on-attempts next last (returned r, t) n h = ground (arith, h (some r))
  go_on-attempts next last (raised e, t) n h = ground (arith, h last)

  -- a loop makes at most one attempt for each pair, and one if there is any
  make_request-attempts :
      (pairs : List Pair) (last : Option Response) (s : State)
      → let after = (_make_request lib net pairs last s).1 in
        (s.attempts ≤ after.attempts)
        × (after.attempts ≤ s.attempts + length pairs)
        × (0 < length pairs → s.attempts < after.attempts)
  unfolding _make_request
  make_request-attempts [] last s = ground arith
  make_request-attempts (cert ∷ pairs) last s =
      let got = attempt lib net cert s in
      let (more, less) =
        go_on-attempts (_make_request lib net pairs) last got (length pairs)
          (λ o. let (a, b, c) = make_request-attempts pairs o got.1 in (a, b)) in
      (
        omega (arith, more, attempt-attempts cert s),
        omega (arith, less, attempt-attempts cert s),
        λ h. omega (arith, more, attempt-attempts cert s),
      )

  checked-attempts :
      (loads : String → Option Body) (got : Call (Option Response) × State)
      → (checked lib net loads got).1.attempts ≡ got.1.attempts
  unfolding use_headers
  checked-attempts loads (raised e, s) = refl
  checked-attempts loads (returned none, s) = refl
  checked-attempts loads (returned (some r), s) = ground arith

  retried-attempts :
      (pairs : List Pair) (got : Call (Option Response) × State)
      → let after = (retried lib net pairs got).1 in
        (got.1.attempts ≤ after.attempts) × (after.attempts ≤ got.1.attempts + length pairs)
  unfolding close_connection
  retried-attempts pairs (returned r, s) = ground arith
  retried-attempts pairs (raised e, s) =
      ground (arith, make_request-attempts pairs none (close_connection s))

  -- `_request` makes an attempt if there is a pair of certificate and key, and at most two for each pair.
  pub request-attempts :
      (loads : String → Option Body) (given : List Pair) (files : List String) (s : State)
      → let after = (_request lib net loads given files s).1 in
        let pairs = pairs_or lib net given (_get_cert_key_list lib files) in
        (after.attempts ≤ s.attempts + 2 * length pairs)
        × (0 < length pairs → s.attempts < after.attempts)
  unfolding _request
  request-attempts loads given files s =
      let pairs = pairs_or lib net given (_get_cert_key_list lib files) in
      let first = _make_request lib net pairs none s in
      let same = checked-attempts loads (retried lib net pairs first) in
      let (a, b) = retried-attempts pairs first in
      let (c, d, e) = make_request-attempts pairs none s in
      (omega (arith, same, a, b, c, d), λ h. omega (arith, same, a, b, e h))
