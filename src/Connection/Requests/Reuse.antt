-- ===== src/Connection/Requests/Reuse.antt =====
-- Which connection requests are sent over, and what becomes of one that the server has closed.
use subscription_manager.Base.{
  ◌≡◌, refl, ap, ◌∙◌, ℕ, zero, suc, ◌-◌, String, true, false, not, Option, none, some, List, [],
  ◌∷◌, ◌++◌, ◌==◌, nat_eq, if◌then◌else◌, arith, length, ltb, Option-cases, inl, inr,
}
use subscription_manager.Connection.Exceptions.{
  disconnected, proxy_exception, Call, raised, returned, is_instance, Class, class_of, bases,
  Class-discrete, class_eq,
}
use subscription_manager.Connection.Responses.{
  Body, Response, RestLib, truthy, validate_result, is_accepted,
}
use subscription_manager.Connection.Requests.{
  Pair, Conn, new_conn, State, Attempt, close_connection, reusable, _create_connection, is_ssl,
  has_proxy, becomes, use_conn, use_headers, attempt, go_on, _make_request, checked, _request,
}
use subscription_manager.Connection.Requests.Attempts.{attempt-attempts}

-- `n` times the same
abbrev pub repeat {ℓ} : {A : Type ℓ} → ℕ → A → List A
repeat zero a = []
repeat (suc n) a = a ∷ repeat n a

append_cons :
    {A : Type 0} (xs : List A) (a : A) (ys : List A) → (xs ++ (a ∷ [])) ++ ys ≡ xs ++ (a ∷ ys)
append_cons [] a ys = refl
append_cons (x ∷ xs) a ys = ap (λ zs. x ∷ zs) (append_cons xs a ys)

append_nil : {A : Type 0} (xs : List A) → xs ≡ xs ++ []
append_nil [] = refl
append_nil (x ∷ xs) = ap (λ zs. x ∷ zs) (append_nil xs)

-- the state behind an attempt over a connection
abbrev sent_over : Pair → ℕ → State → State
sent_over p now s = record s {
  conn = some (new_conn p now);
  attempts = suc s.attempts;
  sent = s.sent ++ (p ∷ []);
}

create-early :
    (p cert : Pair) (a : Attempt) (then' : ℕ)
    → ltb 50 (a.now - then') ≡ false
    → _create_connection cert a (some (new_conn p then'))
      ≡ (returned (new_conn p then'), some (new_conn p then'))
unfolding _create_connection reusable
create-early p cert a then' early = ground (arith, early)

module _ (lib : RestLib) (net : ℕ → Attempt) where
  -- without a connection, one is made with the pair
  attempt-new :
      (p : Pair) (s : State)
      → s.conn ≡ none
      → (net s.attempts).connecting ≡ none
      → attempt lib net p s ≡ ((net s.attempts).answer, sent_over p (net s.attempts).now s)
  unfolding attempt _create_connection reusable
  attempt-new p s closed opens = rw (attempt, closed, opens) refl

  -- a connection that did not time out is used whatever the pair
  attempt-again :
      (p cert : Pair) (then' : ℕ) (s : State)
      → s.conn ≡ some (new_conn p then')
      → ltb 50 ((net s.attempts).now - then') ≡ false
      → attempt lib net cert s ≡ ((net s.attempts).answer, sent_over p (net s.attempts).now s)
  unfolding attempt
  attempt-again p cert then' s kept early =
      let a = net s.attempts in
      ap (use_conn lib net a s)
        (ap (_create_connection cert a) kept ∙ create-early p cert a then' early)

  module _ (resp : ℕ → Response) (answers : (k : ℕ) → (net k).answer ≡ returned (resp k))
      (not_ok : (k : ℕ) → ((resp k).status == 200) ≡ false)
      (early : (k : ℕ) → ltb 50 ((net (suc k)).now - (net k).now) ≡ false) where
    rest_over_first :
        (p : Pair) (pairs : List Pair) (last : Option Response) (k : ℕ) (s : State)
        → s.conn ≡ some (new_conn p (net k).now)
        → s.attempts ≡ suc k
        → (_make_request lib net pairs last s).1.sent ≡ s.sent ++ repeat (length pairs) p
    unfolding _make_request
    rest_over_first p [] last k s kept at = ground (arith, append_nil s.sent)
    rest_over_first p (cert ∷ pairs) last k s kept at =
        let t = sent_over p (net s.attempts).now s in
        let quick = ap (λ n. ltb 50 ((net n).now - (net k).now)) at ∙ early k in
        rw (attempt-again p cert (net k).now s kept quick, answers s.attempts, not_ok s.attempts)
          (rest_over_first p pairs (some (resp s.attempts)) (suc k) t
              (ap (λ n. some (new_conn p (net n).now)) at) (ap suc at)
            ∙ append_cons s.sent p (repeat (length pairs) p))

    -- Where the first connection can be made, the server answers every request with another status than 200,
    -- and no answer takes longer than the 50 seconds for which a connection is kept, all requests of
    -- `_make_request` are sent with the first pair of certificate and key; the others are not used.
    pub first_pair_only :
        (p : Pair) (pairs : List Pair) (s : State)
        → s.conn ≡ none
        → (net s.attempts).connecting ≡ none
        → (_make_request lib net (p ∷ pairs) none s).1.sent
          ≡ s.sent ++ repeat (suc (length pairs)) p
    unfolding _make_request
    first_pair_only p pairs s closed opens =
        let t = sent_over p (net s.attempts).now s in
        rw (attempt-new p s closed opens, answers s.attempts, not_ok s.attempts)
          (rest_over_first p pairs (some (resp s.attempts)) s.attempts t refl refl
            ∙ append_cons s.sent p (repeat (length pairs) p))

  use_conn-answer :
      (a : Attempt) (s : State) (made : Call Conn × Option Conn) (c : Conn)
      → made.0 ≡ returned c
      → (use_conn lib net a s made).0 ≡ a.answer
  use_conn-answer a s (raised e, kept) c h = cc
  use_conn-answer a s (returned d, kept) c h = refl

  created :
      (p : Pair) (a : Attempt) (old : Option Conn)
      → a.connecting ≡ none
      → (c : Conn) × ((_create_connection p a old).0 ≡ returned c)
  unfolding _create_connection
  created p a old opens = elim (Option-cases (reusable a.now old)) [
    | inl closed ↦ (new_conn p a.now, ground (arith, closed, opens))
    | inr (c, kept) ↦ (c, ground (arith, kept))
  ]

  -- where a connection can be made, an attempt yields the answer
  attempt-answer :
      (p : Pair) (s : State) (answer : Call Response)
      → (net s.attempts).connecting ≡ none
      → (net s.attempts).answer ≡ answer
      → attempt lib net p s ≡ (answer, (attempt lib net p s).1)
  unfolding attempt
  attempt-answer p s answer opens h =
      let a = net s.attempts in
      let (c, made) = created p a s.conn opens in
      ap (λ x. (x, (attempt lib net p s).1))
        (use_conn-answer a s (_create_connection p a s.conn) c made ∙ h)

  becomes-disconnected :
      (is_instance Class.remote_disconnected (becomes lib disconnected) ≡ not (has_proxy lib))
      × (is_ssl lib disconnected ≡ false)
      × (has_proxy lib ≡ true → becomes lib disconnected ≡ proxy_exception)
  unfolding becomes is_instance class_of bases Class-discrete
  becomes-disconnected = ground arith

  make_request-lost :
      (p : Pair) (s : State)
      → (net s.attempts).connecting ≡ none
      → (net s.attempts).answer ≡ raised disconnected
      → _make_request lib net (p ∷ []) none s
        ≡ (raised (becomes lib disconnected), (attempt lib net p s).1)
  unfolding _make_request
  make_request-lost p s opens lost =
      rw (attempt-answer p s (raised disconnected) opens lost, becomes-disconnected.1) refl

  go_on-answered :
      (r : Response) (u : State)
      → truthy lib.cert_dir ≡ false
      → (go_on lib net (_make_request lib net []) none (returned r, u)).0 ≡ returned (some r)
  unfolding _make_request
  go_on-answered r u dir = ground (arith, dir)

  make_request-answered :
      (p : Pair) (s : State) (r : Response)
      → truthy lib.cert_dir ≡ false
      → (net s.attempts).connecting ≡ none
      → (net s.attempts).answer ≡ returned r
      → (_make_request lib net (p ∷ []) none s).0 ≡ returned (some r)
  unfolding _make_request
  make_request-answered p s r dir opens h =
      rw (attempt-answer p s (returned r) opens h) (go_on-answered r (attempt lib net p s).1 dir)

  checked-accepted :
      (loads : String → Option Body) (got : Call (Option Response) × State) (r : Response)
      → is_accepted r.status ≡ true
      → got.0 ≡ returned (some r)
      → (checked lib net loads got).0 ≡ returned r
  unfolding validate_result
  checked-accepted loads (raised e, s) r accepted h = cc
  checked-accepted loads (returned none, s) r accepted h = cc
  checked-accepted loads (returned (some q), s) r accepted h = ground (arith, accepted, h)

  -- the pair of the connection that an attempt is sent over
  abbrev pub pair_used : Pair → State → Pair
  pair_used p s = elim (reusable (net s.attempts).now s.conn) [ none ↦ p | some c ↦ c.cert ]

  attempt-sent :
      (p : Pair) (s : State)
      → (net s.attempts).connecting ≡ none
      → (attempt lib net p s).1.sent ≡ s.sent ++ (pair_used p s ∷ [])
  unfolding attempt _create_connection
  attempt-sent p s opens = elim (Option-cases (reusable (net s.attempts).now s.conn)) [
    | inl closed ↦ ground (arith, closed, opens)
    | inr (c, kept) ↦ ground (arith, kept)
  ]

  go_on-sent :
      (r : Response) (u : State)
      → truthy lib.cert_dir ≡ false
      → (go_on lib net (_make_request lib net []) none (returned r, u)).1.sent ≡ u.sent
  unfolding _make_request
  go_on-sent r u dir = ground (arith, dir)

  -- without a connection, a request goes over a new one with the pair
  make_request-new :
      (p : Pair) (s : State) (r : Response)
      → truthy lib.cert_dir ≡ false
      → s.conn ≡ none
      → (net s.attempts).connecting ≡ none
      → (net s.attempts).answer ≡ returned r
      → (_make_request lib net (p ∷ []) none s).1.sent ≡ s.sent ++ (p ∷ [])
  unfolding _make_request
  make_request-new p s r dir closed opens h =
      rw (attempt-new p s closed opens, h) (go_on-sent r (sent_over p (net s.attempts).now s) dir)

  checked-sent :
      (loads : String → Option Body) (got : Call (Option Response) × State)
      → (checked lib net loads got).1.sent ≡ got.1.sent
  unfolding use_headers close_connection
  checked-sent loads (raised e, s) = refl
  checked-sent loads (returned none, s) = refl
  checked-sent loads (returned (some r), s) = ground arith

  -- On a client with no directory of certificates, a request with one pair of certificate and key whose
  -- first attempt finds that the server has closed the connection is sent once more, over a new connection
  -- that is made with the pair whatever connection there was, and a response that is accepted is
  -- returned; behind a proxy a ProxyException is raised at once, and nothing more is sent.
  pub request-retried :
      (loads : String → Option Body) (p : Pair) (files : List String) (s : State) (r : Response)
      → truthy lib.cert_dir ≡ false
      → (net s.attempts).connecting ≡ none
      → (net s.attempts).answer ≡ raised disconnected
      → (net (suc s.attempts)).connecting ≡ none
      → (net (suc s.attempts)).answer ≡ returned r
      → is_accepted r.status ≡ true
      → let (result, after) = _request lib net loads (p ∷ []) files s in
        (result ≡ (if has_proxy lib then raised proxy_exception else returned r))
        × (after.sent ≡ (s.sent ++ (pair_used p s ∷ [])) ++ (if has_proxy lib then [] else p ∷ []))
  unfolding _request close_connection
  request-retried loads p files s r dir opens lost again answer accepted =
      let first = (attempt lib net p s).1 in
      let t = close_connection first in
      let at = attempt-attempts lib net p s in
      let opens' = ap (λ n. (net n).connecting) at ∙ again in
      let answer' = ap (λ n. (net n).answer) at ∙ answer in
      let second = _make_request lib net (p ∷ []) none t in
      let result =
        checked-accepted loads second r accepted (make_request-answered p t r dir opens' answer') in
      let sent =
        checked-sent loads second
        ∙ make_request-new p t r dir refl opens' answer'
        ∙ ap (λ xs. xs ++ (p ∷ [])) (attempt-sent p s opens) in
      let sent' = attempt-sent p s opens ∙ append_nil (s.sent ++ (pair_used p s ∷ [])) in
      rw (make_request-lost p s opens lost) (
        ground (arith, becomes-disconnected, result),
        ground (arith, becomes-disconnected, sent, sent'),
      )
