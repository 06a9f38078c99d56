-- ===== src/Connection/Tests.antt =====
-- Runs of src/rhsm/connection.py on small networks.
use subscription_manager.Base.{
  ◌≡◌, refl, ℕ, zero, suc, ◌+◌, ◌*◌, ◌≤◌, ◌<◌, String, true, Option, none, some, [], ◌∷◌, ◌++◌,
  length, arith, ℕ_discrete, String-discrete, if◌then◌else◌,
}
use subscription_manager.Connection.Exceptions.{disconnected, proxy_exception, raised, returned}
use subscription_manager.Connection.Responses.{Body, Response, RestLib}
use subscription_manager.Connection.KeepAlive.{
  parse_keep_alive_header, parse_items, key_value, split_blanks,
}
use subscription_manager.Connection.Requests.{
  Pair, State, Attempt, new_conn, pairs_or, has_proxy, _get_cert_key_list, _make_request, _request,
}
use subscription_manager.Connection.Requests.Attempts.{request-attempts}
use subscription_manager.Connection.Requests.Reuse.{
  repeat, first_pair_only, pair_used, request-retried,
}

keep_alive : parse_keep_alive_header "timeout=5, max=100" ≡ (some 5, some 100)
unfolding parse_keep_alive_header parse_items key_value split_blanks String-discrete ℕ_discrete
keep_alive = refl

abbrev one : Pair
one = (some "1.pem", some "1-key.pem")

abbrev two : Pair
two = (some "2.pem", some "2-key.pem")

abbrev fresh : State
fresh = record { conn = none; is_consumer_cert_key_valid = none; attempts = 0; sent = [] }

abbrev no_body : String → Option Body
no_body text = none

-- a directory of certificates, and a server that forbids everything
abbrev cdn : RestLib
cdn = record {
  proxy_hostname = none;
  proxy_port = none;
  cert_file = none;
  key_file = none;
  cert_dir = some "/etc/pki/entitlement";
  is_valid = true;
}

abbrev forbids : Response
forbids = record { status = 403; content = ""; headers = [] }

abbrev forbidding : ℕ → Attempt
forbidding k = record { now = k; has_errno = true; connecting = none; answer = returned forbids }

first_pair_only_example :
    (_make_request cdn forbidding (one ∷ two ∷ []) none fresh).1.sent ≡ [] ++ repeat 2 one
unfolding ℕ_discrete
first_pair_only_example =
    first_pair_only cdn forbidding (λ k. forbids) (λ k. refl) (λ k. refl) (λ k. ground arith) one
      (two ∷ []) fresh refl refl

request-attempts_example :
    let after = (_request cdn forbidding no_body (one ∷ two ∷ []) [] fresh).1 in
    let pairs = pairs_or cdn forbidding (one ∷ two ∷ []) (_get_cert_key_list cdn []) in
    (after.attempts ≤ 0 + 2 * length pairs) × (0 < length pairs → 0 < after.attempts)
request-attempts_example = request-attempts cdn forbidding no_body (one ∷ two ∷ []) [] fresh

-- a connection with another pair is kept
abbrev kept : State
kept = record fresh { conn = some (new_conn two 0) }

-- a consumer whose first connection is closed by the server
abbrev consumer : RestLib
consumer = record {
  proxy_hostname = none;
  proxy_port = none;
  cert_file = some "1.pem";
  key_file = some "1-key.pem";
  cert_dir = none;
  is_valid = true;
}

abbrev accepts : Response
accepts = record { status = 200; content = "{}"; headers = ("Connection", "keep-alive") ∷ [] }

abbrev closing : ℕ → Attempt
closing zero = record { now = 0; has_errno = true; connecting = none; answer = raised disconnected }
closing (suc k) = record { now = 1; has_errno = true; connecting = none; answer = returned accepts }

request-retried_example :
    let (result, after) = _request consumer closing no_body (one ∷ []) [] kept in
    (result ≡ (if has_proxy consumer then raised proxy_exception else returned accepts))
    × (after.sent
        ≡ ([] ++ (pair_used consumer closing one kept ∷ []))
          ++ (if has_proxy consumer then [] else one ∷ []))
unfolding ℕ_discrete
request-retried_example =
    request-retried consumer closing no_body one [] kept accepts refl refl refl refl refl refl
