-- ===== src/Connection/Requests.antt =====
-- `_create_connection`, `_make_request` and `_request` of src/rhsm/connection.py. The network is a function
-- from the number of an attempt to what happens then.
pub mod Attempts
pub mod Reuse
use Prim.Native.Char.{code}
use text.Mathlib.Text.{find?}
use subscription_manager.Base.{
  ℕ, zero, suc, ◌+◌, ◌-◌, String, ◌<>◌, Bool, true, false, not, ◌&&◌, ◌||◌, Option, none, some,
  is_some, List, [], ◌∷◌, ◌++◌, ◌==◌, nat_eq, string_eq, ltb, if◌then◌else◌,
}
use subscription_manager.Base.Dict.{Dict}
use subscription_manager.Base.Slashes.{same_letters, has_part, drop_suffix}
use subscription_manager.Connection.Exceptions.{
  Class, Exception, expired_identity_cert_exception, proxy_exception,
  no_valid_entitlement_exception, connection_os_error_exception, no_result, ssl_failed, no_address,
  disconnected, connection_failed, os_failed, is_instance, Call, raised, returned,
}
use subscription_manager.Connection.Responses.{Body, Response, RestLib, truthy, validate_result}
use subscription_manager.Connection.KeepAlive.{parse_keep_alive_header}

-- the files of a certificate and its key
abbrev pub Pair : Type 0
Pair = Option String × Option String

-- An open connection, with the certificate that it was made with. `max_request_num` is the attribute that
-- the header Keep-Alive sets.
pub record Conn : Type 0 where
  pub cert : Pair
  last_request_time : ℕ
  keep_alive_timeout : ℕ
  requests_num : ℕ
  max_requests_num : Option ℕ
  max_request_num : Option ℕ

-- The connection that is kept, whether the consumer's certificate worked, the number of attempts, and the
-- certificates of the connections that requests were sent over.
pub record State : Type 0 where
  pub conn : Option Conn
  pub is_consumer_cert_key_valid : Option Bool
  pub attempts : ℕ
  pub sent : List Pair

-- An attempt: the time, how connecting fails, if it does, and whether with a number of the error, and what a request over the connection
-- yields.
pub record Attempt : Type 0 where
  pub now : ℕ
  pub has_errno : Bool
  pub connecting : Option Exception
  pub answer : Call Response

-- `close_connection`
unfoldable pub close_connection : State → State
close_connection s = record s { conn = none }

abbrev pub new_conn : Pair → ℕ → Conn
new_conn cert now = record {
  cert = cert;
  last_request_time = now;
  keep_alive_timeout = 50;
  requests_num = 0;
  max_requests_num = none;
  max_request_num = none;
}

-- `self.__conn.max_requests_num is not None and self.__conn.requests_num > self.__conn.max_requests_num`
abbrev is_exhausted : Conn → Bool
is_exhausted c = elim c.max_requests_num [ none ↦ false | some n ↦ ltb n c.requests_num ]

-- the connection that can be used again
unfoldable pub reusable : ℕ → Option Conn → Option Conn
reusable now none = none
reusable now (some c) =
    if ltb c.keep_alive_timeout (now - c.last_request_time) || is_exhausted c then none else some c

-- an error of the operating system without a number is wrapped
abbrev wrapped : Bool → Exception → Exception
wrapped has_errno e =
    if is_instance Class.os_error e && not has_errno then connection_os_error_exception else e

-- `_create_connection`: what it returns or raises, and the connection that is kept
unfoldable pub _create_connection : Pair → Attempt → Option Conn → Call Conn × Option Conn
unfolding reusable
_create_connection cert a old = elim (reusable a.now old) [
  | some c ↦ (returned c, some c)
  | none ↦ elim a.connecting [
    | some e ↦ (raised (wrapped a.has_errno e), none)
    | none ↦ (returned (new_conn cert a.now), some (new_conn cert a.now))
  ]
]

-- `getheader(name)` of a name in small letters
abbrev getheader : String → Dict String String → Option String
getheader name [] = none
getheader name ((k, v) ∷ headers) = if same_letters k name then some v else getheader name headers

-- `_get_cert_key_list`, with the names of the files in `cert_dir`
abbrev ends_with : String → String → Bool
ends_with suffix s = not (drop_suffix suffix s == s)

-- cert_file.split(".", 1)[0]
abbrev before_dot : String → String
before_dot String.[] = ""
before_dot (String.◌∷◌ c s) = if code c == 46 then "" else String.◌∷◌ c (before_dot s)

abbrev pairs_of : String → List String → List Pair
pairs_of dir [] = []
pairs_of dir (cert_file ∷ files) =
    let rest = pairs_of dir files in
    if ends_with ".pem" cert_file && not (ends_with "-key.pem" cert_file)
    then (some (dir <> "/" <> cert_file), some (dir <> "/" <> before_dot cert_file <> "-key.pem"))
      ∷ rest
    else rest

unfoldable pub _get_cert_key_list : RestLib → List String → List Pair
_get_cert_key_list lib files = elim lib.cert_dir [
  | none ↦ (lib.cert_file, lib.key_file) ∷ []
  | some dir ↦ pairs_of dir files
]

module _ (lib : RestLib) where
  abbrev pub has_proxy : Bool
  has_proxy =
      truthy lib.proxy_hostname
      && elim lib.proxy_port [ none ↦ false | some port ↦ not (port == 0) ]

  -- what an exception of the operating system, the network or TLS becomes, other than in a directory of
  -- certificates
  unfoldable pub becomes : Exception → Exception
  becomes ssl_failed =
      if truthy lib.cert_file && not (truthy lib.cert_dir) && not lib.is_valid
      then expired_identity_cert_exception
      else ssl_failed
  becomes no_address = if has_proxy then proxy_exception else no_address
  becomes disconnected = if has_proxy then proxy_exception else disconnected
  becomes (connection_failed text) =
      if has_proxy
      then proxy_exception
      else if has_part "407" text
      then proxy_exception
      else connection_failed text
  becomes (os_failed text) = if has_part "407" text then proxy_exception else os_failed text
  becomes e = e

  abbrev pub is_ssl : Exception → Bool
  is_ssl e = is_instance Class.ssl_error e

  -- the mark that an expired certificate leaves
  abbrev note_expired : Exception → State → State
  note_expired e s =
      if is_ssl e && truthy lib.cert_file && not (truthy lib.cert_dir) && not lib.is_valid
      then record s { is_consumer_cert_key_valid = some false }
      else s

  -- the number of requests that a header Keep-Alive allows, and its timeout
  abbrev adopt_timeout : Option ℕ → Conn → Conn
  adopt_timeout none c = c
  adopt_timeout (some n) c = record c { keep_alive_timeout = n }

  abbrev adopt_max : Option ℕ → Conn → Conn
  adopt_max none c = c
  adopt_max (some n) c = record c { max_request_num = some n }

  unfoldable pub adopt : Option String → Option Conn → Option Conn
  unfolding parse_keep_alive_header
  adopt none conn = conn
  adopt (some header) none = none
  adopt (some header) (some c) =
      let (timeout, max_num) = parse_keep_alive_header header in
      some (adopt_max max_num (adopt_timeout timeout c))

  -- what `_request` does with the headers of a response
  abbrev closes : Option String → Bool
  closes none = false
  closes (some value) = same_letters value "close"

  unfoldable pub use_headers : Response → State → State
  unfolding adopt close_connection
  use_headers r s =
      let kept = if closes (getheader "connection" r.headers) then close_connection s else s in
      record kept { conn = adopt (getheader "keep-alive" r.headers) kept.conn }

  module _ (net : ℕ → Attempt) where
    -- the request over a connection, if there is one
    abbrev pub use_conn : Attempt → State → Call Conn × Option Conn → Call Response × State
    use_conn a s (raised e, kept) = (raised e, record s { conn = kept; attempts = suc s.attempts })
    use_conn a s (returned c, kept) = (
      a.answer,
      record s {
        conn = some (record c { last_request_time = a.now });
        attempts = suc s.attempts;
        sent = s.sent ++ (c.cert ∷ []);
      },
    )

    -- An attempt with a pair: the connection, and the request over it.
    unfoldable pub attempt : Pair → State → Call Response × State
    unfolding _create_connection
    attempt cert s = let a = net s.attempts in use_conn a s (_create_connection cert a s.conn)

    -- The body of the loop of `_make_request` behind an attempt; `next` is the rest of the loop.
    abbrev pub go_on :
        (Option Response → State → Call (Option Response) × State)
        → Option Response
        → Call Response × State
        → Call (Option Response) × State
    go_on next last (returned r, t) =
        if r.status == 200
        then (returned (some r), record t { is_consumer_cert_key_valid = some true })
        else next (some r) t
    go_on next last (raised e, t) =
        if is_ssl e && truthy lib.cert_dir
        then next last t
        else (raised (becomes e), note_expired e t)

    -- The loop of `_make_request`, with the last response.
    unfoldable pub _make_request :
        List Pair → Option Response → State → Call (Option Response) × State
    unfolding attempt becomes
    _make_request [] last s =
        if truthy lib.cert_dir
        then (raised no_valid_entitlement_exception, s)
        else (returned last, s)
    _make_request (cert ∷ pairs) last s = go_on (_make_request pairs) last (attempt cert s)

    -- once more where the server closed the connection
    abbrev pub retried : List Pair → Call (Option Response) × State → Call (Option Response) × State
    retried pairs (returned r, s) = (returned r, s)
    retried pairs (raised e, s) =
        if is_instance Class.remote_disconnected e
        then _make_request pairs none (close_connection s)
        else (raised e, s)

    -- the end of `_request`, on a result that there is
    abbrev pub checked :
        (String → Option Body) → Call (Option Response) × State → Call Response × State
    checked loads (raised e, s) = (raised e, s)
    checked loads (returned none, s) = (raised no_result, s)
    checked loads (returned (some r), s) = (
      elim (validate_result loads lib r) [ some e ↦ raised e | none ↦ returned r ],
      use_headers r s,
    )

    -- `_request`, with the pairs that it is given and the names of the files in `cert_dir`
    abbrev pub pairs_or : List Pair → List Pair → List Pair
    pairs_or [] own = own
    pairs_or (p ∷ pairs) own = p ∷ pairs

    unfoldable pub _request :
        (String → Option Body) → List Pair → List String → State → Call Response × State
    unfolding _make_request use_headers
    _request loads given files s =
        let pairs = pairs_or given (_get_cert_key_list lib files) in
        checked loads (retried pairs (_make_request pairs none s))
