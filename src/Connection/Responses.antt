-- ===== src/Connection/Responses.antt =====
-- How a response becomes a value or an exception: `validateResult` and `_extract_content_from_response` of
-- src/rhsm/connection.py.
pub mod Laws
use Prim.Native.Char.{Char, code}
use text.Mathlib.Text.{starts_with}
use subscription_manager.Base.{
  ℕ, zero, suc, ◌+◌, ◌-◌, ◌*◌, String, Bool, true, false, not, ◌&&◌, ◌||◌, Option, none, some,
  is_some, List, [], ◌∷◌, Eq, ◌==◌, contains, string_eq, nat_eq, leb, if◌then◌else◌,
}
use subscription_manager.Base.Slashes.{join}
use subscription_manager.Base.Dict.{Dict, lookup}
use subscription_manager.Connection.Exceptions.{
  Exception, gone_exception, rate_limit_exceeded_exception, restlib_exception,
  unknown_content_exception, remote_server_exception, unauthorized_exception, forbidden_exception,
  proxy_exception, missing_key,
}

-- a character that is a decimal digit of ASCII
abbrev pub is_digit : Char → Bool
is_digit c = leb 48 (code c) && leb (code c) 57

-- the number whose digits follow those of another one
abbrev number_from : ℕ → String → Option ℕ
number_from n String.[] = some n
number_from n (String.◌∷◌ c s) =
    let rest = number_from (n * 10 + (code c - 48)) s in if is_digit c then rest else none

-- `safe_int(value)`, of a text that is decimal digits or no number
unfoldable pub safe_int : Option String → Option ℕ
safe_int none = none
safe_int (some String.[]) = none
safe_int (some (String.◌∷◌ c s)) = number_from 0 (String.◌∷◌ c s)

-- What is read of a body that is a JSON object; `others` tells whether it has any other key.
pub record Body : Type 0 where
  pub display_message : Option String
  pub errors : Option (List String)
  pub error_description : Option String
  pub deleted_id : Option String
  pub others : Bool

-- `bool(parsed)`
abbrev is_parsed : Body → Bool
is_parsed b =
    is_some b.display_message
    || is_some b.errors
    || is_some b.error_description
    || is_some b.deleted_id
    || b.others

pub record Response : Type 0 where
  pub status : ℕ
  pub content : String
  pub headers : Dict String String

-- What `BaseRestLib` is made with, and whether the certificate in its `cert_file` is valid.
pub record RestLib : Type 0 where
  pub proxy_hostname : Option String
  pub proxy_port : Option ℕ
  pub cert_file : Option String
  pub key_file : Option String
  pub cert_dir : Option String
  pub is_valid : Bool

-- bool(text) of a text or None
abbrev pub truthy : Option String → Bool
truthy none = false
truthy (some s) = not (s == "")

-- `_parse_msg_from_error_response_body`
unfoldable pub _parse_msg_from_error_response_body : Body → Option String
_parse_msg_from_error_response_body b = elim b.display_message [
  | some msg ↦ some msg
  | none ↦ elim b.errors [ some errors ↦ some (join " " errors) | none ↦ b.error_description ]
]

-- `msg or default`
abbrev pub text_or : String → Option String → String
text_or default none = default
text_or default (some s) = if s == "" then default else s

-- `RateLimitExceededException`; its text is without the seconds that follow
unfoldable pub rate_limit : Response → Option String → Exception
unfolding safe_int
rate_limit r msg =
    rate_limit_exceeded_exception r.status (text_or "Access rate limit exceeded" msg)
      (safe_int (lookup "retry-after" r.headers))

-- `GoneException` of two entries of the body, which may be missing
abbrev pub gone_of : ℕ → Option String → Option String → Exception
gone_of status (some msg) (some deleted_id) = gone_exception status msg deleted_id
gone_of status (some msg) none = missing_key
gone_of status none id = missing_key

abbrev pub proxy_message : String
proxy_message =
    "Unable to make a connection using SSL client certificate. Please review proxy configuration and connectivity."

-- the exception for a status, with a body that holds something
unfoldable pub with_body : RestLib → Response → Body → Exception
unfolding rate_limit _parse_msg_from_error_response_body
with_body lib r parsed =
    let error_msg = _parse_msg_from_error_response_body parsed in
    if r.status == 410
    then gone_of r.status parsed.display_message parsed.deleted_id
    else if r.status == 407
    then proxy_exception
    else if r.status == 429
    then rate_limit r error_msg
    else if r.status == 401 && truthy lib.proxy_hostname && truthy lib.cert_file && lib.is_valid
    then restlib_exception r.status proxy_message
    else restlib_exception r.status (text_or "" error_msg)

-- the exception for a status without one
unfoldable pub without_body : Response → Exception
unfolding rate_limit
without_body r =
    if contains (404 ∷ 410 ∷ 500 ∷ 502 ∷ 503 ∷ 504 ∷ []) r.status
    then remote_server_exception r.status
    else if r.status == 401
    then unauthorized_exception r.status
    else if r.status == 403
    then forbidden_exception r.status
    else if r.status == 429
    then rate_limit r none
    else if r.status == 407
    then proxy_exception
    else unknown_content_exception r.status (lookup "Content-Type" r.headers)

abbrev pub is_accepted : ℕ → Bool
is_accepted status = contains (200 ∷ 202 ∷ 204 ∷ 304 ∷ []) status

-- `loads` is json.loads of a text, `none` where that fails or yields an empty value.
module _ (loads : String → Option Body) where
  -- `parsed`, `none` where that is empty
  abbrev filled : Option Body → Option Body
  filled none = none
  filled (some b) = if is_parsed b then some b else none

  unfoldable pub parsed_of : Response → Option Body
  parsed_of r = if r.content == "" then none else filled (loads r.content)

  -- what `validateResult` raises, if anything
  unfoldable pub validate_result : RestLib → Response → Option Exception
  unfolding parsed_of with_body without_body
  validate_result lib r =
      if is_accepted r.status
      then none
      else some (elim (parsed_of r) [ some b ↦ with_body lib r b | none ↦ without_body r ])

-- What `_extract_content_from_response` returns: nothing, JSON, or the text.
pub data Extracted (J : Type 0) : Type 0 where
  nothing : Extracted J
  json : J → Extracted J
  plain : String → Extracted J

unfoldable pub _extract_content_from_response :
    {J : Type 0} → (String → Option J) → Response → Extracted J
_extract_content_from_response load r =
    if r.content == ""
    then nothing
    else elim (load r.content) [ some j ↦ json j | none ↦ plain r.content ]
