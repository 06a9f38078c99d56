-- ===== src/Connection/Exceptions.antt =====
-- The exceptions of src/rhsm/connection.py and of the standard library that a request raises, and their classes.
use subscription_manager.Base.{ℕ, String, Bool, Option, none, some, List, [], ◌∷◌, Eq, contains}

pub data Class : Type 0 where
  connection_exception restlib gone rate_limit_exceeded unknown_content remote_server : Class
  authentication unauthorized forbidden expired_identity_cert proxy no_valid_entitlement : Class
  connection_os_error key_error type_error os_error connection_error remote_disconnected ssl_error
        gaierror :
      Class

unfoldable pub Class-discrete : Discrete Class
Class-discrete = hlevel

instance abbrev pub class_eq : Eq Class
class_eq = record { dec = Class-discrete }

-- a class with those above it
unfoldable pub bases : Class → List Class
bases connection_exception = connection_exception ∷ []
bases restlib = restlib ∷ connection_exception ∷ []
bases gone = gone ∷ restlib ∷ connection_exception ∷ []
bases rate_limit_exceeded = rate_limit_exceeded ∷ restlib ∷ connection_exception ∷ []
bases unknown_content = unknown_content ∷ connection_exception ∷ []
bases remote_server = remote_server ∷ connection_exception ∷ []
bases authentication = authentication ∷ remote_server ∷ connection_exception ∷ []
bases unauthorized = unauthorized ∷ authentication ∷ remote_server ∷ connection_exception ∷ []
bases forbidden = forbidden ∷ authentication ∷ remote_server ∷ connection_exception ∷ []
bases expired_identity_cert = expired_identity_cert ∷ connection_exception ∷ []
bases proxy = proxy ∷ []
bases no_valid_entitlement = no_valid_entitlement ∷ []
bases connection_os_error = connection_os_error ∷ connection_exception ∷ []
bases key_error = key_error ∷ []
bases type_error = type_error ∷ []
bases os_error = os_error ∷ []
bases connection_error = connection_error ∷ os_error ∷ []
bases remote_disconnected = remote_disconnected ∷ connection_error ∷ os_error ∷ []
bases ssl_error = ssl_error ∷ os_error ∷ []
bases gaierror = gaierror ∷ os_error ∷ []

-- The exceptions with what is read of them; that of the operating system has its text.
pub data Exception : Type 0 where
  gone_exception : (code : ℕ) (msg deleted_id : String) → Exception
  rate_limit_exceeded_exception : (code : ℕ) (msg : String) (retry_after : Option ℕ) → Exception
  restlib_exception : (code : ℕ) (msg : String) → Exception
  unknown_content_exception : (code : ℕ) (content_type : Option String) → Exception
  remote_server_exception unauthorized_exception forbidden_exception : (code : ℕ) → Exception
  expired_identity_cert_exception proxy_exception no_valid_entitlement_exception : Exception
  connection_os_error_exception missing_key no_result ssl_failed no_address disconnected : Exception
  connection_failed os_failed : String → Exception

unfoldable pub class_of : Exception → Class
class_of (gone_exception code msg deleted_id) = gone
class_of (rate_limit_exceeded_exception code msg retry_after) = rate_limit_exceeded
class_of (restlib_exception code msg) = restlib
class_of (unknown_content_exception code content_type) = unknown_content
class_of (remote_server_exception code) = remote_server
class_of (unauthorized_exception code) = unauthorized
class_of (forbidden_exception code) = forbidden
class_of expired_identity_cert_exception = expired_identity_cert
class_of proxy_exception = proxy
class_of no_valid_entitlement_exception = no_valid_entitlement
class_of connection_os_error_exception = connection_os_error
class_of missing_key = key_error
class_of no_result = type_error
class_of ssl_failed = ssl_error
class_of no_address = gaierror
class_of disconnected = remote_disconnected
class_of (connection_failed text) = connection_error
class_of (os_failed text) = os_error

-- isinstance(e, c)
unfoldable pub is_instance : Class → Exception → Bool
unfolding class_of bases
is_instance c e = contains (bases (class_of e)) c

-- `deleted_id` of a GoneException, and `none` of the others
unfoldable pub deleted_id_of : Exception → Option String
deleted_id_of (gone_exception code msg deleted_id) = some deleted_id
deleted_id_of e = none

-- What a call returns or raises.
pub data Call {ℓ} (A : Type ℓ) : Type ℓ where
  raised : Exception → Call A
  returned : A → Call A
