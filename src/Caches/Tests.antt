-- ===== src/Caches/Tests.antt =====
-- Runs of src/subscription_manager/cache.py.
use subscription_manager.Base.{
  ◌≡◌, ◌↔◌, refl, ◌==◌, String, String-discrete, Option, contains, string_eq, ℕ, ℕ_discrete, true,
  false, ◌&&◌, some, none, [], ◌∷◌, ◌++◌, nat_eq, if◌then◌else◌,
}
use subscription_manager.Base.Dict.{lookup}
use subscription_manager.Base.Result.{ok}
use subscription_manager.Caches.File.{missing, stored, _read_cache}
use subscription_manager.Caches.Status.{
  raised, returned, unreachable, uncaught, unset, StatusCache, run_thread, _read_status,
  read_status, load_status,
}
use subscription_manager.Caches.Status.Laws.{known, read_status_again}
use subscription_manager.Connection.Responses.{Body, Response, RestLib}
use subscription_manager.Caches.Status.Requests.{
  answer_of, is_rejected, is_broken, load_status-refused,
}
use subscription_manager.Connection.Exceptions.{Call}
use subscription_manager.Caches.Consumer.{
  Kind, ConsumerCache, Round, is_usable, cached_data, keep_answer, load, read_cache_only, read_data,
}
use subscription_manager.Caches.Consumer.Laws.{stored_for, read_data-own}
use subscription_manager.Caches.Products.{Product, Setup, _setup_installed, to_dict}
use subscription_manager.Caches.Products.Laws.{
  told_from, provides, unchanged_sound, to_dict-unchanged,
}
use subscription_manager.Caches.Profile.{
  Host, ProfileManager, current_profile, upload_of, has_changed, same_profile, update_check,
}
use subscription_manager.Caches.Profile.Laws.{holds, due, update_check_lem, update_check_again}

-- a status in the file
abbrev cold : StatusCache ℕ
cold = record { server_status = none; last_error = unset; file = stored (some 7); pending = 0 }

read_status_again_example :
    let t = run_thread true (read_status (raised unreachable) cold).1 in
    read_status (returned (some 9)) t ≡ (returned (some 7), t)
unfolding read_status _read_status _read_cache
read_status_again_example =
    read_status_again (raised unreachable) (returned (some 9)) cold 7 true refl

abbrev lib : RestLib
lib = record {
  proxy_hostname = none;
  proxy_port = none;
  cert_file = some "cert.pem";
  key_file = some "key.pem";
  cert_dir = none;
  is_valid = true;
}

-- an old server without the resource, and no JSON
abbrev not_found : Response
not_found = record { status = 404; content = "404"; headers = [] }

abbrev no_json : String → Option Body
no_json text = none

load_status-refused_example :
    let after = load_status (answer_of no_json (λ r. some 9) lib not_found) cold in
    (after.0 ≡ (
      if is_rejected no_json not_found
      then returned none
      else if is_broken no_json not_found
      then raised uncaught
      else returned (known cold)))
    × (known after.1 ≡ known cold)
unfolding ℕ_discrete
load_status-refused_example = load_status-refused no_json (λ r. some 9) lib not_found cold refl

abbrev host : Host ℕ
host = record {
  collected = record { rpm = 1; enabled_repos = 2; modulemd = 3 };
  can_write = true;
  supports_packages = true;
  combined_reporting = true;
  takes = λ u. ok tt;
}

-- the file holds another profile
abbrev manager : ProfileManager ℕ
manager = record {
  _current_profile = none;
  report_package_profile = true;
  file = stored (record { rpm = 0; enabled_repos = 2; modulemd = 3 });
  sent = [];
}

update_check_example :
    let (result, after) = update_check host true false manager in
    (result ≡ ok (if due host true false manager then 1 else 0))
    × (after.sent ≡ (
        if due host true false manager
        then manager.sent ++ (upload_of host (current_profile host manager) ∷ [])
        else manager.sent))
    × (after.file ≡ (
        if due host true false manager && host.can_write
        then stored (current_profile host manager)
        else manager.file))
    × (current_profile host after ≡ current_profile host manager)
    × ((holds host manager.file (current_profile host manager) ≡ true)
        ↔ (manager.file ≡ stored (current_profile host manager)))
update_check_example = update_check_lem host true false manager refl

update_check_again_example :
    let after = (update_check host true true manager).1 in
    let (result, last) = update_check host true false after in
    (result ≡ ok 0) × (last.sent ≡ after.sent)
unfolding has_changed ℕ_discrete _read_cache same_profile current_profile
update_check_again_example = update_check_again host true manager refl refl refl

abbrev rhel : Product
rhel = record {
  id = "69";
  name = "RHEL";
  version = "9";
  architectures = "x86_64" ∷ [];
  provided_tags = "rhel" ∷ [];
}

-- what the manager writes of the product
abbrev set_up : Setup
set_up = _setup_installed (rhel ∷ [])

unchanged_sound_example :
    ((k : String) → lookup k set_up.installed ≡ told_from none k (rhel ∷ []))
    × ((t : String) → contains set_up.tags t ≡ provides t (rhel ∷ []))
unfolding to_dict
unchanged_sound_example =
    unchanged_sound (rhel ∷ []) set_up.installed set_up.tags (to_dict-unchanged (rhel ∷ []))

-- a cache of numbers, of which 0 is the empty value, for 10 seconds
abbrev kind : Kind ℕ
kind = record { timeout = some 10; default = 0; is_empty = λ n. n == 0 }

abbrev empty_cache : ConsumerCache ℕ
empty_cache = record { kept = []; file = missing; requests = 0 }

abbrev served : Round ℕ
served = record { obsoleted = false; age = 3; can_write = true; answer = Call.returned 7 }

abbrev one : String
one = "a"

abbrev other : String
other = "b"

abbrev filled_cache : ConsumerCache ℕ
filled_cache = record { kept = []; file = stored (("a", 5) ∷ []); requests = 0 }

read_data-own_example :
    (stored_for kind "a" filled_cache.file ≡ some 5) × (is_usable kind served filled_cache ≡ true)
unfolding ℕ_discrete String-discrete read_data cached_data keep_answer load read_cache_only
    _read_cache lookup
read_data-own_example = read_data-own kind "a" served 5 filled_cache refl refl refl
