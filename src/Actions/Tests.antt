-- ===== src/Actions/Tests.antt =====
-- Runs of src/subscription_manager/base_action_client.py and of the worker of rhsmcertd.
use subscription_manager.Base.{
  ◌≡◌, refl, String, true, false, Option, none, some, List, [], ◌∷◌, ◌==◌, string_eq,
  String-discrete, text_option_eq, map, if◌then◌else◌,
}
use subscription_manager.Connection.Exceptions.{returned}
use subscription_manager.Connection.Responses.{Body, Response, RestLib}
use subscription_manager.Actions.{Lib}
use subscription_manager.Actions.Locked.{update}
use subscription_manager.Actions.Worker.{Host, clean_all_data, _main}
use subscription_manager.Actions.Worker.Deletion.{asks, first_deleted, main-deleted}

abbrev host : Host
host = record {
  consumer = some "uuid";
  consumer_old = none;
  entitlements = some ("12.pem" ∷ "12-key.pem" ∷ []);
  caches = "profile" ∷ "content_access" ∷ [];
  syspurpose_cached = true;
  repo_files = "redhat.repo" ∷ [];
}

cleaned : clean_all_data true host ≡ record {
  consumer = none;
  consumer_old = some "uuid";
  entitlements = some [];
  caches = "content_access" ∷ [];
  syspurpose_cached = false;
  repo_files = [];
}
unfolding clean_all_data String-discrete
cleaned = refl

abbrev rest : RestLib
rest = record {
  proxy_hostname = none;
  proxy_port = none;
  cert_file = some "cert.pem";
  key_file = some "key.pem";
  cert_dir = none;
  is_valid = true;
}

-- a body that tells that the consumer is deleted, and any other text
abbrev loads : String → Option Body
loads text =
    if text == "deleted"
    then some (record {
      display_message = some "Unit has been deleted";
      errors = none;
      error_description = none;
      deleted_id = some "uuid";
      others = false;
    })
    else none

-- a 410 of something in between, and one of the server
abbrev responses : List (String × Response)
responses =
    ("entcertlib", record { status = 410; content = "Gone"; headers = [] })
    ∷ ("factlib", record { status = 410; content = "deleted"; headers = [] })
    ∷ []

abbrev reports : Response → Option String
reports r = some r.content

main-deleted_example :
    (_main false false (returned tt) (map (asks loads rest reports) responses) host).1 ≡ (
      if first_deleted loads rest reports responses == some "uuid"
      then clean_all_data true host
      else host)
main-deleted_example = main-deleted loads rest reports false false responses host "uuid" refl refl

abbrev lib : Lib String String
lib = record { name = "factlib"; update = λ s. (returned (some "facts"), s) }
