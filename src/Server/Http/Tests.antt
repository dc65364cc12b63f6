-- ===== src/Server/Http/Tests.antt =====
-- An upload of the command line client to the small server, and its publication.
use salve_push.Base.{◌≡◌, ◌⊎◌, refl, none, some, [], ◌∷◌, codes, arith, Bytes}
use salve_push.Cli.{ReleaseParams, ReleasePayload, natural, form_fields}
use salve_push.Delivery.{create_input}
use salve_push.Server.{Faults, exec_lost, Service, create}
use salve_push.Server.Stored.{empty_service, All}
use salve_push.Server.Tests.{parts, none_fails, filter}
use salve_push.Server.Http.{Form, created_reply, handle_create, handle_publish, handle_updates}
use salve_push.Server.Http.Upload.{field_value, upload_creates}
use salve_push.Server.Http.Answers.{IsRow, Created, Refused, Lost, handle_create_cases}
use salve_push.Server.Http.Rows.{here, next, uploads, publishes, Requests-IsRow}
use salve_push.Server.Http.Offered.{upload_hidden}

abbrev params : ReleaseParams
params = record {
  server_url = codes "s";
  version = codes "1";
  platform = codes "ios";
  channel = codes "p";
  runtime_version = codes "2";
  bundle_path = codes "b";
  rollout_percentage = some (natural 25);
  private_key = [];
}

abbrev payload : ReleasePayload
payload = record { bundle_hash = 2 ∷ []; signature = codes "s"; bundle_bytes = 7 ∷ 8 ∷ [] }

abbrev form : Form
form = record {
  parse_error = none;
  bundle = some payload.bundle_bytes;
  value = field_value (form_fields params payload);
}

abbrev id : Bytes
id = codes "a"

abbrev first : Service
first = (handle_create parts none_fails id 10 form empty_service).1

abbrev second : Service
second = (handle_publish parts none_fails id 20 first).1

upload_creates_example : handle_create parts none_fails id 10 form empty_service ≡ (
  created_reply (create parts none_fails id 10 (create_input params payload 25) empty_service).0,
  (create parts none_fails id 10 (create_input params payload 25) empty_service).1,
)
upload_creates_example =
    upload_creates parts none_fails id 10 25 params payload form empty_service refl refl
      (λ name. refl) refl refl (omega arith)

abbrev lost_answer : Faults
lost_answer = record none_fails { insert = exec_lost }

handle_create_cases_example :
    Created parts id 10 empty_service (handle_create parts lost_answer id 10 form empty_service)
    ⊎ (Refused parts id 10 empty_service (handle_create parts lost_answer id 10 form empty_service)
        ⊎ Lost parts id 10 empty_service exec_lost
            (handle_create parts lost_answer id 10 form empty_service))
handle_create_cases_example = handle_create_cases parts id 10 empty_service lost_answer form

Requests-IsRow_example : All IsRow second.rows
Requests-IsRow_example = Requests-IsRow parts (
    next (next here (uploads none_fails id 10 form empty_service))
      (publishes none_fails id 20 first))

upload_hidden_example :
    handle_updates parts none_fails filter first
    ≡ handle_updates parts none_fails filter empty_service
upload_hidden_example = upload_hidden parts none_fails none_fails id 10 form filter empty_service
