-- ===== src/Server/Tests.antt =====
-- Two releases on a small server, one of them published.
use mathlib.Core.List.{Memᴰ}
use salve_push.Base.{
  ◌≡◌, ◌↔◌, refl, true, false, some, List, [], ◌∷◌, codes, bytes_discrete, length,
}
use salve_push.Server.{
  Release, CreateInput, ListUpdatesFilter, ok, Service, put_works, exec_works, Faults, Parts,
  create, get, fits_table, updated, publish, list_updates, open_bundle, new_release, published_row,
}
use salve_push.Server.Stored.{empty_service, Reach, here, next, created, published, served-fits}
use salve_push.Server.Offers.{IsFor, IsNewestFirst, list_updates-IsNewestFirst}

-- A hash is the length, and every text is a UUID.
abbrev pub parts : Parts
parts = record { hash = λ b. length b ∷ []; go_parses = λ _. true; row_id = λ id. some id }

abbrev pub none_fails : Faults
none_fails = record {
  read = false;
  put = put_works;
  insert = exec_works;
  update = exec_works;
  select = false;
}

abbrev upload : CreateInput
upload = record {
  version = codes "1";
  platform = codes "ios";
  channel = codes "p";
  runtime_version = codes "2";
  bundle_hash = 2 ∷ [];
  signature = codes "s";
  rollout_percentage = 1;
  bundle = 7 ∷ 8 ∷ [];
}

abbrev first : Service
first = (create parts none_fails (codes "a") 10 upload empty_service).1

abbrev second : Service
second = (publish parts none_fails (codes "a") 20 first).1

abbrev history : Reach parts empty_service second
history =
    next (next here (created none_fails (codes "a") 10 upload empty_service tt))
      (published none_fails (codes "a") 20 first)

served-fits_example : (parts.hash upload.bundle ≡ upload.bundle_hash) × (length upload.bundle ≡ 2)
unfolding fits_table create publish updated get open_bundle bytes_discrete
served-fits_example =
    served-fits parts none_fails (codes "a") upload.bundle
      (published_row (codes "a") 20 (new_release (codes "a") 10 upload)) second history refl

abbrev pub filter : ListUpdatesFilter
filter = record { channel = codes "p"; platform = codes "ios"; runtime_version = codes "2" }

list_updates-IsNewestFirst_example :
    (rows : List Release) × (list_updates parts none_fails filter second ≡ ok rows)
    × IsNewestFirst rows
    × ((q : Release) → Memᴰ q rows ↔ (Memᴰ q second.rows × IsFor filter q))
list_updates-IsNewestFirst_example = list_updates-IsNewestFirst parts none_fails filter second refl
