-- ===== src/Server/Http.antt =====
-- server/internal/api/releases.go and updates.go: what the routes answer. `handleBundle` is in
-- Delivery. `Form` and the query are what net/http gives of a request.
pub mod Upload
pub mod Rows
pub mod Answers
pub mod Offered
mod Tests
use salve_push.Base.{
  ℕ, zero, suc, ltb, leb, ◌==◌, ◌^◌, ℤ, pos, negsuc, Bool, true, false, ◌||◌, Option, none, some,
  List, [], ◌∷◌, ◌++◌, Bytes, codes, map, if◌then◌else◌,
}
use salve_push.Posix.Format.{scan}
use salve_push.Server.{
  Release, CreateInput, ListUpdatesFilter, hash_mismatch, not_found, invalid_id, failed, Answer, ok,
  err, Service, Faults, Parts, create, get, publish, list_updates, list_releases,
}

-- `protocol.ReleaseMetadata`
pub record ReleaseMetadata : Type 0 where
  pub id : Bytes
  pub version : Bytes
  pub platform : Bytes
  pub channel : Bytes
  pub runtime_version : Bytes
  pub bundle_hash : Bytes
  pub signature : Option Bytes
  pub rollout_percentage : Option ℕ
  pub size : ℕ
  pub created_at : ℕ

abbrev pub to_release_metadata : Release → ReleaseMetadata
to_release_metadata r = record {
  id = r.id;
  version = r.version;
  platform = r.platform;
  channel = r.channel;
  runtime_version = r.runtime_version;
  bundle_hash = r.bundle_hash;
  signature = some r.signature;
  rollout_percentage = some r.rollout_percentage;
  size = r.bundle_size;
  created_at = r.created_at;
}

-- An answer of `http.Error` or of `writeJSON`, with its status.
pub data Reply : Type 0 where
  problem : ℕ → Bytes → Reply
  metadata : ℕ → ReleaseMetadata → Reply
  metadata_list : ℕ → List ReleaseMetadata → Reply

abbrev pub status : Reply → ℕ
status (problem code text) = code
status (metadata code m) = code
status (metadata_list code ms) = code

-- The error of `ParseMultipartForm`, the file `bundle`, and `FormValue`, which gives the empty text
-- for a field that is missing.
pub record Form : Type 0 where
  pub parse_error : Option Bytes
  pub bundle : Option Bytes
  pub value : Bytes → Bytes

-- `strconv.Atoi` on a machine with a 64-bit `int`.
abbrev pub to_int : Bool → ℕ → Option ℤ
to_int false n = if ltb n (2 ^ 63) then some (pos n) else none
to_int true zero = some (pos 0)
to_int true (suc n) = if ltb n (2 ^ 63) then some (negsuc n) else none

-- The digits must end with the text.
abbrev pub ends_with : Bool → ℕ × Bytes → Option ℤ
ends_with negative (n, []) = to_int negative n
ends_with negative (n, c ∷ rest) = none

abbrev pub digits : Bool → Bytes → Option ℤ
digits negative [] = none
digits negative (c ∷ rest) = ends_with negative (scan 0 (c ∷ rest))

unfoldable pub atoi : Bytes → Option ℤ
atoi [] = none
atoi (c ∷ rest) =
    if c == b'-'
    then digits true rest
    else if c == b'+'
    then digits false rest
    else digits false (c ∷ rest)

abbrev pub in_range : Option ℤ → Option ℕ
in_range none = none
in_range (some (pos n)) = if leb n 100 then some n else none
in_range (some (negsuc n)) = none

-- The rollout percentage of a form, or `none` where the answer is 400.
abbrev pub rollout_of : Bytes → Option ℕ
rollout_of [] = some 100
rollout_of (c ∷ rest) = in_range (atoi (c ∷ rest))

abbrev pub form_input : Form → Bytes → ℕ → CreateInput
form_input form bundle rollout = record {
  version = form.value (codes "version");
  platform = form.value (codes "platform");
  channel = form.value (codes "channel");
  runtime_version = form.value (codes "runtime_version");
  bundle_hash = form.value (codes "bundle_hash");
  signature = form.value (codes "signature");
  rollout_percentage = rollout;
  bundle = bundle;
}

abbrev pub is_empty : Bytes → Bool
is_empty [] = true
is_empty (c ∷ rest) = false

abbrev pub lacks_field : CreateInput → Bool
lacks_field in' =
    is_empty in'.version
    || is_empty in'.platform
    || is_empty in'.channel
    || is_empty in'.runtime_version
    || is_empty in'.bundle_hash
    || is_empty in'.signature

abbrev pub created_reply : Answer Release → Reply
created_reply (ok r) = metadata 201 (to_release_metadata r)
created_reply (err hash_mismatch) =
    problem 400 (codes "bundle_hash does not match uploaded bundle content")
created_reply (err not_found) = problem 500 (codes "failed to create release")
created_reply (err invalid_id) = problem 500 (codes "failed to create release")
created_reply (err failed) = problem 500 (codes "failed to create release")

-- What `handleGet` and `handlePublish` say of an answer: `noun` is what was asked for, and `action`
-- what was to be done.
abbrev pub release_reply : Bytes → Bytes → Answer Release → Reply
release_reply noun action (ok r) = metadata 200 (to_release_metadata r)
release_reply noun action (err invalid_id) = problem 400 (codes "invalid " ++ (noun ++ codes " id"))
release_reply noun action (err not_found) = problem 404 (noun ++ codes " not found")
release_reply noun action (err hash_mismatch) = problem 500 (codes "failed to " ++ action)
release_reply noun action (err failed) = problem 500 (codes "failed to " ++ action)

abbrev pub list_reply : Bytes → Answer (List Release) → Reply
list_reply noun (ok rows) = metadata_list 200 (map to_release_metadata rows)
list_reply noun (err e) = problem 500 (codes "failed to list " ++ noun)

module _ (P : Parts) where
  module _ (x : Faults) (id : Bytes) (now : ℕ) (form : Form) (s : Service) where
    abbrev pub with_input : CreateInput → Reply × Service
    with_input in' =
        if lacks_field in'
        then (
          problem 400 (
              codes
                "version, platform, channel, runtime_version, bundle_hash and signature are required"),
          s,
        )
        else (let (answer, s') = create P x id now in' s in (created_reply answer, s'))

    abbrev pub with_rollout : Bytes → Option ℕ → Reply × Service
    with_rollout bundle none = (problem 400 (codes "invalid rollout_percentage"), s)
    with_rollout bundle (some rollout) = with_input (form_input form bundle rollout)

    abbrev pub with_file : Option Bytes → Reply × Service
    with_file none = (problem 400 (codes "missing bundle file"), s)
    with_file (some bundle) =
        with_rollout bundle (rollout_of (form.value (codes "rollout_percentage")))

    abbrev pub parsed : Option Bytes → Reply × Service
    parsed none = with_file form.bundle
    parsed (some reason) = (problem 400 (codes "invalid multipart form: " ++ reason), s)

    -- `handleCreate`, with the identifier and the time that `Create` draws.
    unfoldable pub handle_create : Reply × Service
    handle_create = parsed form.parse_error

  -- The handlers of releases.go; `id` is the path's.
  unfoldable pub handle_list : Faults → Service → Reply
  handle_list x s = list_reply (codes "releases") (list_releases P x s)

  unfoldable pub handle_get : Faults → Bytes → Service → Reply
  handle_get x id s = release_reply (codes "release") (codes "get release") (get P x id s)

  unfoldable pub handle_publish : Faults → Bytes → ℕ → Service → Reply × Service
  handle_publish x id now s =
      let (answer, s') = publish P x id now s in
      (release_reply (codes "release") (codes "publish release") answer, s')

  -- The handlers of updates.go.
  unfoldable pub handle_updates : Faults → ListUpdatesFilter → Service → Reply
  handle_updates x f s =
      if is_empty f.channel || is_empty f.platform || is_empty f.runtime_version
      then problem 400 (codes "channel, platform and runtime_version are required")
      else list_reply (codes "updates") (list_updates P x f s)

  unfoldable pub handle_update : Faults → Bytes → Service → Reply
  handle_update x id s = release_reply (codes "update") (codes "get update") (get P x id s)
