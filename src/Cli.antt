-- ===== src/Cli.antt =====
-- packages/cli/src/release.ts: the upload of a signed release.
pub mod Keys
use salve_push.Base.{ℕ, Option, none, some, List, [], ◌∷◌, ◌++◌, Bytes, codes}
use salve_push.Posix.Format.{decimal}
use salve_push.Protocol.{Runtime, ReleaseSigningInput, ◌>>=◌, sha256_hex, sign_release}

-- A number of JavaScript: a natural one below 10^21, or another one, as `NaN`, a negative one or a
-- fraction, with the text that `String` makes of it.
pub data Number : Type 0 where
  natural : ℕ → Number
  other_number : Bytes → Number

pub record ReleaseParams : Type 0 where
  pub server_url : Bytes
  pub version : Bytes
  pub platform : Bytes
  pub channel : Bytes
  pub runtime_version : Bytes
  pub bundle_path : Bytes
  pub rollout_percentage : Option Number
  pub private_key : Bytes

pub record ReleasePayload : Type 0 where
  pub bundle_hash : Bytes
  pub signature : Bytes
  pub bundle_bytes : Bytes

abbrev pub params_input : ReleaseParams → Bytes → ReleaseSigningInput
params_input params hash = record {
  bundle_hash = hash;
  version = params.version;
  platform = params.platform;
  channel = params.channel;
  runtime_version = params.runtime_version;
}

-- `params.rolloutPercentage ?? 100`
abbrev pub or_all : Option Number → Number
or_all none = natural 100
or_all (some percentage) = percentage

-- `String`
abbrev pub number_text : Number → Bytes
number_text (natural n) = decimal n
number_text (other_number text) = text

module _ (R : Runtime) where
  -- `read_file` gives `none` where reading the bundle throws.
  unfoldable pub build_release_payload :
      (Bytes → Option Bytes) → ReleaseParams → Option ReleasePayload
  build_release_payload read_file params = do
    bytes ← read_file params.bundle_path
    signature ← sign_release R params.private_key (params_input params (sha256_hex R bytes))
    some (record { bundle_hash = sha256_hex R bytes; signature = signature; bundle_bytes = bytes })

-- The fields of the form that `publishRelease` sends, its file apart.
unfoldable pub form_fields : ReleaseParams → ReleasePayload → List (Bytes × Bytes)
form_fields params payload =
    (codes "version", params.version)
    ∷ (codes "platform", params.platform)
    ∷ (codes "channel", params.channel)
    ∷ (codes "runtime_version", params.runtime_version)
    ∷ (codes "bundle_hash", payload.bundle_hash)
    ∷ (codes "signature", payload.signature)
    ∷ (codes "rollout_percentage", number_text (or_all params.rollout_percentage))
    ∷ []

-- The request of `publishRelease`: the form has these fields and then the file `bundle`.
pub record UploadRequest : Type 0 where
  pub url : Bytes
  pub fields : List (Bytes × Bytes)
  pub bundle : Bytes

abbrev pub upload_request : ReleaseParams → ReleasePayload → UploadRequest
upload_request params payload = record {
  url = params.server_url ++ codes "/v1/releases";
  fields = form_fields params payload;
  bundle = payload.bundle_bytes;
}

module _ (R : Runtime) where
  -- `publishRelease` up to its `fetch`, or `none` where it throws before.
  unfoldable pub publish_release : (Bytes → Option Bytes) → ReleaseParams → Option UploadRequest
  publish_release read_file params = do
    payload ← build_release_payload R read_file params
    some (upload_request params payload)
