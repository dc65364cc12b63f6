-- ===== src/Sdk/Update.antt =====
-- packages/sdk-react-native/src/update.ts and types.ts: which update the server offers, its
-- download and its verification.
use salve_push.Base.{
  ℕ, Bool, Option, none, some, List, [], ◌∷◌, ◌++◌, Bytes, codes, bytes_eq, if◌then◌else◌,
}
use salve_push.Protocol.{Runtime, ReleaseSigningInput, sha256_hex, verify_release}

pub record SalvePushConfig : Type 0 where
  pub server_url : Bytes
  pub channel : Bytes
  pub runtime_version : Bytes
  pub platform : Bytes
  pub signing_public_key : Bytes

pub record UpdateInfo : Type 0 where
  pub id : Bytes
  pub version : Bytes
  pub platform : Bytes
  pub channel : Bytes
  pub runtime_version : Bytes
  pub bundle_hash : Bytes
  pub signature : Bytes
  pub size : ℕ

-- The same with a signature that may be missing.
pub record RawReleaseMetadata : Type 0 where
  pub id : Bytes
  pub version : Bytes
  pub platform : Bytes
  pub channel : Bytes
  pub runtime_version : Bytes
  pub bundle_hash : Bytes
  pub signature : Option Bytes
  pub size : ℕ

-- The errors that are thrown; `rejected` is one of `fetch` or of reading a body, and `native` one
-- of the native module.
pub data SdkError : Type 0 where
  not_configured : SdkError
  no_signature : Bytes → SdkError
  check_failed : ℕ → SdkError
  download_failed : ℕ → SdkError
  hash_mismatch : SdkError
  signature_failed : SdkError
  nothing_downloaded : SdkError
  rejected : SdkError
  native : SdkError

pub data Result (A : Type 0) : Type 0 where
  ok : A → Result A
  err : SdkError → Result A

infixl 5 ◌>>=◌
abbrev pub ◌>>=◌ : {A B : Type 0} → Result A → (A → Result B) → Result B
ok a >>= f = f a
err e >>= f = err e

-- A URL as `new URL(path, base)` with search parameters.
pub record Url : Type 0 where
  pub base : Bytes
  pub path : Bytes
  pub query : List (Bytes × Bytes)

-- A response: its status, and its body, `none` where reading it rejects.
pub record Response : Type 0 where
  pub is_ok : Bool
  pub status : ℕ
  pub body : Option Bytes

-- The network: `none` where `fetch` rejects; and the JSON of the server's answer, read as a list
-- of releases.
pub record Network : Type 0 where
  pub fetch : Url → Option Response
  pub parse_releases : Bytes → Option (List RawReleaseMetadata)

abbrev pub or_reject : {A : Type 0} → Option A → Result A
or_reject none = err rejected
or_reject (some a) = ok a

abbrev pub with_signature : RawReleaseMetadata → Bytes → UpdateInfo
with_signature raw signature = record {
  id = raw.id;
  version = raw.version;
  platform = raw.platform;
  channel = raw.channel;
  runtime_version = raw.runtime_version;
  bundle_hash = raw.bundle_hash;
  signature = signature;
  size = raw.size;
}

-- The test of `!raw.signature`, which an empty text passes too.
abbrev pub signed_update : RawReleaseMetadata → Option Bytes → Result UpdateInfo
signed_update raw none = err (no_signature raw.id)
signed_update raw (some []) = err (no_signature raw.id)
signed_update raw (some (c ∷ rest)) = ok (with_signature raw (c ∷ rest))

unfoldable pub to_update_info : RawReleaseMetadata → Result UpdateInfo
to_update_info raw = signed_update raw raw.signature

unfoldable pub first_update : List RawReleaseMetadata → Result (Option UpdateInfo)
first_update [] = ok none
first_update (raw ∷ rest) = do update ← to_update_info raw; ok (some update)

-- The text of an error message reads the body, which may reject first.
abbrev pub failed_response : {A : Type 0} → Response → SdkError → Result A
failed_response response error = do text ← or_reject response.body; err error

unfoldable pub updates_url : SalvePushConfig → Url
updates_url config = record {
  base = config.server_url;
  path = codes "/v1/updates";
  query =
      (codes "channel", config.channel)
      ∷ (codes "platform", config.platform)
      ∷ (codes "runtime_version", config.runtime_version)
      ∷ [];
}

unfoldable pub bundle_url : SalvePushConfig → Bytes → Url
bundle_url config id = record {
  base = config.server_url;
  path = codes "/v1/updates/" ++ (id ++ codes "/bundle");
  query = [];
}

unfoldable pub signing_input : UpdateInfo → ReleaseSigningInput
signing_input update = record {
  bundle_hash = update.bundle_hash;
  version = update.version;
  platform = update.platform;
  channel = update.channel;
  runtime_version = update.runtime_version;
}

module _ (N : Network) where
  abbrev pub parsed_updates : Option Bytes → Result (Option UpdateInfo)
  parsed_updates text = do
    body ← or_reject text
    releases ← or_reject (N.parse_releases body)
    first_update releases

  unfoldable pub read_updates : Response → Result (Option UpdateInfo)
  read_updates response =
      if response.is_ok
      then parsed_updates response.body
      else failed_response response (check_failed response.status)

  unfoldable pub fetch_latest_update : SalvePushConfig → Result (Option UpdateInfo)
  fetch_latest_update config = do
    response ← or_reject (N.fetch (updates_url config))
    read_updates response

module _ (R : Runtime) where
  -- The checks of a downloaded bundle.
  unfoldable pub verify_bundle : SalvePushConfig → UpdateInfo → Bytes → Result Bytes
  verify_bundle config update bytes =
      if bytes_eq (sha256_hex R bytes) update.bundle_hash
      then (if verify_release R config.signing_public_key (signing_input update) update.signature
          then ok bytes
          else err signature_failed)
      else err hash_mismatch

  unfoldable pub read_bundle : SalvePushConfig → UpdateInfo → Response → Result Bytes
  read_bundle config update response =
      if response.is_ok
      then or_reject response.body >>= verify_bundle config update
      else failed_response response (download_failed response.status)

  unfoldable pub download_and_verify_bundle : Network → SalvePushConfig → UpdateInfo → Result Bytes
  download_and_verify_bundle N config update = do
    response ← or_reject (N.fetch (bundle_url config update.id))
    read_bundle config update response
