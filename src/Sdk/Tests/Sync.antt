-- ===== src/Sdk/Tests/Sync.antt =====
-- A `sync` on small inputs.
use salve_push.Base.{◌≡◌, refl, some, [], ◌∷◌, Bytes}
use salve_push.Protocol.{canonical_release_message}
use salve_push.Sdk.Update.{
  RawReleaseMetadata, Result, ok, ◌>>=◌, Network, download_and_verify_bundle,
}
use salve_push.Sdk.Facade.{configure, initial}
use salve_push.Sdk.Published.{served}
use salve_push.Sdk.Sync.{sync, given, sync_lem}
use salve_push.Sdk.Tests.{runtime, config, update}

abbrev raw : RawReleaseMetadata
raw = record {
  id = update.id;
  version = update.version;
  platform = update.platform;
  channel = update.channel;
  runtime_version = update.runtime_version;
  bundle_hash = update.bundle_hash;
  signature = some update.signature;
  size = update.size;
}

abbrev network : Network
network = record { fetch = λ _. some (served (7 ∷ 8 ∷ [])); parse_releases = λ _. some (raw ∷ []) }

abbrev native : Bytes → Bytes → Result (Unit {0})
native id bundle = ok tt

sync_example : sync runtime network native (configure config initial) ≡ (
    download_and_verify_bundle runtime network config update
    >>= given runtime network native (9 ∷ []) (configure config initial))
unfolding configure canonical_release_message
sync_example =
    sync_lem runtime network native (configure config initial) config refl (7 ∷ 8 ∷ []) raw [] 5 9 _
      [] refl refl refl refl
