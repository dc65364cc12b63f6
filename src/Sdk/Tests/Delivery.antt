-- ===== src/Sdk/Tests/Delivery.antt =====
-- A release on its way from the command line client to a device.
use salve_push.Base.{Bytes, ◌≡◌, refl, true, some, none, [], ◌∷◌, arith, bytes_discrete}
use salve_push.Protocol.{signing_key_pair, bytes_to_base64, sha256_hex}
use salve_push.Cli.{ReleasePayload, build_release_payload}
use salve_push.Sdk.Update.{Network, ok, download_and_verify_bundle}
use salve_push.Server.{Service, Parts, find_row}
use salve_push.Server.Stored.{empty_service}
use salve_push.Delivery.{
  create_input, release_metadata, calm, handle_bundle, after_publication, published,
}
use salve_push.Delivery.Booted.{release_boots}
use salve_push.Storage.Releases.{find}
use salve_push.Storage.Disk.{Disk, bundle_of}
use salve_push.Storage.Io
use salve_push.Storage.Calm
use salve_push.Storage.Operations.{install_update, resolve_bundle_path}
use salve_push.Storage.Tests.{json, json-DecodesEncoded, disk}
use salve_push.Sdk.Tests.{runtime, runtime-IsLawful, params, pair, config}

abbrev parts : Parts
parts = record { hash = λ b. b; go_parses = λ _. true; row_id = λ id. some id }

-- The network asks the server for the bundle, whatever it is asked for.
abbrev network : Service → Network
network s = record {
  fetch = λ _. some (handle_bundle parts calm (9 ∷ []) s);
  parse_releases = λ _. none;
}

release_boots_example :
    (payload : ReleasePayload) × (accepted : Bytes) × (d' : Disk json) × (build_release_payload
        runtime
        (λ _. some (7 ∷ 8 ∷ []))
        params
      ≡ some payload)
    × (find_row
          (9 ∷ [])
          (after_publication parts
            (9 ∷ [])
            10
            20
            (create_input params payload 100)
            empty_service).rows
        ≡ some (published parts (9 ∷ []) 10 20 (create_input params payload 100) empty_service))
    × (download_and_verify_bundle runtime
          (network (
            after_publication parts (9 ∷ []) 10 20 (create_input params payload 100) empty_service))
          config
          (release_metadata
            (published parts (9 ∷ []) 10 20 (create_input params payload 100) empty_service))
        ≡ ok accepted)
    × (install_update json (9 ∷ []) accepted (Calm.calm disk) ≡ (Io.ok tt, Calm.calm d'))
    × (resolve_bundle_path json (Calm.calm d') ≡ (Io.ok (some (9 ∷ [])), Calm.calm d'))
    × (bundle_of (find (9 ∷ []) d'.releases) ≡ some (7 ∷ 8 ∷ []))
unfolding signing_key_pair bytes_to_base64 sha256_hex bytes_discrete
release_boots_example =
    release_boots runtime runtime-IsLawful parts json (λ _. some (7 ∷ 8 ∷ [])) (5 ∷ []) (5 ∷ [])
      (7 ∷ 8 ∷ []) (9 ∷ []) 10 20 100 params pair config empty_service network disk
      (omega arith, tt) refl refl refl refl refl (λ b. refl) refl refl refl refl refl (λ t. refl)
      json-DecodesEncoded refl
