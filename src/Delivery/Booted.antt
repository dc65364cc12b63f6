-- ===== src/Delivery/Booted.antt =====
-- A release on its whole way, from the command line client to a launch of the app.
use salve_push.Base.{ℕ, ◌≡◌, true, none, some, Option, Bytes, bytes_eq, codes, leb, ◌||◌}
use salve_push.Protocol.{Runtime, SigningKeyPair, sha256_hex, signing_key_pair}
use salve_push.Protocol.Laws.{AllBytes, IsLawful}
use salve_push.Cli.{ReleaseParams, ReleasePayload, natural, or_all, build_release_payload}
use salve_push.Sdk.Update.{SalvePushConfig, Network, bundle_url, download_and_verify_bundle}
use salve_push.Sdk.Update
use salve_push.Server.{Service, Parts, find_row}
use salve_push.Storage.Releases.{find}
use salve_push.Storage.Disk.{Json, DecodesEncoded, Disk, bundle_of}
use salve_push.Storage.Io.{ok}
use salve_push.Storage.Operations.{install_update, resolve_bundle_path}
use salve_push.Storage.Calm
use salve_push.Storage.Boots.{install_then_launch}
use salve_push.Delivery.{
  create_input, release_metadata, calm, handle_bundle, after_publication, published,
}
use salve_push.Delivery.Delivered.{release_delivered}

module _ (R : Runtime) (L : IsLawful R) (P : Parts) (J : Json) where
  -- For keys, base64 and signatures that work as documented, where no call of the server fails,
  -- its hash is that of the client, it reads the identifier as a UUID and its table takes the
  -- platform and the rollout percentage; where the JSON coders of the device read back what they
  -- wrote and its disk has no crash marker, on which every call works: a bundle that the command
  -- line client can read is signed into a payload. Once this is uploaded and published, the table
  -- has the release with the time of its publication, and a device with the public key of the
  -- pair, which is offered the release by the server and gets the server's answer for the bundle,
  -- accepts it. Its installation returns, and the next launch boots this release, whose bundle has
  -- the bytes of the client.
  pub release_boots :
      (read_file : Bytes → Option Bytes) (sk pk bytes id : Bytes) (now later percentage : ℕ)
      (params : ReleaseParams) (pair : SigningKeyPair) (config : SalvePushConfig) (s : Service)
      (N : Service → Network) (d : Disk J)
      → AllBytes sk
      → R.get_public_key sk ≡ some pk
      → signing_key_pair R sk ≡ some pair
      → params.private_key ≡ pair.private_key
      → config.signing_public_key ≡ pair.public_key
      → read_file params.bundle_path ≡ some bytes
      → ((b : Bytes) → P.hash b ≡ sha256_hex R b)
      → P.go_parses id ≡ true
      → P.row_id id ≡ some id
      → bytes_eq params.platform (codes "ios") || bytes_eq params.platform (codes "android") ≡ true
      → or_all params.rollout_percentage ≡ natural percentage
      → leb percentage 100 ≡ true
      → ((t : Service) → (N t).fetch (bundle_url config id) ≡ some (handle_bundle P calm id t))
      → DecodesEncoded J
      → d.crash_marker ≡ none
      → (payload : ReleasePayload) × (accepted : Bytes) × (d' : Disk J) × (build_release_payload R
            read_file params
          ≡ some payload)
        × (find_row id
              (after_publication P id now later (create_input params payload percentage) s).rows
            ≡ some (published P id now later (create_input params payload percentage) s))
        × (download_and_verify_bundle R
              (N (after_publication P id now later (create_input params payload percentage) s))
              config
              (release_metadata
                (published P id now later (create_input params payload percentage) s))
            ≡ Update.ok accepted)
        × (install_update J id accepted (Calm.calm d) ≡ (ok tt, Calm.calm d'))
        × (resolve_bundle_path J (Calm.calm d') ≡ (ok (some id), Calm.calm d'))
        × (bundle_of (find id d'.releases) ≡ some bytes)
  release_boots read_file sk pk bytes id now later percentage params pair config s N d all public
        paired private trusted file hashes parses row platform sent rollout network law unmarked =
      let (payload, built, row_found, downloaded) =
        release_delivered R L P read_file sk pk bytes id now later percentage params pair config s N
          all public paired private trusted file hashes parses row platform sent rollout network in
      let (d', installs, boots, bundle) = install_then_launch J id bytes d law unmarked in
      (payload, bytes, d', built, row_found, downloaded, installs, boots, bundle)
