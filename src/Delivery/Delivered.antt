-- ===== src/Delivery/Delivered.antt =====
-- A release that is signed, uploaded and published is accepted by a device.
use salve_push.Base.{
  ℕ, ◌≡◌, refl, sym, ap, ap₂, ◌∙◌, true, leb, ◌&&◌, ◌||◌, codes, bytes_eq, Option, none, some,
  Bytes, length,
}
use salve_push.Protocol.{
  Runtime, SigningKeyPair, sha256_hex, signing_key_pair, sign_release, ◌>>=◌ as ◌then◌,
}
use salve_push.Protocol.Laws.{AllBytes, IsLawful}
use salve_push.Cli.{
  ReleaseParams, ReleasePayload, natural, or_all, params_input, build_release_payload,
}
use salve_push.Sdk.Update.{SalvePushConfig, Network, bundle_url, download_and_verify_bundle}
use salve_push.Sdk.Update
use salve_push.Sdk.Published.{offered, served, some_injective, published-accepted}
use salve_push.Server.{Service, Parts, find_row, fits_table}
use salve_push.Delivery.{
  create_input, release_metadata, bundle_response, calm, handle_bundle, after_publication,
  published, publication_lem, publication-find_row,
}

-- What the command line client uploads.
payload_fields :
    (R : Runtime) (read_file : Bytes → Option Bytes) (params : ReleaseParams) (bytes : Bytes)
    (payload : ReleasePayload)
    → read_file params.bundle_path ≡ some bytes
    → build_release_payload R read_file params ≡ some payload
    → (payload.bundle_bytes ≡ bytes) × (payload.bundle_hash ≡ sha256_hex R bytes)
unfolding build_release_payload
payload_fields R read_file params bytes payload file built =
    at (sign_release R params.private_key (params_input params (sha256_hex R bytes)))
      (sym (ap (λ o. o then upload) file) ∙ built)
  where
    made : Bytes → Bytes → ReleasePayload
    made content signature = record {
      bundle_hash = sha256_hex R content;
      signature = signature;
      bundle_bytes = content;
    }

    upload : Bytes → Option ReleasePayload
    upload content =
        sign_release R params.private_key (params_input params (sha256_hex R content))
        then (λ signature. some (made content signature))

    at :
        (o : Option Bytes)
        → (o then (λ signature. some (made bytes signature))) ≡ some payload
        → (payload.bundle_bytes ≡ bytes) × (payload.bundle_hash ≡ sha256_hex R bytes)
    at none e = cc e
    at (some signature) e =
        let same = some_injective e in
        (ap (λ q. q.bundle_bytes) (sym same), ap (λ q. q.bundle_hash) (sym same))

module _ (R : Runtime) (L : IsLawful R) (P : Parts) where
  -- For keys, base64 and signatures that work as documented, where no call of the server fails,
  -- its hash is that of the client, it reads the identifier as a UUID, and its table takes the
  -- platform and the rollout percentage: a bundle that the command line client can read is signed
  -- into a payload. Once this is uploaded and published, a device with the public key of the pair,
  -- which is offered the release by the server and gets the server's answer for the bundle,
  -- accepts the same bytes.
  pub release_delivered :
      (read_file : Bytes → Option Bytes) (sk pk bytes id : Bytes) (now later percentage : ℕ)
      (params : ReleaseParams) (pair : SigningKeyPair) (config : SalvePushConfig) (s : Service)
      (N : Service → Network)
      → AllBytes sk
      → R.get_public_key sk ≡ some pk
      → signing_key_pair R sk ≡ some pair
      → params.private_key ≡ pair.private_key
      → config.signing_public_key ≡ pair.public_key
      → read_file params.bundle_path ≡ some bytes
      → ((b : Bytes) → P.hash b ≡ sha256_hex R b)
      → P.go_parses id ≡ true
      → P.row_id id ≡ some id
      → bytes_eq params.platform (codes "ios") || bytes_eq params.platform (codes "android") ≡ true
      → or_all params.rollout_percentage ≡ natural percentage
      → leb percentage 100 ≡ true
      → ((t : Service) → (N t).fetch (bundle_url config id) ≡ some (handle_bundle P calm id t))
      → (payload : ReleasePayload) × (build_release_payload R read_file params ≡ some payload)
        × (find_row id
              (after_publication P id now later (create_input params payload percentage) s).rows
            ≡ some (published P id now later (create_input params payload percentage) s))
        × (download_and_verify_bundle R
              (N (after_publication P id now later (create_input params payload percentage) s))
              config
              (release_metadata
                (published P id now later (create_input params payload percentage) s))
            ≡ Update.ok bytes)
  unfolding handle_bundle fits_table
  release_delivered read_file sk pk bytes id now later percentage params pair config s N all public
        paired private trusted file hashes parses row platform sent rollout network =
      let direct : Network = record {
        fetch = λ _. some (served bytes);
        parse_releases = λ _. none;
      } in
      let (payload, built, _) =
        published-accepted R L read_file sk pk bytes id 0 params pair config direct all public
          paired private trusted file refl in
      let (content, hash) = payload_fields R read_file params bytes payload file built in
      let in' = create_input params payload percentage in
      let t = after_publication P id now later in' s in
      let hashed = hashes payload.bundle_bytes ∙ ap (sha256_hex R) content ∙ sym hash in
      let fits = ap₂ (λ a b. a && b) platform rollout in
      let opens = publication_lem P id now later in' s hashed parses row fits in
      let fetched : (N t).fetch (bundle_url config id) ≡ some (served bytes) =
        network t ∙ ap (λ a. some (bundle_response a)) opens ∙ ap (λ b. some (served b)) content in
      let (again, built', accepted) =
        published-accepted R L read_file sk pk bytes id (length payload.bundle_bytes) params pair
          config (N t) all public paired private trusted file fetched in
      let same : again ≡ payload = some_injective (sym built' ∙ built) in
      (
        payload,
        built,
        publication-find_row P id now later in' s hashed parses row fits,
        ap
              (λ q.
                download_and_verify_bundle R (N t) config
                  (offered id (length payload.bundle_bytes) params q))
              (sym same)
            ∙ accepted,
      )
