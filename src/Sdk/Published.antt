-- ===== src/Sdk/Published.antt =====
-- A release that the command line client signs is accepted by a device.
use salve_push.Base.{
  ℕ, ◌≡◌, refl, sym, ap, ◌∙◌, true, Option, some, Bytes, bytes_eq_self, if◌then◌else◌,
}
use salve_push.Protocol.{
  Runtime, SigningKeyPair, signing_key_pair, sha256_hex, sign_release, verify_release,
}
use salve_push.Protocol.Laws.{AllBytes, IsLawful, verify_release-sign_release}
use salve_push.Cli.{ReleaseParams, ReleasePayload, params_input, build_release_payload}
use salve_push.Sdk.Update.{
  SalvePushConfig, UpdateInfo, ok, err, Response, Network, bundle_url, signing_input, verify_bundle,
  download_and_verify_bundle, signature_failed, hash_mismatch, read_bundle,
}

-- The update that a server offers for a release that was uploaded.
abbrev pub offered : Bytes → ℕ → ReleaseParams → ReleasePayload → UpdateInfo
offered id size params payload = record {
  id = id;
  version = params.version;
  platform = params.platform;
  channel = params.channel;
  runtime_version = params.runtime_version;
  bundle_hash = payload.bundle_hash;
  signature = payload.signature;
  size = size;
}

abbrev pub served : Bytes → Response
served bytes = record { is_ok = true; status = 200; body = some bytes }

pub some_injective : {A : Type 0} {a b : A} → some a ≡ some b → a ≡ b
some_injective e = cc e

-- A bundle with the right hash and signature is returned.
verified_bundle :
    (R : Runtime) (config : SalvePushConfig) (u : UpdateInfo) (bytes : Bytes)
    → u.bundle_hash ≡ sha256_hex R bytes
    → verify_release R config.signing_public_key (signing_input u) u.signature ≡ true
    → verify_bundle R config u bytes ≡ ok bytes
unfolding verify_bundle
verified_bundle R config u bytes hash signed =
    ap
      (λ b.
        if b
        then (if verify_release R config.signing_public_key (signing_input u) u.signature
            then ok bytes
            else err signature_failed)
        else err hash_mismatch)
      (bytes_eq_self (sha256_hex R bytes) u.bundle_hash (sym hash))
    ∙ ap (λ b. if b then ok bytes else err signature_failed) signed

module _ (R : Runtime) (L : IsLawful R) where
  -- For keys, base64 and signatures that work as documented: a bundle that the command line client
  -- can read gives a payload when the private key of a pair signs it, and a device with the public
  -- key of that pair, which is offered this release and served these bytes, accepts them.
  pub published-accepted :
      (read_file : Bytes → Option Bytes) (sk pk bytes id : Bytes) (size : ℕ)
      (params : ReleaseParams) (pair : SigningKeyPair) (config : SalvePushConfig) (N : Network)
      → AllBytes sk
      → R.get_public_key sk ≡ some pk
      → signing_key_pair R sk ≡ some pair
      → params.private_key ≡ pair.private_key
      → config.signing_public_key ≡ pair.public_key
      → read_file params.bundle_path ≡ some bytes
      → N.fetch (bundle_url config id) ≡ some (served bytes)
      → (payload : ReleasePayload) × (build_release_payload R read_file params ≡ some payload)
        × (download_and_verify_bundle R N config (offered id size params payload) ≡ ok bytes)
  unfolding build_release_payload download_and_verify_bundle read_bundle signing_input
  published-accepted read_file sk pk bytes id size params pair config N all public paired private
        trusted file fetched =
      let input = params_input params (sha256_hex R bytes) in
      let (made, signature, made_pair, signed, verified) =
        verify_release-sign_release R L sk pk input all public in
      let same : made ≡ pair = some_injective (sym made_pair ∙ paired) in
      let signs : sign_release R params.private_key input ≡ some signature =
        ap (λ key. sign_release R key input) (private ∙ ap (λ p. p.private_key) (sym same))
        ∙ signed in
      let accepts : verify_release R config.signing_public_key input signature ≡ true =
        ap (λ key. verify_release R key input signature)
          (trusted ∙ ap (λ p. p.public_key) (sym same))
        ∙ verified in
      let payload : ReleasePayload = record {
        bundle_hash = sha256_hex R bytes;
        signature = signature;
        bundle_bytes = bytes;
      } in
      (
        payload,
        rw file (rw signs),
        rw fetched (verified_bundle R config (offered id size params payload) bytes refl accepts),
      )
