-- ===== src/Sdk/Sync.antt =====
-- `sync` of packages/sdk-react-native/src/SalvePush.ts, when no other call runs in between.
use salve_push.Base.{ℕ, ◌≡◌, ◌∙◌, refl, ap, sym, Option, none, some, List, ◌∷◌, Bytes, true}
use salve_push.Protocol.{Runtime}
use salve_push.Sdk.Update.{
  SalvePushConfig, UpdateInfo, RawReleaseMetadata, Result, ok, err, ◌>>=◌, Network, or_reject,
  updates_url, fetch_latest_update, read_updates, first_update, to_update_info, signed_update,
  with_signature, download_and_verify_bundle,
}
use salve_push.Sdk.Facade.{
  Variables, configured, require_config, check_for_update, start_download, finish_download,
  downloaded, start_install, finish_install,
}

module _ (R : Runtime) (N : Network) (native : Bytes → Bytes → Result (Unit {0})) where
  -- `installUpdate`, with the answer of the native module.
  unfoldable pub install_update : Variables → Result Variables
  install_update v = do
    call ← start_install v
    returned ← native call.0 call.1
    ok (finish_install v)

  unfoldable pub download_update : UpdateInfo → Variables → Result Variables
  download_update update v = do
    config ← start_download v
    bundle ← download_and_verify_bundle R N config update
    ok (finish_download update bundle v)

  abbrev pub sync_update : Variables → Option UpdateInfo → Result Variables
  sync_update v none = ok v
  sync_update v (some update) = do downloaded ← download_update update v; install_update downloaded

  unfoldable pub sync : Variables → Result Variables
  sync v = do update ← check_for_update N v; sync_update v update

  -- The native module decides, and if it returns, the module's variables are as after a start.
  abbrev pub given : Bytes → Variables → Bytes → Result Variables
  given id v bundle = do
    returned ← native id bundle
    ok (record { config = v.config; verified_bundle = none; verified_bundle_release_id = none })

  module _ (v : Variables) (config : SalvePushConfig) (set : v.config ≡ some config) where
    configures : require_config v ≡ ok config
    unfolding require_config
    configures = ap configured set

    start_downloads : start_download v ≡ ok config
    unfolding start_download
    start_downloads = ap (λ r. r >>= (λ _. require_config v)) configures ∙ configures

    install_downloaded :
        (update : UpdateInfo) (bundle : Bytes) (c : ℕ) (id : Bytes)
        → update.id ≡ c ∷ id
        → install_update (finish_download update bundle v) ≡ given update.id v bundle
    unfolding install_update start_install finish_download finish_install require_config
    install_downloaded update bundle c id e =
        ap
          (λ o. (configured o >>= (λ _. downloaded (some bundle) (some update.id))) >>= (λ call.
            native call.0 call.1 >>= (λ _. ok (finish_install (finish_download update bundle v)))))
          set
        ∙ ap (λ o. downloaded (some bundle) (some o) >>= then_native) e
        ∙ ap (λ o. given o v bundle) (sym e)
      where
        then_native : Bytes × Bytes → Result Variables
        then_native call = do
          returned ← native call.0 call.1
          ok (finish_install (finish_download update bundle v))

    checks :
        (text : Bytes) (raw : RawReleaseMetadata) (others : List RawReleaseMetadata) (c : ℕ)
        (s : Bytes)
        → N.fetch (updates_url config)
          ≡ some (record { is_ok = true; status = 200; body = some text })
        → N.parse_releases text ≡ some (raw ∷ others)
        → raw.signature ≡ some (c ∷ s)
        → check_for_update N v ≡ ok (some (with_signature raw (c ∷ s)))
    unfolding check_for_update fetch_latest_update read_updates first_update to_update_info
    checks text raw others c s fetched parsed signed =
        ap (λ r. r >>= fetch_latest_update N) configures
        ∙ ap (λ o. or_reject o >>= read_updates N) fetched
        ∙ ap (λ o. or_reject o >>= first_update) parsed
        ∙ ap (λ o. signed_update raw o >>= (λ update. ok (some update))) signed

    -- Where no other call of the SDK runs before `sync` ends, once configured, and if the server
    -- answers with at least one release, the first of which has a signature and an id that are not
    -- empty: `sync` downloads and verifies this release, and throws what that throws. Else it
    -- gives the native module its id and the verified bytes, and throws what that throws, or else
    -- forgets the bundle and keeps the configuration.
    pub sync_lem :
        (text : Bytes) (raw : RawReleaseMetadata) (others : List RawReleaseMetadata) (c i : ℕ)
        (s id : Bytes)
        → N.fetch (updates_url config)
          ≡ some (record { is_ok = true; status = 200; body = some text })
        → N.parse_releases text ≡ some (raw ∷ others)
        → raw.signature ≡ some (c ∷ s)
        → raw.id ≡ i ∷ id
        → sync v
          ≡ download_and_verify_bundle R N config (with_signature raw (c ∷ s)) >>= given raw.id v
    unfolding sync download_update
    sync_lem text raw others c i s id fetched parsed signed named =
        let update = with_signature raw (c ∷ s) in
        ap (λ r. r >>= sync_update v) (checks text raw others c s fetched parsed signed)
        ∙ ap
            (λ r.
              (r >>= (λ config.
                download_and_verify_bundle R N config update
                >>= (λ bundle. ok (finish_download update bundle v))))
              >>= install_update)
            start_downloads
        ∙ behind (download_and_verify_bundle R N config update)
      where
        behind :
            (r : Result Bytes)
            → ((r >>= (λ bundle. ok (finish_download (with_signature raw (c ∷ s)) bundle v)))
                >>= install_update)
              ≡ (r >>= given raw.id v)
        behind (err e) = refl
        behind (ok bundle) = install_downloaded (with_signature raw (c ∷ s)) bundle i id named
