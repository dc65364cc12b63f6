-- ===== src/Sdk/Calls.antt =====
-- The calls of the SDK in any order, with the native calls and downloads that are under way:
-- JavaScript runs from one `await` to the next, and any call that waits may go on next.
use salve_push.Base.{ℕ, suc, ◌≡◌, true, List, [], ◌∷◌, ◌++◌, Bytes}
use salve_push.Protocol.{Runtime, sha256_hex, verify_release}
use salve_push.Sdk.Update.{
  SalvePushConfig, UpdateInfo, SdkError, ok, err, Network, signing_input,
  download_and_verify_bundle,
}
use salve_push.Sdk.Facade.{
  Variables, configure, start_download, finish_download, start_install, finish_install,
}
use salve_push.Sdk.Facade

-- The variables, the downloads that wait, how many native installations are under way, and all
-- that the native module was given, the last one first.
pub record System : Type 0 where
  pub variables : Variables
  pub downloads : List (SalvePushConfig × UpdateInfo)
  pub installing : ℕ
  pub native_calls : List (Bytes × Bytes)

abbrev pub initial_system : System
initial_system = record {
  variables = Facade.initial;
  downloads = [];
  installing = 0;
  native_calls = [];
}

module _ (R : Runtime) (Trusted : SalvePushConfig → Type 0) where
  -- The application only configures what is trusted. The network may be another one at each step.
  pub data Step : System → System → Type 0 where
    configured :
        (s : System) (c : SalvePushConfig)
        → Trusted c
        → Step s (record s { variables = configure c s.variables })
    download_started :
        (s : System) (c : SalvePushConfig) (u : UpdateInfo)
        → start_download s.variables ≡ ok c
        → Step s (record s { downloads = (c, u) ∷ s.downloads })
    download_finished :
        (s : System) (N : Network) (before after : List (SalvePushConfig × UpdateInfo))
        (c : SalvePushConfig) (u : UpdateInfo) (bundle : Bytes)
        → s.downloads ≡ before ++ ((c, u) ∷ after)
        → download_and_verify_bundle R N c u ≡ ok bundle
        → Step s (record s {
          variables = finish_download u bundle s.variables;
          downloads = before ++ after;
        })
    download_failed :
        (s : System) (N : Network) (before after : List (SalvePushConfig × UpdateInfo))
        (c : SalvePushConfig) (u : UpdateInfo) (e : SdkError)
        → s.downloads ≡ before ++ ((c, u) ∷ after)
        → download_and_verify_bundle R N c u ≡ err e
        → Step s (record s { downloads = before ++ after })
    install_started :
        (s : System) (id bundle : Bytes)
        → start_install s.variables ≡ ok (id, bundle)
        → Step s (record s {
          installing = suc s.installing;
          native_calls = (id, bundle) ∷ s.native_calls;
        })
    install_finished :
        (s : System) (n : ℕ)
        → s.installing ≡ suc n
        → Step s (record s { variables = finish_install s.variables; installing = n })
    install_failed :
        (s : System) (n : ℕ) → s.installing ≡ suc n → Step s (record s { installing = n })

  pub data Reach (s : System) : System → Type 0 where
    here : Reach s s
    next : {t u : System} → Reach s t → Step t u → Reach s u

  -- A bundle that was checked for this id: its hash is the one of an update with the id, which is
  -- signed, with the update's other data, by the key of a trusted configuration.
  pub record IsVerified (call : Bytes × Bytes) : Type 0 where
    pub config : SalvePushConfig
    pub update : UpdateInfo
    pub trusted : Trusted config
    pub same_id : update.id ≡ call.0
    pub hash : sha256_hex R call.1 ≡ update.bundle_hash
    pub signed :
        verify_release R config.signing_public_key (signing_input update) update.signature ≡ true
