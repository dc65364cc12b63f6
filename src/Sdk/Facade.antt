-- ===== src/Sdk/Facade.antt =====
-- packages/sdk-react-native/src/SalvePush.ts: the module's variables, and its calls from one
-- `await` to the next.
use salve_push.Base.{Option, none, some, [], ◌∷◌, Bytes}
use salve_push.Sdk.Update.{
  SalvePushConfig, UpdateInfo, Result, ok, err, ◌>>=◌, not_configured, nothing_downloaded, Network,
  fetch_latest_update,
}

pub record Variables : Type 0 where
  pub config : Option SalvePushConfig
  pub verified_bundle : Option Bytes
  pub verified_bundle_release_id : Option Bytes

abbrev pub initial : Variables
initial = record { config = none; verified_bundle = none; verified_bundle_release_id = none }

abbrev pub configured : Option SalvePushConfig → Result SalvePushConfig
configured none = err not_configured
configured (some config) = ok config

unfoldable pub require_config : Variables → Result SalvePushConfig
require_config v = configured v.config

unfoldable pub configure : SalvePushConfig → Variables → Variables
configure next v = record v { config = some next }

module _ (N : Network) where
  unfoldable pub check_for_update : Variables → Result (Option UpdateInfo)
  check_for_update v = do config ← require_config v; fetch_latest_update N config

-- `downloadUpdate` before its `await`, which waits for `downloadAndVerifyBundle` with the
-- configuration of this moment.
unfoldable pub start_download : Variables → Result SalvePushConfig
start_download v = do first ← require_config v; require_config v

-- `downloadUpdate` behind its `await`.
unfoldable pub finish_download : UpdateInfo → Bytes → Variables → Variables
finish_download update bundle v = record v {
  verified_bundle = some bundle;
  verified_bundle_release_id = some update.id;
}

-- The test of `installUpdate`: a bundle is there, and the id is there and is not empty.
abbrev pub downloaded : Option Bytes → Option Bytes → Result (Bytes × Bytes)
downloaded none id = err nothing_downloaded
downloaded (some bundle) none = err nothing_downloaded
downloaded (some bundle) (some []) = err nothing_downloaded
downloaded (some bundle) (some (c ∷ id)) = ok (c ∷ id, bundle)

-- `installUpdate` before its `await`: the id and the bundle that the native module is given.
unfoldable pub start_install : Variables → Result (Bytes × Bytes)
start_install v = do
  config ← require_config v
  downloaded v.verified_bundle v.verified_bundle_release_id

-- `installUpdate` behind its `await`.
unfoldable pub finish_install : Variables → Variables
finish_install v = record v { verified_bundle = none; verified_bundle_release_id = none }

-- `notifyAppReady` and `getCurrentReleaseId` give what the native module's method of their name
-- gives; `native` is that method, on the state of the module.
unfoldable pub notify_app_ready :
    {W : Type 0} → (W → Result (Unit {0}) × W) → W → Result (Unit {0}) × W
notify_app_ready native w = native w

unfoldable pub get_current_release_id : {W : Type 0} → (W → Result Bytes × W) → W → Result Bytes × W
get_current_release_id native w = native w
