-- ===== src/Storage/Tests/Launches.antt =====
-- Launches at a small disk on which calls fail.
use salve_push.Base.{◌≡◌, refl, none, some, [], ◌∷◌, pos, Option, Bytes}
use salve_push.Storage.Io.{works, fails, ok, thrown}
use salve_push.Storage.Holds.{Holds}
use salve_push.Storage.Quiet.{NotThrown}
use salve_push.Storage.Sound.{IsSound}
use salve_push.Storage.Calm.{calm}
use salve_push.Storage.Recovery.{crashed, unmarked}
use salve_push.Storage.Operations
use salve_push.Storage.Android
use salve_push.Storage.Android.Thrown.{write_fails, marked, rollback_write_fails}
use salve_push.Storage.Forgotten.{read_fails, state_forgotten}
use salve_push.Storage.Disk.{Disk}
use salve_push.Storage.Resolver.{resolve_bundle_url, IsBootable, resolve_bundle_url-IsBootable}
use salve_push.Storage.Tests.{
  json, json-DecodesEncoded, json-ReadsMarkers, r1, r2, disk, disk-IsSound,
}

abbrev embedded : Option Bytes
embedded = some (5 ∷ [])

-- The crash marker cannot be removed.
resolve_bundle_url-IsBootable_example :
    NotThrown (
      resolve_bundle_url json embedded
        (record { disk = crashed (pos 11) disk; events = works ∷ fails ∷ [] }))
    × Holds
        (λ r d. IsSound d × IsBootable json embedded r d)
        IsSound
        (resolve_bundle_url json embedded
          (record { disk = crashed (pos 11) disk; events = works ∷ fails ∷ [] }))
resolve_bundle_url-IsBootable_example =
    resolve_bundle_url-IsBootable json embedded
      (record { disk = crashed (pos 11) disk; events = works ∷ fails ∷ [] }) json-DecodesEncoded
      disk-IsSound

rollback_write_fails_example :
    (Android.resolve_bundle_path json (write_fails json (crashed (pos 11) disk))
      ≡ (thrown, calm (unmarked disk)))
    × (Operations.resolve_bundle_path json (write_fails json (crashed (pos 11) disk))
        ≡ (ok (some r2), calm (marked json disk)))
    × (Operations.process_crash_marker_if_present json (calm (crashed (pos 11) (marked json disk)))
        ≡ (ok tt, calm (marked json disk)))
rollback_write_fails_example =
    rollback_write_fails json (pos 11) r2 r1 disk json-ReadsMarkers refl refl refl disk-IsSound.0

state_forgotten_example :
    (d' : Disk json) × (Operations.confirm_boot json (read_fails json disk) ≡ (ok tt, calm d'))
    × (Android.confirm_boot json (read_fails json disk) ≡ (ok tt, calm d'))
    × (d'.releases ≡ disk.releases)
    × (Operations.resolve_bundle_path json (calm d') ≡ (ok none, calm d'))
state_forgotten_example = state_forgotten json disk json-DecodesEncoded refl
