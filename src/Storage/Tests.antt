-- ===== src/Storage/Tests.antt =====
-- Installations on a small disk, and the theorems at it.
mod Device
mod Kotlin
mod Launches
use salve_push.Base.{
  codes, ◌≡◌, ℤ, refl, ap, false, Option, none, some, [], ◌∷◌, pos, Bytes, Bool, bytes_discrete,
}
use salve_push.CrashHandler.Marker.Text.{read_marker, read_marker-marker_text}
use salve_push.Storage.Releases.{find}
use salve_push.Storage.Disk.{Json, DecodesEncoded, Disk, SalvePushState}
use salve_push.Storage.Io.{works, dies, ok}
use salve_push.Storage.Holds.{Holds}
use salve_push.Storage.Operations.{install_update, resolve_bundle_path}
use salve_push.Storage.Sound.{IsSound}
use salve_push.Storage.Install.{IsPending, install_update-IsSound}
use salve_push.Storage.Calm.{calm}
use salve_push.Storage.Recovery.{ReadsMarkers, crashed}
use salve_push.Storage.Scenarios.{install_then_crash, reinstall_then_crash}

abbrev flag_of : Option (ℤ × Bool) → Bool
flag_of none = false
flag_of (some (n, auto)) = auto

-- States are their own text, and markers are read by the reader of the crash handler.
abbrev pub json : Json
json = record {
  Text = SalvePushState;
  encode = λ s. s;
  decode = λ s. some s;
  is_auto_rollback = λ contents. flag_of (read_marker contents);
}

pub json-DecodesEncoded : DecodesEncoded json
json-DecodesEncoded s = refl

pub json-ReadsMarkers : ReadsMarkers json
json-ReadsMarkers n auto = ap flag_of (read_marker-marker_text n auto)

abbrev pub r1 : Bytes
r1 = 1 ∷ []

abbrev pub r2 : Bytes
r2 = 2 ∷ []

abbrev pub r3 : Bytes
r3 = 3 ∷ []

-- Release 2 boots, release 1 is the one before, and the boot is not confirmed.
abbrev pub disk : Disk json
disk = record {
  state_text = some (record {
    current_release_id = some r2;
    previous_release_id = some r1;
    boot_status = codes "pending";
  });
  mount_marker = false;
  crash_marker = none;
  releases =
      (r1, record { bundle = some (7 ∷ []); temp = none })
      ∷ (r2, record { bundle = some (8 ∷ []); temp = none })
      ∷ [];
}

pub disk-IsSound : IsSound disk
unfolding bytes_discrete
disk-IsSound = (refl, refl)

-- The process dies when the new state is to be written.
install_update-IsSound_example :
    Holds
      (λ _ d. IsSound d × IsPending json r3 d)
      IsSound
      (install_update json r3
        (9 ∷ [])
        (record { disk = disk; events = works ∷ works ∷ works ∷ works ∷ dies ∷ [] }))
install_update-IsSound_example =
    install_update-IsSound json r3 (9 ∷ [])
      (record { disk = disk; events = works ∷ works ∷ works ∷ works ∷ dies ∷ [] })
      json-DecodesEncoded disk-IsSound ((λ e. cc e), (λ e. cc e))

install_then_crash_example :
    (d' d'' : Disk json) × (install_update json r3 (9 ∷ []) (calm disk) ≡ (ok tt, calm d'))
    × (resolve_bundle_path json (calm (crashed (pos 11) d')) ≡ (ok (some r2), calm d''))
install_then_crash_example =
    install_then_crash json (pos 11) r3 (9 ∷ []) disk json-DecodesEncoded json-ReadsMarkers
      disk-IsSound

reinstall_then_crash_example :
    (d' d'' : Disk json) × (install_update json r2 (9 ∷ []) (calm disk) ≡ (ok tt, calm d'))
    × (find r1 d'.releases ≡ none)
    × (resolve_bundle_path json (calm (crashed (pos 11) d')) ≡ (ok (some r2), calm d''))
reinstall_then_crash_example =
    reinstall_then_crash json (pos 11) r2 r1 (9 ∷ []) disk json-DecodesEncoded json-ReadsMarkers
      disk-IsSound refl refl (λ e. cc e)
