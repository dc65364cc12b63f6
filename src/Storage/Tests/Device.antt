-- ===== src/Storage/Tests/Device.antt =====
-- A device over time, at a small disk.
use salve_push.Base.{◌≡◌, [], ◌∷◌, pos}
use salve_push.Storage.Disk.{Disk}
use salve_push.Storage.Io.{works, dies, ok}
use salve_push.Storage.Operations.{install_update, resolve_bundle_path}
use salve_push.Storage.Sound.{state_of, IsSound, IsNew}
use salve_push.Storage.Calm.{calm}
use salve_push.Storage.Recovery.{crashed, recovered}
use salve_push.Storage.Lifecycle.{
  left_by, Reach, here, next, install, launch, crash, Reach-IsSound, crash_loop,
  crash_loop-recovered,
}
use salve_push.Storage.Tests.{json, json-DecodesEncoded, json-ReadsMarkers, r3, disk, disk-IsSound}

r3-IsNew : IsNew r3 disk
r3-IsNew = ((λ e. cc e), (λ e. cc e))

-- The process dies in the middle of an installation; the next launch crashes.
abbrev after_install : Disk json
after_install =
    left_by json
      (install_update json r3 (9 ∷ []) (record { disk = disk; events = works ∷ works ∷ dies ∷ [] }))

abbrev last : Disk json
last = crashed (pos 6) (left_by json (resolve_bundle_path json (calm after_install)))

abbrev history : Reach json disk last
history =
    next
      (next (next here (install r3 (9 ∷ []) disk (works ∷ works ∷ dies ∷ []) r3-IsNew))
        (launch after_install []))
      (crash (left_by json (resolve_bundle_path json (calm after_install))) (pos 6))

Reach-IsSound_example : IsSound last
Reach-IsSound_example = Reach-IsSound json json-DecodesEncoded disk-IsSound history

crash_loop-recovered_example :
    (crash_loop json (pos 11 ∷ pos 6 ∷ []) disk ≡ recovered disk)
    × (resolve_bundle_path json
          (calm (crashed (pos 4) (crash_loop json (pos 11 ∷ pos 6 ∷ []) disk)))
        ≡ (ok (state_of (recovered disk)).current_release_id, calm (recovered disk)))
crash_loop-recovered_example =
    crash_loop-recovered json json-DecodesEncoded json-ReadsMarkers (pos 11) (pos 4) (pos 6 ∷ [])
      disk disk-IsSound
