-- ===== src/Storage/Forgotten.antt =====
-- A confirmation of the boot that cannot read the state.
use salve_push.Base.{◌≡◌, refl, ap, ◌∙◌, true, none, some, [], ◌∷◌}
use salve_push.Storage.Disk.{Json, DecodesEncoded, Disk}
use salve_push.Storage.Io.{World, works, fails, ok, ◌>>=◌}
use salve_push.Storage.Operations.{
  confirmed_empty, or_empty, read_state, write_state, mark_mounted, confirm_boot, resolve_release,
  process_crash_marker_if_present, resolve_bundle_path,
}
use salve_push.Storage.Calm.{calm, >>=-ok, read_state_lem}
use salve_push.Storage.Boots.{no_marker}
use salve_push.Storage.Android

module _ (J : Json) where
  -- The mount marker is made, and then the read of the state fails.
  abbrev pub read_fails : Disk J → World J
  read_fails d = record { disk = d; events = works ∷ fails ∷ [] }

  -- The state names no release.
  abbrev pub forgotten : Disk J → Disk J
  forgotten d = record d { state_text = some (J.encode confirmed_empty); mount_marker = true }

  apple_confirm : (d : Disk J) → confirm_boot J (read_fails d) ≡ (ok tt, calm (forgotten d))
  unfolding confirm_boot mark_mounted read_state write_state
  apple_confirm d = refl

  android_confirm :
      (d : Disk J) → Android.confirm_boot J (read_fails d) ≡ (ok tt, calm (forgotten d))
  unfolding Android.confirm_boot Android.mark_mounted Android.read_state Android.write_state
  android_confirm d = refl

  resolves_none :
      (d : Disk J)
      → DecodesEncoded J
      → d.crash_marker ≡ none
      → resolve_bundle_path J (calm (forgotten d)) ≡ (ok none, calm (forgotten d))
  unfolding resolve_bundle_path resolve_release
  resolves_none d law unmarked =
      let d' = forgotten d in
      >>=-ok (process_crash_marker_if_present J)
        (λ _. read_state J >>= (λ s. resolve_release J s.current_release_id)) (calm d')
        (no_marker J d' unmarked)
      ∙ >>=-ok (read_state J) (λ s. resolve_release J s.current_release_id) (calm d')
          (read_state_lem J d')
      ∙ ap (λ o. resolve_release J (or_empty o).current_release_id (calm d')) (law confirmed_empty)

  -- If the JSON coders read back what they wrote, on a disk without a crash marker: `confirmBoot`
  -- where only the read of the state fails returns, in Swift and in Kotlin, and both leave one
  -- disk, which has all releases that were there, and on which the next launch of the Swift
  -- storage gives no path.
  pub state_forgotten :
      (d : Disk J)
      → DecodesEncoded J
      → d.crash_marker ≡ none
      → (d' : Disk J) × (confirm_boot J (read_fails d) ≡ (ok tt, calm d'))
        × (Android.confirm_boot J (read_fails d) ≡ (ok tt, calm d'))
        × (d'.releases ≡ d.releases)
        × (resolve_bundle_path J (calm d') ≡ (ok none, calm d'))
  state_forgotten d law unmarked =
      (forgotten d, apple_confirm d, android_confirm d, refl, resolves_none d law unmarked)
