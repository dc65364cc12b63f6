-- ===== src/Storage/Scenarios.antt =====
-- Installations, confirmations and crashes in a row, where every call works.
use mathlib.Core.Path.{subst}
use salve_push.Base.{
  codes, bytes_eq-ne, ◌≡◌, ◌≢◌, refl, sym, ap, ◌∙◌, true, ◌||◌, Option, none, some, ℤ, Bytes,
}
use salve_push.Storage.Releases.{find, put}
use salve_push.Storage.Disk.{Json, DecodesEncoded, Disk}
use salve_push.Storage.Io.{ok}
use salve_push.Storage.Operations.{
  or_empty, keeps, read_state, mark_mounted, write_state, install_update, confirm_boot, rolled_back,
  resolve_bundle_path,
}
use salve_push.Storage.Sound.{state_of, Names, IsSound}
use salve_push.Storage.Launch.{same_releases-Names}
use salve_push.Storage.Pruned.{find-pruned_gone}
use salve_push.Storage.Calm.{calm, >>=-ok, read_state_lem, rolled, with_bundle, installed}
use salve_push.Storage.Placed.{install_update_lem}
use salve_push.Storage.Recovery.{
  ReadsMarkers, crashed, recovered, unmarked, launch_after_crash, state-installed,
  installed-IsSound,
}

-- The release that boots after the unconfirmed release `id` crashed: the one before, if any.
abbrev pub fallback : Bytes → Option Bytes → Option Bytes
fallback id none = some id
fallback id (some previous) = some previous

module _ (J : Json) where
  rolled_current :
      (id : Bytes) (o : Option Bytes) (d : Disk J)
      → DecodesEncoded J
      → (state_of d).current_release_id ≡ some id
      → (state_of (rolled J o d)).current_release_id ≡ fallback id o
  rolled_current id none d law h = h
  rolled_current id (some previous) d law h =
      ap (λ o. (or_empty o).current_release_id) (law (rolled_back previous))

  launch_installed :
      (n : ℤ) (id bytes : Bytes) (d : Disk J)
      → DecodesEncoded J
      → ReadsMarkers J
      → IsSound d
      → resolve_bundle_path J (calm (crashed n (installed J id bytes d))) ≡ (
        ok (fallback id (state_of d).current_release_id),
        calm (recovered (installed J id bytes d)),
      )
  launch_installed n id bytes d law reads sound =
      let d' = installed J id bytes d in
      let s = state-installed J id bytes d law in
      let boots : (state_of (recovered d')).current_release_id
          ≡ fallback id (state_of d).current_release_id =
        rolled_current id (state_of d').previous_release_id (unmarked d') law
          (ap (λ t. t.current_release_id) s)
        ∙ ap (λ t. fallback id t.previous_release_id) s in
      launch_after_crash J n d' law reads (installed-IsSound J id bytes d law sound)
      ∙ ap (λ o. (ok o, calm (recovered d'))) boots

  -- Where every call works, the JSON coders read back what they wrote, and the flag of a crash
  -- marker is read as the crash handler wrote it: a release is installed over a sound disk, and
  -- crashes before its boot is confirmed. Both the installation and the next launch return, and
  -- the launch boots the release that was current before; if there was none, it boots the release
  -- that crashed.
  pub install_then_crash :
      (n : ℤ) (id bytes : Bytes) (d : Disk J)
      → DecodesEncoded J
      → ReadsMarkers J
      → IsSound d
      → (d' d'' : Disk J) × (install_update J id bytes (calm d) ≡ (ok tt, calm d'))
        × (resolve_bundle_path J (calm (crashed n d'))
            ≡ (ok (fallback id (state_of d).current_release_id), calm d''))
  install_then_crash n id bytes d law reads sound = (
    installed J id bytes d,
    recovered (installed J id bytes d),
    install_update_lem id d bytes,
    launch_installed n id bytes d law reads sound,
  )

  -- The disk after a confirmation.
  abbrev pub confirmed : Disk J → Disk J
  confirmed d = record d {
    state_text = some (J.encode (record (state_of d) { boot_status = codes "confirmed" }));
    mount_marker = true;
  }

  confirm_boot_lem : (d : Disk J) → confirm_boot J (calm d) ≡ (ok tt, calm (confirmed d))
  unfolding confirm_boot mark_mounted write_state
  confirm_boot_lem d =
      >>=-ok (read_state J) (λ s. write_state J (record s { boot_status = codes "confirmed" }))
        (calm (record d { mount_marker = true }))
        (read_state_lem J (record d { mount_marker = true }))

  -- Where every call works, the JSON coders read back what they wrote, and the flag of a crash
  -- marker is read as the crash handler wrote it: the boot of a sound disk is confirmed, and the
  -- release crashes later. The next launch boots the same release again, and only the crash marker
  -- is gone.
  pub confirm_then_crash :
      (n : ℤ) (d : Disk J)
      → DecodesEncoded J
      → ReadsMarkers J
      → IsSound d
      → (d' : Disk J) × (confirm_boot J (calm d) ≡ (ok tt, calm d'))
        × (resolve_bundle_path J (calm (crashed n d'))
            ≡ (ok (state_of d).current_release_id, calm (record d' { crash_marker = none })))
  confirm_then_crash n d law reads sound =
      let d' = confirmed d in
      let s : state_of d' ≡ record (state_of d) { boot_status = codes "confirmed" } =
        ap or_empty (law (record (state_of d) { boot_status = codes "confirmed" })) in
      (
        d',
        confirm_boot_lem d,
        launch_after_crash J n d' law reads (
              subst (λ t. Names t d') (sym s)
                (same_releases-Names J law d d'
                  (record (state_of d) { boot_status = codes "confirmed" }) refl sound))
            ∙ ap (λ t. (ok t.current_release_id, calm (unmarked d'))) s,
      )

  -- Where every call works, the JSON coders read back what they wrote, and the flag of a crash
  -- marker is read as the crash handler wrote it: on a sound disk, the current release is
  -- installed again, and crashes before its boot is confirmed. The next launch boots it once more,
  -- although another release `p` was kept to go back to, whose files the installation has removed.
  pub reinstall_then_crash :
      (n : ℤ) (id p bytes : Bytes) (d : Disk J)
      → DecodesEncoded J
      → ReadsMarkers J
      → IsSound d
      → (state_of d).current_release_id ≡ some id
      → (state_of d).previous_release_id ≡ some p
      → p ≢ id
      → (d' d'' : Disk J) × (install_update J id bytes (calm d) ≡ (ok tt, calm d'))
        × (find p d'.releases ≡ none)
        × (resolve_bundle_path J (calm (crashed n d')) ≡ (ok (some id), calm d''))
  reinstall_then_crash n id p bytes d law reads sound current previous ne =
      let rs = put id (with_bundle bytes) d.releases in
      (
        installed J id bytes d,
        recovered (installed J id bytes d),
        install_update_lem id d bytes,
        find-pruned_gone id (state_of d).current_release_id p rs
            (ap (λ o. keeps id o p) current ∙ ap (λ b. b || b) (bytes_eq-ne p id ne)),
        launch_installed n id bytes d law reads sound
            ∙ ap (λ o. (ok (fallback id o), calm (recovered (installed J id bytes d)))) current,
      )
