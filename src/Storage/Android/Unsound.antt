-- ===== src/Storage/Android/Unsound.antt =====
-- A rename that fails: `renameTo` gives false, and `installUpdate` goes on.
use salve_push.Base.{◌≡◌, refl, ap, ◌∙◌, false, Option, none, some, [], ◌∷◌, Bytes, if◌then◌else◌}
use salve_push.Storage.Releases.{Release, find, put, find-put_self}
use salve_push.Storage.Disk.{
  Json, DecodesEncoded, Disk, bundle_exists, create_release_directory, write_temp, temp_written,
  bundle_of, is_some, with_release, created, remove_bundle, move_temp,
}
use salve_push.Storage.Io.{
  ok, pure, works, fails, World, ◌>>=◌, ◌>>◌, change, try_ignored, ignored, stored, thrown, after,
  Io,
}
use salve_push.Storage.Operations.{pending_state, or_empty}
use salve_push.Storage.Sound.{state_of}
use salve_push.Storage.Pruned.{pruned, names_of, find-pruned_kept}
use salve_push.Storage.Calm.{calm, >>=-ok, switch_release_lem}
use salve_push.Storage.Recovery.{keeps_self}
use salve_push.Storage.Placed.{placed, with_release-placed}
use salve_push.Storage.Android.Same.{read_state-same, switch_release-same}
use salve_push.Storage.Android.{rename_temp}
use salve_push.Storage.Operations
use salve_push.Storage.Android

module _ (J : Json) (id bytes : Bytes) where
  abbrev only_temp : Release
  only_temp = record { bundle = none; temp = some bytes }

  -- The disk, and the calls of an installation: all work but the rename.
  abbrev pub rename_fails : Disk J → World J
  rename_fails d = record { disk = d; events = works ∷ works ∷ fails ∷ [] }

  -- The directory is there after `mkdirs`, and has no bundle if it had none.
  created_empty :
      (o : Option Release) (d : Disk J)
      → is_some (bundle_of o) ≡ false
      → (t : Option Bytes) × (with_release id d (created o)
          ≡ some (placed id d (record { bundle = none; temp = t })))
  created_empty none d h = (none, refl)
  created_empty (some r) d h = (
    r.temp,
    ap (λ b. some (placed id d (record { bundle = b; temp = r.temp }))) (none_of r.bundle h),
  )
    where
      none_of : (o : Option Bytes) → is_some o ≡ false → o ≡ none
      none_of none h = refl
      none_of (some b) h = cc h

  exists-placed : (d : Disk J) → bundle_exists id (placed id d only_temp) ≡ false
  exists-placed d = ap (λ o. is_some (bundle_of o)) (find-put_self id only_temp d.releases)

  -- The two calls that work, and the code behind them.
  begun :
      (d : Disk J) (try : Io J (Unit {0}) → Io J (Unit {0})) (rest : Io J (Unit {0}))
      → bundle_exists id d ≡ false
      → ((w : World J) (d' : Disk J)
          → change (create_release_directory id) w
            ≡ (ok tt, record w { disk = d'; events = works ∷ fails ∷ [] })
          → try (change (create_release_directory id)) w
            ≡ (ok tt, record w { disk = d'; events = works ∷ fails ∷ [] }))
      → (try (change (create_release_directory id)) >> (change (write_temp id bytes) >> rest))
          (rename_fails d)
        ≡ rest (record { disk = placed id d only_temp; events = fails ∷ [] })
  begun d try rest h keeps =
      let (t, e) = created_empty (find id d.releases) d h in
      let r : Release = record { bundle = none; temp = t } in
      let first : World J = record { disk = placed id d r; events = works ∷ fails ∷ [] } in
      >>=-ok (try (change (create_release_directory id)))
        (λ _. change (write_temp id bytes) >> rest) (rename_fails d)
        (keeps (rename_fails d) (placed id d r)
          (ap (λ o. stored o (record { disk = d; events = works ∷ fails ∷ [] })) e))
      ∙ >>=-ok (change (write_temp id bytes)) (λ _. rest) first
          (ap (λ o. stored o (record { disk = placed id d r; events = fails ∷ [] }))
            (with_release-placed id d (temp_written bytes) r only_temp refl))

  -- The rename fails, and nothing is noticed.
  replace_bundle-fails :
      (d : Disk J)
      → Android.replace_bundle J id (record { disk = placed id d only_temp; events = fails ∷ [] })
        ≡ (ok tt, calm (placed id d only_temp))
  unfolding Android.replace_bundle
  replace_bundle-fails d =
      ap
        (λ x.
          ((if x then try_ignored (change (remove_bundle id)) else pure tt)
              >> try_ignored (change (rename_temp id)))
            (record { disk = placed id d only_temp; events = fails ∷ [] }))
        (exists-placed d)

  replace_bundle-throws :
      (d : Disk J)
      → Operations.replace_bundle J id
          (record { disk = placed id d only_temp; events = fails ∷ [] })
        ≡ (thrown, calm (placed id d only_temp))
  unfolding Operations.replace_bundle
  replace_bundle-throws d =
      ap
        (λ x.
          ((if x then change (remove_bundle id) else pure tt) >> change (move_temp id))
            (record { disk = placed id d only_temp; events = fails ∷ [] }))
        (exists-placed d)

  abbrev switched : Disk J → Disk J
  switched d =
      let rs = put id only_temp d.releases in
      record d {
        state_text = some (J.encode (pending_state id (state_of d)));
        mount_marker = false;
        releases = pruned id (state_of d).current_release_id (names_of rs) rs;
      }

  android_install :
      (d : Disk J)
      → bundle_exists id d ≡ false
      → Android.install_update J id bytes (rename_fails d) ≡ (ok tt, calm (switched d))
  unfolding Android.install_update
  android_install d h =
      let finish : Io J (Unit {0}) = Android.read_state J >>= Android.switch_release J id in
      begun d try_ignored (Android.replace_bundle J id >> finish) h (λ w d' e. ap ignored e)
      ∙ >>=-ok (Android.replace_bundle J id) (λ _. finish) _ (replace_bundle-fails d)
      ∙ >>=-ok (Android.read_state J) (Android.switch_release J id) _
          (read_state-same J (placed id d only_temp))
      ∙ switch_release-same J id (state_of d) (placed id d only_temp)
      ∙ switch_release_lem J id (state_of d) (placed id d only_temp)

  apple_install :
      (d : Disk J)
      → bundle_exists id d ≡ false
      → Operations.install_update J id bytes (rename_fails d)
        ≡ (thrown, calm (placed id d only_temp))
  unfolding Operations.install_update
  apple_install d h =
      let finish : Io J (Unit {0}) = Operations.read_state J >>= Operations.switch_release J id in
      begun d (λ m. m) (Operations.replace_bundle J id >> finish) h (λ w d' e. e)
      ∙ ap (λ r. after r (λ _. finish)) (replace_bundle-throws d)

  switched-bundle_exists : (d : Disk J) → bundle_exists id (switched d) ≡ false
  switched-bundle_exists d =
      let previous = (state_of d).current_release_id in
      let rs = put id only_temp d.releases in
      ap (λ o. is_some (bundle_of o))
        (find-pruned_kept id previous (names_of rs) id rs (keeps_self J id previous)
          ∙ find-put_self id only_temp d.releases)

  -- If the JSON coders read back what they wrote: a release that has no bundle is installed, and of
  -- the calls only the rename of its temporary file fails. The Kotlin storage returns all the same,
  -- and its state names the release as the current one, without a bundle; the Swift storage throws
  -- and leaves the state as it was.
  pub rename_unnoticed :
      (d : Disk J)
      → DecodesEncoded J
      → bundle_exists id d ≡ false
      → (d' d'' : Disk J) × (Android.install_update J id bytes (rename_fails d) ≡ (ok tt, calm d'))
        × ((state_of d').current_release_id ≡ some id)
        × (bundle_exists id d' ≡ false)
        × (Operations.install_update J id bytes (rename_fails d) ≡ (thrown, calm d''))
        × (d''.state_text ≡ d.state_text)
  rename_unnoticed d law h = (
    switched d,
    placed id d only_temp,
    android_install d h,
    ap (λ o. (or_empty o).current_release_id) (law (pending_state id (state_of d))),
    switched-bundle_exists d,
    apple_install d h,
    refl,
  )
