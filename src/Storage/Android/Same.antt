-- ===== src/Storage/Android/Same.antt =====
-- Where every call works, the two storages do the same with the same coders.
use salve_push.Base.{
  ◌≡◌, refl, sym, ap, ◌∙◌, Bool, true, false, Option, none, some, List, [], ◌∷◌, Bytes,
  if◌then◌else◌,
}
use salve_push.Storage.Releases.{Release, find, find-put_self}
use salve_push.Storage.Disk.{
  Json, Disk, SalvePushState, temp_written, create_release_directory, write_temp, remove_release,
  is_some, bundle_of, remove_bundle, bundle_removed,
}
use salve_push.Storage.Io.{ok, Io, World, pure, change, ◌>>=◌, ◌>>◌, try_ignored, ignored, stored}
use salve_push.Storage.Operations.{keeps}
use salve_push.Storage.Operations
use salve_push.Storage.Sound.{state_of}
use salve_push.Storage.Pruned.{names_of}
use salve_push.Storage.Calm.{
  calm, >>=-ok, read_state_lem, rolled, rollback_to_previous_lem, switch_release_lem, with_bundle,
}
use salve_push.Storage.Placed.{placed, changed, create_lem, install_update_lem}
use salve_push.Storage.Android.{rename_temp, renamed}
use salve_push.Storage.Android

module _ (J : Json) where
  pub read_state-same : (d : Disk J) → Android.read_state J (calm d) ≡ (ok (state_of d), calm d)
  unfolding Android.read_state
  read_state-same d = at d.state_text
    where
      at :
          (o : Option J.Text)
          → Android.read_state J (calm (record d { state_text = o }))
            ≡ (ok (Operations.decoded J o), calm (record d { state_text = o }))
      at none = refl
      at (some text) = refl

  roll_back_to-same :
      (o : Option Bytes) (d : Disk J)
      → Android.roll_back_to J o (calm d) ≡ (ok tt, calm (rolled J o d))
  unfolding Android.roll_back_to Android.write_state Android.mark_mounted
  roll_back_to-same none d = refl
  roll_back_to-same (some previous) d = refl

  rollback_to_previous-same :
      (d : Disk J)
      → Android.rollback_to_previous J (calm d) ≡ Operations.rollback_to_previous J (calm d)
  unfolding Android.rollback_to_previous
  rollback_to_previous-same d =
      >>=-ok (Android.read_state J) (λ s. Android.roll_back_to J s.previous_release_id) (calm d)
        (read_state-same d)
      ∙ roll_back_to-same (state_of d).previous_release_id d
      ∙ sym (rollback_to_previous_lem J d)

  prune_entries-same :
      (id : Bytes) (previous : Option Bytes) (names : List Bytes) (w : World J)
      → Android.prune_entries J id previous names w ≡ Operations.prune_entries J id previous names w
  unfolding Android.prune_entries Operations.prune_entries
  prune_entries-same id previous [] w = refl
  prune_entries-same id previous (name ∷ rest) w =
      at (keeps id previous name) (λ i v. prune_entries-same id previous rest v i)
    where
      at :
          (b : Bool)
          → Android.prune_entries J id previous rest ≡ Operations.prune_entries J id previous rest
          → (if b
                then Android.prune_entries J id previous rest
                else (try_ignored (change (remove_release name))
                    >> Android.prune_entries J id previous rest))
              w
            ≡ (if b
                  then Operations.prune_entries J id previous rest
                  else (try_ignored (change (remove_release name))
                      >> Operations.prune_entries J id previous rest))
                w
      at b e =
          ap
            (λ (next : Io J (Unit {0})).
              (if b then next else (try_ignored (change (remove_release name)) >> next)) w)
            e

  pub switch_release-same :
      (id : Bytes) (s : SalvePushState) (d : Disk J)
      → Android.switch_release J id s (calm d) ≡ Operations.switch_release J id s (calm d)
  unfolding Android.switch_release Operations.switch_release Android.write_state
      Operations.write_state Android.clear_mounted_marker Operations.clear_mounted_marker
      Android.prune_old_releases Operations.prune_old_releases
  switch_release-same id s d = at d.mount_marker
    where
      at :
          (b : Bool)
          → Android.switch_release J id s (calm (record d { mount_marker = b }))
            ≡ Operations.switch_release J id s (calm (record d { mount_marker = b }))
      at true = prune_entries-same id s.current_release_id (names_of d.releases) _
      at false = prune_entries-same id s.current_release_id (names_of d.releases) _

  replace_bundle-same :
      (id bytes : Bytes) (old : Option Bytes) (d : Disk J)
      → Android.replace_bundle J id
          (calm (placed id d (record { bundle = old; temp = some bytes })))
        ≡ (ok tt, calm (placed id d (with_bundle bytes)))
  unfolding Android.replace_bundle
  replace_bundle-same id bytes none d =
      let r : Release = record { bundle = none; temp = some bytes } in
      ap
        (λ b.
          ((if b then try_ignored (change (remove_bundle id)) else pure tt)
              >> try_ignored (change (rename_temp id)))
            (calm (placed id d r)))
        (ap (λ o. is_some (bundle_of o)) (find-put_self id r d.releases))
      ∙ ap ignored (changed id d renamed r (with_bundle bytes) refl)
  replace_bundle-same id bytes (some old) d =
      let r : Release = record { bundle = some old; temp = some bytes } in
      let r' : Release = record { bundle = none; temp = some bytes } in
      ap
        (λ b.
          ((if b then try_ignored (change (remove_bundle id)) else pure tt)
              >> try_ignored (change (rename_temp id)))
            (calm (placed id d r)))
        (ap (λ o. is_some (bundle_of o)) (find-put_self id r d.releases))
      ∙ >>=-ok (try_ignored (change (remove_bundle id)))
          (λ _. try_ignored (change (rename_temp id))) (calm (placed id d r))
          (ap ignored (changed id d bundle_removed r r' refl))
      ∙ ap ignored (changed id d renamed r' (with_bundle bytes) refl)

  install_update-same :
      (id bytes : Bytes) (d : Disk J)
      → Android.install_update J id bytes (calm d) ≡ Operations.install_update J id bytes (calm d)
  unfolding Android.install_update
  install_update-same id bytes d =
      let (r, e) = create_lem id d (find id d.releases) in
      let finish : Io J (Unit {0}) = Android.read_state J >>= Android.switch_release J id in
      >>=-ok (try_ignored (change (create_release_directory id)))
        (λ _. change (write_temp id bytes) >> (Android.replace_bundle J id >> finish)) (calm d)
        (ap (λ o. ignored (stored o (calm d))) e)
      ∙ >>=-ok (change (write_temp id bytes)) (λ _. Android.replace_bundle J id >> finish)
          (calm (placed id d r))
          (changed id d (temp_written bytes) r (record r { temp = some bytes }) refl)
      ∙ >>=-ok (Android.replace_bundle J id) (λ _. finish) _
          (replace_bundle-same id bytes r.bundle d)
      ∙ >>=-ok (Android.read_state J) (Android.switch_release J id) _
          (read_state-same (placed id d (with_bundle bytes)))
      ∙ switch_release-same id (state_of d) (placed id d (with_bundle bytes))
      ∙ switch_release_lem J id (state_of d) (placed id d (with_bundle bytes))
      ∙ sym (install_update_lem id d bytes)

  confirm_boot-same :
      (d : Disk J) → Android.confirm_boot J (calm d) ≡ Operations.confirm_boot J (calm d)
  unfolding Android.confirm_boot Operations.confirm_boot Android.mark_mounted
      Operations.mark_mounted Android.write_state Operations.write_state
  confirm_boot-same d =
      let mounted = record d { mount_marker = true } in
      >>=-ok (Android.read_state J) _ (calm mounted) (read_state-same mounted)
      ∙ sym (>>=-ok (Operations.read_state J) _ (calm mounted) (read_state_lem J mounted))

  process_crash_marker_if_present-same :
      (d : Disk J)
      → Android.process_crash_marker_if_present J (calm d)
        ≡ Operations.process_crash_marker_if_present J (calm d)
  unfolding Android.process_crash_marker_if_present Operations.process_crash_marker_if_present
      Android.process_crash_marker Operations.process_crash_marker
  process_crash_marker_if_present-same d = at d.crash_marker
    where
      at :
          (o : Option Bytes)
          → Android.process_crash_marker_if_present J (calm (record d { crash_marker = o }))
            ≡ Operations.process_crash_marker_if_present J (calm (record d { crash_marker = o }))
      at none = refl
      at (some contents) = asked (J.is_auto_rollback contents)
        where
          asked :
              (b : Bool)
              → (if b then Android.rollback_to_previous J else pure tt)
                  (calm (record d { crash_marker = none }))
                ≡ (if b then Operations.rollback_to_previous J else pure tt)
                    (calm (record d { crash_marker = none }))
          asked true = rollback_to_previous-same (record d { crash_marker = none })
          asked false = refl

  -- Where every call works, the crash marker is dealt with and the code goes on.
  process_crash_marker_calm :
      (d : Disk J)
      → (d' : Disk J) × (Operations.process_crash_marker_if_present J (calm d) ≡ (ok tt, calm d'))
  unfolding Operations.process_crash_marker_if_present Operations.process_crash_marker
  process_crash_marker_calm d = at d.crash_marker
    where
      asked :
          (b : Bool) (v : Disk J)
          → (d' : Disk J) × ((if b then Operations.rollback_to_previous J else pure tt) (calm v)
              ≡ (ok tt, calm d'))
      asked true v = (rolled J (state_of v).previous_release_id v, rollback_to_previous_lem J v)
      asked false v = (v, refl)

      at :
          (o : Option Bytes)
          → (d' : Disk J) × (Operations.process_crash_marker_if_present J
                (calm (record d { crash_marker = o }))
              ≡ (ok tt, calm d'))
      at none = (record d { crash_marker = none }, refl)
      at (some contents) = asked (J.is_auto_rollback contents) (record d { crash_marker = none })

  resolve_release-same :
      (o : Option Bytes) (w : World J)
      → Android.resolve_release J o w ≡ Operations.resolve_release J o w
  unfolding Android.resolve_release Operations.resolve_release
  resolve_release-same none w = refl
  resolve_release-same (some id) w = refl

  -- After the crash marker, both read the state of the same disk.
  resolve_bundle_path-same :
      (d : Disk J)
      → Android.resolve_bundle_path J (calm d) ≡ Operations.resolve_bundle_path J (calm d)
  unfolding Android.resolve_bundle_path Operations.resolve_bundle_path
  resolve_bundle_path-same d =
      let (d', e) = process_crash_marker_calm d in
      >>=-ok (Android.process_crash_marker_if_present J) _ (calm d)
        (process_crash_marker_if_present-same d ∙ e)
      ∙ >>=-ok (Android.read_state J) _ (calm d') (read_state-same d')
      ∙ resolve_release-same (state_of d').current_release_id (calm d')
      ∙ sym (>>=-ok (Operations.read_state J) _ (calm d') (read_state_lem J d'))
      ∙ sym (>>=-ok (Operations.process_crash_marker_if_present J) _ (calm d) e)

  pub rollback_if_unconfirmed-same :
      (d : Disk J)
      → Android.rollback_to_previous_if_unconfirmed J (calm d)
        ≡ Operations.rollback_to_previous_if_unconfirmed J (calm d)
  unfolding Android.rollback_to_previous_if_unconfirmed
      Operations.rollback_to_previous_if_unconfirmed
  rollback_if_unconfirmed-same d = at d.mount_marker
    where
      at :
          (b : Bool)
          → (if b then pure tt else Android.rollback_to_previous J) (calm d)
            ≡ (if b then pure tt else Operations.rollback_to_previous J) (calm d)
      at true = refl
      at false = rollback_to_previous-same d

  get_current_release_id-same :
      (d : Disk J)
      → Android.get_current_release_id J (calm d) ≡ Operations.get_current_release_id J (calm d)
  unfolding Android.get_current_release_id Operations.get_current_release_id
  get_current_release_id-same d =
      >>=-ok (Android.read_state J) _ (calm d) (read_state-same d)
      ∙ sym (>>=-ok (Operations.read_state J) _ (calm d) (read_state_lem J d))

  -- With the same coders, on the same disk.
  pub same_coders :
      (id bytes : Bytes) (d : Disk J)
      → (Android.install_update J id bytes (calm d) ≡ Operations.install_update J id bytes (calm d))
        × (Android.confirm_boot J (calm d) ≡ Operations.confirm_boot J (calm d))
        × (Android.resolve_bundle_path J (calm d) ≡ Operations.resolve_bundle_path J (calm d))
        × (Android.rollback_to_previous_if_unconfirmed J (calm d)
            ≡ Operations.rollback_to_previous_if_unconfirmed J (calm d))
        × (Android.get_current_release_id J (calm d) ≡ Operations.get_current_release_id J (calm d))
  same_coders id bytes d = (
    install_update-same id bytes d,
    confirm_boot-same d,
    resolve_bundle_path-same d,
    rollback_if_unconfirmed-same d,
    get_current_release_id-same d,
  )
