-- ===== src/Storage/Android/Thrown.antt =====
-- A launch whose rollback cannot write the state.
use salve_push.Base.{
  ◌≡◌, refl, ap, ◌∙◌, true, false, not, Option, none, some, [], ◌∷◌, ℤ, Bytes, if◌then◌else◌,
}
use salve_push.CrashHandler.Marker.{marker_text}
use salve_push.Storage.Disk.{Json, Disk, bundle_exists}
use salve_push.Storage.Io.{works, fails, ok, thrown, Io, World, pure, after, ◌>>=◌}
use salve_push.Storage.Sound.{state_of}
use salve_push.Storage.Calm.{calm, >>=-ok, read_state_lem}
use salve_push.Storage.Recovery.{
  ReadsMarkers, crashed, unmarked, process_crash_lem, resolve_release_lem,
}
use salve_push.Storage.Operations
use salve_push.Storage.Android

module _ (J : Json) where
  -- The reads and the removal of the crash marker work, and then the write of the state fails.
  abbrev pub write_fails : Disk J → World J
  write_fails d = record { disk = d; events = works ∷ works ∷ works ∷ fails ∷ [] }

  abbrev behind_marker : Disk J → World J
  behind_marker d = record { disk = unmarked d; events = works ∷ fails ∷ [] }

  abbrev behind_state : Disk J → World J
  behind_state d = record { disk = unmarked d; events = fails ∷ [] }

  android_read :
      (d : Disk J) → Android.read_state J (behind_marker d) ≡ (ok (state_of d), behind_state d)
  unfolding Android.read_state
  android_read d = at d.state_text
    where
      at :
          (o : Option J.Text)
          → Android.read_state J (behind_marker (record d { state_text = o }))
            ≡ (ok (Operations.decoded J o), behind_state (record d { state_text = o }))
      at none = refl
      at (some text) = refl

  apple_read :
      (d : Disk J) → Operations.read_state J (behind_marker d) ≡ (ok (state_of d), behind_state d)
  unfolding Operations.read_state
  apple_read d = at d.state_text
    where
      at :
          (o : Option J.Text)
          → Operations.read_state J (behind_marker (record d { state_text = o }))
            ≡ (ok (Operations.decoded J o), behind_state (record d { state_text = o }))
      at none = refl
      at (some text) = refl

  -- The state stays as it was; on iOS the boot counts as confirmed from here on.
  abbrev pub marked : Disk J → Disk J
  marked d = record (unmarked d) { mount_marker = true }

  module _ (p : Bytes) (d : Disk J) (previous : (state_of d).previous_release_id ≡ some p) where
    android_rollback :
        Android.rollback_to_previous J (behind_marker d) ≡ (thrown, calm (unmarked d))
    unfolding Android.rollback_to_previous Android.roll_back_to Android.write_state
    android_rollback =
        >>=-ok (Android.read_state J) (λ s. Android.roll_back_to J s.previous_release_id)
          (behind_marker d) (android_read d)
        ∙ ap (λ o. Android.roll_back_to J o (behind_state d)) previous

    apple_rollback : Operations.rollback_to_previous J (behind_marker d) ≡ (ok tt, calm (marked d))
    unfolding Operations.rollback_to_previous Operations.roll_back_to Operations.write_state
        Operations.mark_mounted
    apple_rollback =
        >>=-ok (Operations.read_state J) (λ s. Operations.roll_back_to J s.previous_release_id)
          (behind_marker d) (apple_read d)
        ∙ ap (λ o. Operations.roll_back_to J o (behind_state d)) previous

    module _ (n : ℤ) (reads : ReadsMarkers J) (unconfirmed : d.mount_marker ≡ false) where
      asks : J.is_auto_rollback (marker_text n (not d.mount_marker)) ≡ true
      asks = reads n (not d.mount_marker) ∙ ap not unconfirmed

      android_marker :
          Android.process_crash_marker_if_present J (write_fails (crashed n d))
          ≡ (thrown, calm (unmarked d))
      unfolding Android.process_crash_marker_if_present Android.process_crash_marker
      android_marker =
          ap (λ b. (if b then Android.rollback_to_previous J else pure tt) (behind_marker d)) asks
          ∙ android_rollback

      apple_marker :
          Operations.process_crash_marker_if_present J (write_fails (crashed n d))
          ≡ (ok tt, calm (marked d))
      unfolding Operations.process_crash_marker_if_present Operations.process_crash_marker
      apple_marker =
          ap (λ b. (if b then Operations.rollback_to_previous J else pure tt) (behind_marker d))
            asks
          ∙ apple_rollback

  -- Where the flag of a crash marker is read as it was written: a release `r` crashes that is not
  -- confirmed, with its bundle there and a release before it, and of the calls of the rollback
  -- only the write of the state fails. The Kotlin launch throws and has taken the marker away; the
  -- Swift launch boots `r` again and marks it as confirmed, so that the next crash marker makes no
  -- rollback.
  pub rollback_write_fails :
      (n : ℤ) (r p : Bytes) (d : Disk J)
      → ReadsMarkers J
      → d.mount_marker ≡ false
      → (state_of d).current_release_id ≡ some r
      → (state_of d).previous_release_id ≡ some p
      → bundle_exists r d ≡ true
      → (Android.resolve_bundle_path J (write_fails (crashed n d)) ≡ (thrown, calm (unmarked d)))
        × (Operations.resolve_bundle_path J (write_fails (crashed n d))
            ≡ (ok (some r), calm (marked d)))
        × (Operations.process_crash_marker_if_present J (calm (crashed n (marked d)))
            ≡ (ok tt, calm (marked d)))
  unfolding Android.resolve_bundle_path Operations.resolve_bundle_path
  rollback_write_fails n r p d reads unconfirmed current previous bundle =
      let resolve : Io J (Option Bytes) =
        Operations.read_state J >>= (λ s. Operations.resolve_release J s.current_release_id) in
      (
        ap
            (λ r.
              after r (λ _.
                Android.read_state J >>= (λ s. Android.resolve_release J s.current_release_id)))
            (android_marker p d previous n reads unconfirmed),
        >>=-ok (Operations.process_crash_marker_if_present J) (λ _. resolve)
              (write_fails (crashed n d)) (apple_marker p d previous n reads unconfirmed)
            ∙ >>=-ok (Operations.read_state J)
                (λ s. Operations.resolve_release J s.current_release_id) (calm (marked d))
                (read_state_lem J (marked d))
            ∙ ap (λ o. Operations.resolve_release J o (calm (marked d))) current
            ∙ resolve_release_lem J (some r) (marked d) bundle,
        process_crash_lem J n (marked d) reads,
      )
