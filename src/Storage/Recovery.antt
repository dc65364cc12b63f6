-- ===== src/Storage/Recovery.antt =====
-- From a crash to the launch behind it, where every call works.
use mathlib.Core.Path.{subst}
use salve_push.Base.{
  bytes_eq_refl, ◌≡◌, refl, sym, ap, ◌∙◌, Bool, true, false, not, ◌||◌, Option, none, some, ℤ,
  Bytes, bytes_eq, bytes_discrete, if◌then◌else◌,
}
use salve_push.CrashHandler.Marker.{marker_text}
use salve_push.Storage.Releases.{find, put, find-put_self, find-put_ne}
use salve_push.Storage.Disk.{Json, DecodesEncoded, Disk, bundle_of, is_some, bundle_exists}
use salve_push.Storage.Io.{ok, pure, ◌>>=◌}
use salve_push.Storage.Holds.{Holds}
use salve_push.Storage.Operations.{
  or_empty, keeps, read_state, pending_state, rollback_to_previous, process_crash_marker,
  process_crash_marker_if_present, resolve_release, resolve_bundle_path,
}
use salve_push.Storage.Sound.{state_of, HasBundle, Names, IsSound}
use salve_push.Storage.Launch.{Kept, same_releases-Names, process_crash_marker_if_present-IsSound}
use salve_push.Storage.Pruned.{pruned, names_of, find-pruned_kept}
use salve_push.Storage.Calm.{
  calm, >>=-ok, read_state_lem, rolled, rollback_to_previous_lem, with_bundle, installed,
}

-- The flag of a marker that the crash handler wrote is read as it was written.
abbrev pub ReadsMarkers : Json → Type 0
ReadsMarkers J = (n : ℤ) (auto : Bool) → J.is_auto_rollback (marker_text n auto) ≡ auto

module _ {J : Json} where
  -- The disk after a crash: the marker that `writeCrashMarker` leaves.
  abbrev pub crashed : ℤ → Disk J → Disk J
  crashed n d = record d { crash_marker = some (marker_text n (not d.mount_marker)) }

  abbrev pub unmarked : Disk J → Disk J
  unmarked d = record d { crash_marker = none }

  -- What a launch makes of a crash: nothing, if the boot was confirmed or there is no release
  -- before, and else the release before is the current one, and confirmed.
  abbrev pub recovered : Disk J → Disk J
  recovered d =
      if d.mount_marker then unmarked d else rolled J (state_of d).previous_release_id (unmarked d)

module _ (J : Json) where
  pub process_crash_lem :
      (n : ℤ) (d : Disk J)
      → ReadsMarkers J
      → process_crash_marker_if_present J (calm (crashed n d)) ≡ (ok tt, calm (recovered d))
  unfolding process_crash_marker_if_present process_crash_marker
  process_crash_lem n d reads =
      ap (λ b. (if b then rollback_to_previous J else pure tt) (calm (unmarked d)))
        (reads n (not d.mount_marker))
      ∙ at d.mount_marker
    where
      at :
          (b : Bool)
          → (if not b then rollback_to_previous J else pure tt) (calm (unmarked d)) ≡ (
            ok tt,
            calm (if b then unmarked d else rolled J (state_of d).previous_release_id (unmarked d)),
          )
      at true = refl
      at false = rollback_to_previous_lem J (unmarked d)

  pub resolve_release_lem :
      (o : Option Bytes) (d : Disk J)
      → HasBundle o d
      → resolve_release J o (calm d) ≡ (ok o, calm d)
  unfolding resolve_release
  resolve_release_lem none d h = refl
  resolve_release_lem (some id) d h = ap (λ b. (ok (if b then some id else none), calm d)) h

  -- Where every call works, the JSON coders read back what they wrote, and the flag of a crash
  -- marker is read as the crash handler wrote it: the launch after a crash, from a sound disk,
  -- takes the marker away and boots the release before, now confirmed, if there is one and the
  -- boot was not confirmed, and else the same release again.
  pub launch_after_crash :
      (n : ℤ) (d : Disk J)
      → DecodesEncoded J
      → ReadsMarkers J
      → IsSound d
      → resolve_bundle_path J (calm (crashed n d))
        ≡ (ok (state_of (recovered d)).current_release_id, calm (recovered d))
  unfolding resolve_bundle_path
  launch_after_crash n d law reads sound =
      let e = process_crash_lem n d reads in
      let still : IsSound (recovered d) = subst (Holds (Kept J law) IsSound) e (
        process_crash_marker_if_present-IsSound J law (calm (crashed n d))
          (same_releases-Names J law d (crashed n d) (state_of d) refl sound)) in
      >>=-ok (process_crash_marker_if_present J)
        (λ _. read_state J >>= (λ s. resolve_release J s.current_release_id)) (calm (crashed n d)) e
      ∙ >>=-ok (read_state J) (λ s. resolve_release J s.current_release_id) (calm (recovered d))
          (read_state_lem J (recovered d))
      ∙ resolve_release_lem (state_of (recovered d)).current_release_id (recovered d) still.0

  pub keeps_self : (id : Bytes) (o : Option Bytes) → keeps id o id ≡ true
  keeps_self id none = bytes_eq_refl id
  keeps_self id (some p) = ap (λ b. b || bytes_eq id p) (bytes_eq_refl id)

  installed_current : (id bytes : Bytes) (d : Disk J) → HasBundle (some id) (installed J id bytes d)
  installed_current id bytes d =
      let previous = (state_of d).current_release_id in
      let rs = put id (with_bundle bytes) d.releases in
      ap (λ o. is_some (bundle_of o))
        (find-pruned_kept id previous (names_of rs) id rs (keeps_self id previous)
          ∙ find-put_self id (with_bundle bytes) d.releases)

  put-HasBundle :
      (id p bytes : Bytes) (d : Disk J)
      → bundle_exists p d ≡ true
      → is_some (bundle_of (find p (put id (with_bundle bytes) d.releases))) ≡ true
  put-HasBundle id p bytes d h = elim (bytes_discrete p id) [
    | yes e ↦
        subst (λ q. is_some (bundle_of (find q (put id (with_bundle bytes) d.releases))) ≡ true)
          (sym e)
          (ap (λ o. is_some (bundle_of o)) (find-put_self id (with_bundle bytes) d.releases))
    | no ne ↦
        ap (λ o. is_some (bundle_of o)) (find-put_ne id p (with_bundle bytes) d.releases ne) ∙ h
  ]

  keeps-previous : (id p : Bytes) → keeps id (some p) p ≡ true
  keeps-previous id p = ap (λ b. bytes_eq p id || b) (bytes_eq_refl p) ∙ either (bytes_eq p id)
    where
      either : (b : Bool) → (b || true) ≡ true
      either true = refl
      either false = refl

  installed_previous :
      (id bytes : Bytes) (d : Disk J)
      → HasBundle (state_of d).current_release_id d
      → HasBundle (state_of d).current_release_id (installed J id bytes d)
  installed_previous id bytes d = at (state_of d).current_release_id
    where
      at :
          (o : Option Bytes)
          → HasBundle o d
          → HasBundle o (record (installed J id bytes d) {
            releases =
                pruned id o
                  (names_of (put id (with_bundle bytes) d.releases))
                  (put id (with_bundle bytes) d.releases);
          })
      at none h = tt
      at (some p) h =
          ap (λ o. is_some (bundle_of o))
            (find-pruned_kept id (some p) (names_of (put id (with_bundle bytes) d.releases)) p
              (put id (with_bundle bytes) d.releases) (keeps-previous id p))
          ∙ put-HasBundle id p bytes d h

  pub state-installed :
      (id bytes : Bytes) (d : Disk J)
      → DecodesEncoded J
      → state_of (installed J id bytes d) ≡ pending_state id (state_of d)
  state-installed id bytes d law = ap or_empty (law (pending_state id (state_of d)))

  -- An installation where every call works leaves a sound disk, also of a release that is there.
  pub installed-IsSound :
      (id bytes : Bytes) (d : Disk J)
      → DecodesEncoded J
      → IsSound d
      → IsSound (installed J id bytes d)
  installed-IsSound id bytes d law sound =
      subst (λ s. Names s (installed J id bytes d)) (sym (state-installed id bytes d law))
        (installed_current id bytes d, installed_previous id bytes d sound.0)
