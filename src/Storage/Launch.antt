-- ===== src/Storage/Launch.antt =====
-- `resolveBundlePath`, `confirmBoot` and the rollback from a sound disk, whatever fails on the way.
use mathlib.Core.Path.{subst}
use salve_push.Base.{
  codes, ◌≡◌, refl, sym, Bool, true, false, Option, none, some, Bytes, Bool-cases, inl, inr,
  if◌then◌else◌,
}
use salve_push.Storage.Disk.{
  Json, DecodesEncoded, Disk, SalvePushState, bundle_exists, write_state_text, create_mount_marker,
  remove_crash_marker,
}
use salve_push.Storage.Io.{World, Io, pure, change, read, ◌>>=◌, try_optional, try_ignored}
use salve_push.Storage.Holds.{
  Holds, Gives, Holds->>=, Holds-change, Holds-read, Holds-try_optional, Holds-try_change,
}
use salve_push.Storage.Operations.{
  or_empty, read_state, write_state, mark_mounted, confirm_boot, rolled_back, roll_back_to,
  rollback_to_previous, rollback_to_previous_if_unconfirmed, process_crash_marker,
  process_crash_marker_if_present, resolve_release, resolve_bundle_path,
}
use salve_push.Storage.Sound.{state_of, HasBundle, Names, IsSound, same_releases-HasBundle}
use salve_push.Storage.Safe.{read_state-Names}

module _ (J : Json) (law : DecodesEncoded J) where
  abbrev pub Kept : Unit {0} → Disk J → Type 0
  Kept _ = IsSound

  pub same_releases-Names :
      (d d' : Disk J) (s : SalvePushState) → d'.releases ≡ d.releases → Names s d → Names s d'
  same_releases-Names d d' s e (current, previous) = (
    same_releases-HasBundle d d' s.current_release_id e current,
    same_releases-HasBundle d d' s.previous_release_id e previous,
  )

  written-IsSound :
      (s : SalvePushState) (d : Disk J)
      → Names s d
      → Gives IsSound (write_state_text (J.encode s) d)
  written-IsSound s d names =
      let d' = record d { state_text = some (J.encode s) } in
      subst (λ o. Names (or_empty o) d') (sym (law s)) (same_releases-Names d d' s refl names)

  unmarked-IsSound : (d : Disk J) → IsSound d → Gives IsSound (remove_crash_marker d)
  unmarked-IsSound d h = at d.crash_marker
    where
      at :
          (o : Option Bytes)
          → Gives IsSound
              (elim o [ none ↦ none | some _ ↦ some (record d { crash_marker = none }) ])
      at none = tt
      at (some _) = same_releases-Names d _ (state_of d) refl h

  mark_mounted-IsSound : (w : World J) → IsSound w.disk → Holds Kept IsSound (mark_mounted J w)
  unfolding mark_mounted
  mark_mounted-IsSound w h =
      Holds-try_change IsSound create_mount_marker w h
        (same_releases-Names w.disk _ (state_of w.disk) refl h)

  -- Whatever fails, and whenever the process dies, if the JSON coders read back what they wrote:
  -- confirming the boot keeps a sound disk sound.
  pub confirm_boot-IsSound : (w : World J) → IsSound w.disk → Holds Kept IsSound (confirm_boot J w)
  unfolding confirm_boot write_state
  confirm_boot-IsSound w h =
      let confirm : SalvePushState → Io J (Unit {0}) =
        λ s. write_state J (record s { boot_status = codes "confirmed" }) in
      Holds->>= Kept Kept IsSound (mark_mounted J) (λ _. read_state J >>= confirm) w
        (mark_mounted-IsSound w h)
        (λ _ v p.
          Holds->>= (λ s d. IsSound d × Names s d) Kept IsSound (read_state J) confirm v
            (read_state-Names J IsSound v (λ _ q. q) p)
            (λ s u q.
              Holds-change IsSound IsSound
                (write_state_text (J.encode (record s { boot_status = codes "confirmed" }))) u q.0
                (written-IsSound (record s { boot_status = codes "confirmed" }) u.disk q.1)))

  roll_back_to-IsSound :
      (o : Option Bytes) (w : World J)
      → IsSound w.disk
      → HasBundle o w.disk
      → Holds Kept IsSound (roll_back_to J o w)
  unfolding roll_back_to write_state
  roll_back_to-IsSound none w h bundle = h
  roll_back_to-IsSound (some previous) w h bundle =
      Holds->>= Kept Kept IsSound (try_ignored (write_state J (rolled_back previous)))
        (λ _. mark_mounted J) w
        (Holds-try_change IsSound (write_state_text (J.encode (rolled_back previous))) w h
          (written-IsSound (rolled_back previous) w.disk (bundle, tt)))
        (λ _ v p. mark_mounted-IsSound v p)

  rollback_to_previous-IsSound :
      (w : World J) → IsSound w.disk → Holds Kept IsSound (rollback_to_previous J w)
  unfolding rollback_to_previous
  rollback_to_previous-IsSound w h =
      Holds->>= (λ s d. IsSound d × Names s d) Kept IsSound (read_state J)
        (λ s. roll_back_to J s.previous_release_id) w (read_state-Names J IsSound w (λ _ q. q) h)
        (λ s v q. roll_back_to-IsSound s.previous_release_id v q.0 q.1.1)

  -- Whatever fails, and whenever the process dies, if the JSON coders read back what they wrote:
  -- the rollback of an exception handler keeps a sound disk sound.
  pub rollback_if_unconfirmed-IsSound :
      (w : World J) → IsSound w.disk → Holds Kept IsSound (rollback_to_previous_if_unconfirmed J w)
  unfolding rollback_to_previous_if_unconfirmed
  rollback_if_unconfirmed-IsSound w h = decide w.disk.mount_marker
    where
      decide : (b : Bool) → Holds Kept IsSound ((if b then pure tt else rollback_to_previous J) w)
      decide true = h
      decide false = rollback_to_previous-IsSound w h

  process_crash_marker-IsSound :
      (o : Option Bytes) (w : World J)
      → IsSound w.disk
      → Holds Kept IsSound (process_crash_marker J o w)
  unfolding process_crash_marker
  process_crash_marker-IsSound none w h = h
  process_crash_marker-IsSound (some contents) w h =
      Holds->>= Kept Kept IsSound (try_ignored (change remove_crash_marker))
        (λ _. if J.is_auto_rollback contents then rollback_to_previous J else pure tt) w
        (Holds-try_change IsSound remove_crash_marker w h (unmarked-IsSound w.disk h))
        (λ _ v p. decide (J.is_auto_rollback contents) v p)
    where
      decide :
          (b : Bool) (v : World J)
          → IsSound v.disk
          → Holds Kept IsSound ((if b then rollback_to_previous J else pure tt) v)
      decide true v p = rollback_to_previous-IsSound v p
      decide false v p = p

  pub process_crash_marker_if_present-IsSound :
      (w : World J) → IsSound w.disk → Holds Kept IsSound (process_crash_marker_if_present J w)
  unfolding process_crash_marker_if_present
  process_crash_marker_if_present-IsSound w h =
      Holds->>= (λ _. IsSound) Kept IsSound (try_optional (read (λ d. d.crash_marker)))
        (process_crash_marker J) w
        (Holds-try_optional (λ _. IsSound) IsSound (λ _. IsSound) (read (λ d. d.crash_marker)) w
          (λ _ _ p. p) (λ _ p. p)
          (Holds-read (λ _. IsSound) IsSound (λ d. d.crash_marker) w h (λ _ _. h)))
        (λ o v p. process_crash_marker-IsSound o v p)

  resolve_release-HasBundle :
      (o : Option Bytes) (w : World J)
      → IsSound w.disk
      → Holds (λ r d. IsSound d × HasBundle r d) IsSound (resolve_release J o w)
  unfolding resolve_release
  resolve_release-HasBundle none w h = (h, tt)
  resolve_release-HasBundle (some id) w h = elim (Bool-cases (bundle_exists id w.disk)) [
    | inl e ↦ rw e (h, e)
    | inr e ↦ rw e (h, tt)
  ]

  -- Whatever fails, and whenever the process dies, if the JSON coders read back what they wrote: a
  -- launch keeps a sound disk sound, and a path that it gives has a bundle.
  pub resolve_bundle_path-IsSound :
      (w : World J)
      → IsSound w.disk
      → Holds (λ r d. IsSound d × HasBundle r d) IsSound (resolve_bundle_path J w)
  unfolding resolve_bundle_path
  resolve_bundle_path-IsSound w h =
      let resolve : SalvePushState → Io J (Option Bytes) =
        λ s. resolve_release J s.current_release_id in
      let Resolved = λ (r : Option Bytes) (d : Disk J). IsSound d × HasBundle r d in
      Holds->>= Kept Resolved IsSound (process_crash_marker_if_present J)
        (λ _. read_state J >>= resolve) w (process_crash_marker_if_present-IsSound w h)
        (λ _ v p.
          Holds->>= (λ s d. IsSound d × Names s d) Resolved IsSound (read_state J) resolve v
            (read_state-Names J IsSound v (λ _ q. q) p)
            (λ s u q. resolve_release-HasBundle s.current_release_id u q.0))
