-- ===== src/Storage/Quiet.antt =====
-- A launch does not throw: it gives a result, unless the process dies.
use salve_push.Base.{Bool, true, false, Option, none, some, Bytes, if◌then◌else◌}
use salve_push.Storage.Disk.{Json, remove_crash_marker, create_mount_marker}
use salve_push.Storage.Io.{
  Io, World, Result, ok, thrown, died, after, ◌>>=◌, pure, caught, ignored, try_optional,
  try_ignored, change, read,
}
use salve_push.Storage.Operations.{
  read_state, decoded, mark_mounted, rolled_back, write_state, roll_back_to, rollback_to_previous,
  process_crash_marker, process_crash_marker_if_present, resolve_release, resolve_bundle_path,
}

module _ {J : Json} where
  abbrev pub NotThrown : {A : Type 0} → Result A × World J → Type 0
  NotThrown (ok a, w) = Unit {0}
  NotThrown (thrown, w) = ⊥
  NotThrown (died, w) = Unit {0}

  abbrev pub IsQuiet : {A : Type 0} → Io J A → Type 0
  IsQuiet m = (w : World J) → NotThrown (m w)

  after-NotThrown :
      {A B : Type 0} (r : Result A × World J) (f : A → Io J B)
      → NotThrown r
      → ((a : A) → IsQuiet (f a))
      → NotThrown (after r f)
  after-NotThrown (ok a, w) f h next = next a w
  after-NotThrown (thrown, w) f h next = absurd h
  after-NotThrown (died, w) f h next = tt

  pub >>=-IsQuiet :
      {A B : Type 0} (m : Io J A) (f : A → Io J B)
      → IsQuiet m
      → ((a : A) → IsQuiet (f a))
      → IsQuiet (m >>= f)
  >>=-IsQuiet m f h next w = after-NotThrown (m w) f (h w) next

  ignored-NotThrown : (r : Result (Unit {0}) × World J) → NotThrown (ignored r)
  ignored-NotThrown (ok a, w) = tt
  ignored-NotThrown (thrown, w) = tt
  ignored-NotThrown (died, w) = tt

  try_ignored-IsQuiet : (m : Io J (Unit {0})) → IsQuiet (try_ignored m)
  try_ignored-IsQuiet m w = ignored-NotThrown (m w)

  caught-NotThrown : {A : Type 0} (r : Result A × World J) → NotThrown (caught r)
  caught-NotThrown (ok a, w) = tt
  caught-NotThrown (thrown, w) = tt
  caught-NotThrown (died, w) = tt

  try_optional-IsQuiet : {A : Type 0} (m : Io J A) → IsQuiet (try_optional m)
  try_optional-IsQuiet m w = caught-NotThrown (m w)

module _ (J : Json) where
  read_state-IsQuiet : IsQuiet (read_state J)
  unfolding read_state
  read_state-IsQuiet =
      >>=-IsQuiet (try_optional (read (λ d. d.state_text))) (λ text. pure (decoded J text))
        (try_optional-IsQuiet (read (λ d. d.state_text))) (λ text w. tt)

  roll_back_to-IsQuiet : (o : Option Bytes) → IsQuiet (roll_back_to J o)
  unfolding roll_back_to mark_mounted
  roll_back_to-IsQuiet none w = tt
  roll_back_to-IsQuiet (some previous) w =
      >>=-IsQuiet (try_ignored (write_state J (rolled_back previous))) (λ _. mark_mounted J)
        (try_ignored-IsQuiet (write_state J (rolled_back previous)))
        (λ _. try_ignored-IsQuiet (change create_mount_marker)) w

  rollback_to_previous-IsQuiet : IsQuiet (rollback_to_previous J)
  unfolding rollback_to_previous
  rollback_to_previous-IsQuiet =
      >>=-IsQuiet (read_state J) (λ s. roll_back_to J s.previous_release_id) read_state-IsQuiet
        (λ s. roll_back_to-IsQuiet s.previous_release_id)

  if_rollback-IsQuiet : (b : Bool) → IsQuiet (if b then rollback_to_previous J else pure tt)
  if_rollback-IsQuiet true w = rollback_to_previous-IsQuiet w
  if_rollback-IsQuiet false w = tt

  process_crash_marker-IsQuiet : (o : Option Bytes) → IsQuiet (process_crash_marker J o)
  unfolding process_crash_marker
  process_crash_marker-IsQuiet none w = tt
  process_crash_marker-IsQuiet (some contents) w =
      >>=-IsQuiet (try_ignored (change remove_crash_marker))
        (λ _. if J.is_auto_rollback contents then rollback_to_previous J else pure tt)
        (try_ignored-IsQuiet (change remove_crash_marker))
        (λ _. if_rollback-IsQuiet (J.is_auto_rollback contents)) w

  resolve_release-IsQuiet : (o : Option Bytes) → IsQuiet (resolve_release J o)
  unfolding resolve_release
  resolve_release-IsQuiet none w = tt
  resolve_release-IsQuiet (some id) w = tt

  pub resolve_bundle_path-IsQuiet : IsQuiet (resolve_bundle_path J)
  unfolding resolve_bundle_path process_crash_marker_if_present
  resolve_bundle_path-IsQuiet =
      >>=-IsQuiet (process_crash_marker_if_present J)
        (λ _. read_state J >>= (λ s. resolve_release J s.current_release_id))
        (>>=-IsQuiet (try_optional (read (λ d. d.crash_marker))) (process_crash_marker J)
          (try_optional-IsQuiet (read (λ d. d.crash_marker))) process_crash_marker-IsQuiet)
        (λ _.
          >>=-IsQuiet (read_state J) (λ s. resolve_release J s.current_release_id)
            read_state-IsQuiet (λ s. resolve_release-IsQuiet s.current_release_id))
