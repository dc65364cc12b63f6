-- ===== src/Storage/Android.antt =====
-- packages/sdk-react-native/android/src/main/java/com/margelo/nitro/salvepush/SalvePushStorage.kt:
-- the same storage on java.io.File, most of whose calls give a Boolean that the code does not use.
-- The file `state.json.tmp` is written before each rename and read by nothing else.
pub mod State
pub mod Same
pub mod Agree
pub mod Unsound
pub mod Thrown
use salve_push.Base.{
  Bool, false, Option, none, some, List, [], ◌∷◌, if◌then◌else◌, Bytes, codes, map,
}
use salve_push.Storage.Releases.{Release}
use salve_push.Storage.Disk.{
  Json, Disk, SalvePushState, create_release_directory, write_temp, remove_bundle, with_release,
  bundle_exists, remove_release, write_state_text, create_mount_marker, remove_mount_marker,
  remove_crash_marker, is_some,
}
use salve_push.Storage.Releases.{find}
use salve_push.Storage.Io.{Io, ◌>>=◌, ◌>>◌, pure, gets, change, read, try_optional, try_ignored}
use salve_push.Storage.Operations.{confirmed_empty, or_empty, pending_state, rolled_back, keeps}

-- `renameTo` takes the place of a file that is there.
abbrev pub renamed : Option Release → Option Release
renamed none = none
renamed (some r) = elim r.temp [
  | none ↦ none
  | some bytes ↦ some (record { bundle = some bytes; temp = none })
]

module _ {J : Json} where
  abbrev pub rename_temp : Bytes → Disk J → Option (Disk J)
  rename_temp id d = with_release id d (renamed (find id d.releases))

  -- The write of `state.json.tmp`.
  abbrev pub write_temporary_state : Disk J → Option (Disk J)
  write_temporary_state d = some d

module _ (J : Json) where
  abbrev pub decoded : Option J.Text → SalvePushState
  decoded none = confirmed_empty
  decoded (some text) = or_empty (J.decode text)

  unfoldable pub read_state : Io J SalvePushState
  read_state = do text ← try_optional (read (λ d. d.state_text)); pure (decoded text)

  unfoldable pub write_state : SalvePushState → Io J (Unit {0})
  write_state s = do
    change write_temporary_state
    try_ignored (change (write_state_text (J.encode s)))

  -- `createNewFile` throws where it fails.
  unfoldable pub mark_mounted : Io J (Unit {0})
  mark_mounted = change create_mount_marker

  unfoldable pub clear_mounted_marker : Io J (Unit {0})
  clear_mounted_marker = try_ignored (change remove_mount_marker)

  unfoldable pub prune_entries : Bytes → Option Bytes → List Bytes → Io J (Unit {0})
  prune_entries id previous [] = pure tt
  prune_entries id previous (name ∷ rest) =
      let others = prune_entries id previous rest in
      if keeps id previous name
      then others
      else (try_ignored (change (remove_release name)) >> others)

  abbrev pub prune_listed : Bytes → Option Bytes → Option (List Bytes) → Io J (Unit {0})
  prune_listed id previous none = pure tt
  prune_listed id previous (some names) = prune_entries id previous names

  unfoldable pub prune_old_releases : Bytes → Option Bytes → Io J (Unit {0})
  prune_old_releases id previous = do
    names ← try_optional (read (λ d. some (map (λ entry. entry.0) d.releases)))
    prune_listed id previous names

  unfoldable pub replace_bundle : Bytes → Io J (Unit {0})
  replace_bundle id = do
    exists ← gets (bundle_exists id)
    if exists then try_ignored (change (remove_bundle id)) else pure tt
    try_ignored (change (rename_temp id))

  unfoldable pub switch_release : Bytes → SalvePushState → Io J (Unit {0})
  switch_release id s = do
    write_state (pending_state id s)
    clear_mounted_marker
    prune_old_releases id s.current_release_id

  unfoldable pub install_update : Bytes → Bytes → Io J (Unit {0})
  install_update id bundle = do
    try_ignored (change (create_release_directory id))
    change (write_temp id bundle)
    replace_bundle id
    s ← read_state
    switch_release id s

  unfoldable pub confirm_boot : Io J (Unit {0})
  confirm_boot = do
    mark_mounted
    s ← read_state
    write_state (record s { boot_status = codes "confirmed" })

  unfoldable pub get_current_release_id : Io J Bytes
  get_current_release_id = do
    s ← read_state
    pure (elim s.current_release_id [ none ↦ [] | some id ↦ id ])

  unfoldable pub roll_back_to : Option Bytes → Io J (Unit {0})
  roll_back_to none = pure tt
  roll_back_to (some previous) = do write_state (rolled_back previous); mark_mounted

  unfoldable pub rollback_to_previous : Io J (Unit {0})
  rollback_to_previous = do s ← read_state; roll_back_to s.previous_release_id

  unfoldable pub rollback_to_previous_if_unconfirmed : Io J (Unit {0})
  rollback_to_previous_if_unconfirmed = do
    mounted ← gets (λ d. d.mount_marker)
    if mounted then pure tt else rollback_to_previous

  abbrev pub asks_rollback : Option Bytes → Bool
  asks_rollback none = false
  asks_rollback (some contents) = J.is_auto_rollback contents

  -- The rest of `processCrashMarkerIfPresent` for a marker that exists.
  unfoldable pub process_crash_marker : Io J (Unit {0})
  process_crash_marker = do
    contents ← try_optional (read (λ d. d.crash_marker))
    try_ignored (change remove_crash_marker)
    if asks_rollback contents then rollback_to_previous else pure tt

  unfoldable pub process_crash_marker_if_present : Io J (Unit {0})
  process_crash_marker_if_present = do
    exists ← gets (λ d. is_some d.crash_marker)
    if exists then process_crash_marker else pure tt

  unfoldable pub resolve_release : Option Bytes → Io J (Option Bytes)
  resolve_release none = pure none
  resolve_release (some id) = do
    exists ← gets (bundle_exists id)
    pure (if exists then some id else none)

  unfoldable pub resolve_bundle_path : Io J (Option Bytes)
  resolve_bundle_path = do
    process_crash_marker_if_present
    s ← read_state
    resolve_release s.current_release_id
