-- ===== src/Storage/Operations.antt =====
-- SalvePushStorage.swift: the operations. Paths under the base directory are the fields of a disk,
-- and a release id is the name of one directory under `releases`.
use salve_push.Base.{
  codes, Bool, Option, none, some, List, [], ◌∷◌, ◌||◌, if◌then◌else◌, Bytes, bytes_eq, map,
}
use salve_push.Storage.Disk.{
  Json, SalvePushState, create_release_directory, write_temp, remove_bundle, move_temp,
  bundle_exists, remove_release, write_state_text, create_mount_marker, remove_mount_marker,
  remove_crash_marker,
}
use salve_push.Storage.Io.{Io, ◌>>=◌, ◌>>◌, pure, gets, change, read, try_optional, try_ignored}

abbrev pub confirmed_empty : SalvePushState
confirmed_empty = record {
  current_release_id = none;
  previous_release_id = none;
  boot_status = codes "confirmed";
}

-- Whether a name is in the list that is kept.
abbrev pub keeps : Bytes → Option Bytes → Bytes → Bool
keeps id none name = bytes_eq name id
keeps id (some previous) name = bytes_eq name id || bytes_eq name previous

abbrev pub pending_state : Bytes → SalvePushState → SalvePushState
pending_state id s = record {
  current_release_id = some id;
  previous_release_id = s.current_release_id;
  boot_status = codes "pending";
}

abbrev pub rolled_back : Bytes → SalvePushState
rolled_back previous = record {
  current_release_id = some previous;
  previous_release_id = none;
  boot_status = codes "confirmed";
}

-- The state of a file, or the empty one for a text that cannot be decoded.
abbrev pub or_empty : Option SalvePushState → SalvePushState
or_empty none = confirmed_empty
or_empty (some s) = s

module _ (J : Json) where
  abbrev pub decoded : Option J.Text → SalvePushState
  decoded none = confirmed_empty
  decoded (some text) = or_empty (J.decode text)

  unfoldable pub read_state : Io J SalvePushState
  read_state = do text ← try_optional (read (λ d. d.state_text)); pure (decoded text)

  unfoldable pub write_state : SalvePushState → Io J (Unit {0})
  write_state s = change (write_state_text (J.encode s))

  unfoldable pub mark_mounted : Io J (Unit {0})
  mark_mounted = try_ignored (change create_mount_marker)

  unfoldable pub clear_mounted_marker : Io J (Unit {0})
  clear_mounted_marker = try_ignored (change remove_mount_marker)

  unfoldable pub prune_entries : Bytes → Option Bytes → List Bytes → Io J (Unit {0})
  prune_entries id previous [] = pure tt
  prune_entries id previous (name ∷ rest) =
      let others = prune_entries id previous rest in
      if keeps id previous name
      then others
      else (try_ignored (change (remove_release name)) >> others)

  abbrev pub prune_listed : Bytes → Option Bytes → Option (List Bytes) → Io J (Unit {0})
  prune_listed id previous none = pure tt
  prune_listed id previous (some names) = prune_entries id previous names

  -- `pruneOldReleases(keep:)`, on the id and on the previous id, if there is one.
  unfoldable pub prune_old_releases : Bytes → Option Bytes → Io J (Unit {0})
  prune_old_releases id previous = do
    names ← try_optional (read (λ d. some (map (λ entry. entry.0) d.releases)))
    prune_listed id previous names

  unfoldable pub replace_bundle : Bytes → Io J (Unit {0})
  replace_bundle id = do
    exists ← gets (bundle_exists id)
    if exists then change (remove_bundle id) else pure tt
    change (move_temp id)

  unfoldable pub switch_release : Bytes → SalvePushState → Io J (Unit {0})
  switch_release id s = do
    write_state (pending_state id s)
    clear_mounted_marker
    prune_old_releases id s.current_release_id

  unfoldable pub install_update : Bytes → Bytes → Io J (Unit {0})
  install_update id bundle = do
    change (create_release_directory id)
    change (write_temp id bundle)
    replace_bundle id
    s ← read_state
    switch_release id s

  unfoldable pub confirm_boot : Io J (Unit {0})
  confirm_boot = do
    mark_mounted
    s ← read_state
    write_state (record s { boot_status = codes "confirmed" })

  unfoldable pub get_current_release_id : Io J Bytes
  get_current_release_id = do
    s ← read_state
    pure (elim s.current_release_id [ none ↦ [] | some id ↦ id ])

  unfoldable pub roll_back_to : Option Bytes → Io J (Unit {0})
  roll_back_to none = pure tt
  roll_back_to (some previous) = do try_ignored (write_state (rolled_back previous)); mark_mounted

  unfoldable pub rollback_to_previous : Io J (Unit {0})
  rollback_to_previous = do s ← read_state; roll_back_to s.previous_release_id

  unfoldable pub rollback_to_previous_if_unconfirmed : Io J (Unit {0})
  rollback_to_previous_if_unconfirmed = do
    mounted ← gets (λ d. d.mount_marker)
    if mounted then pure tt else rollback_to_previous

  unfoldable pub process_crash_marker : Option Bytes → Io J (Unit {0})
  process_crash_marker none = pure tt
  process_crash_marker (some contents) = do
    try_ignored (change remove_crash_marker)
    if J.is_auto_rollback contents then rollback_to_previous else pure tt

  unfoldable pub process_crash_marker_if_present : Io J (Unit {0})
  process_crash_marker_if_present = do
    contents ← try_optional (read (λ d. d.crash_marker))
    process_crash_marker contents

  unfoldable pub resolve_release : Option Bytes → Io J (Option Bytes)
  resolve_release none = pure none
  resolve_release (some id) = do
    exists ← gets (bundle_exists id)
    pure (if exists then some id else none)

  -- The path of the result is `bundlePath(for:)` of the id.
  unfoldable pub resolve_bundle_path : Io J (Option Bytes)
  resolve_bundle_path = do
    process_crash_marker_if_present
    s ← read_state
    resolve_release s.current_release_id
