-- ===== src/Storage/Disk.antt =====
-- The files under the base directory, and Foundation's calls on them.
use salve_push.Base.{Bool, true, false, Option, none, some, Bytes, if◌then◌else◌, ◌≡◌}
use salve_push.Storage.Releases.{Release, Releases, find, put, remove}

-- `SalvePushState`
pub record SalvePushState : Type 0 where
  pub current_release_id : Option Bytes
  pub previous_release_id : Option Bytes
  pub boot_status : Bytes

-- `JSONEncoder` and `JSONDecoder` on a state, and whether `JSONSerialization` finds an object with
-- `isAutoRollback` true in the contents of a crash marker.
pub record Json : Type 1 where
  pub Text : Type 0
  pub encode : SalvePushState → Text
  pub decode : Text → Option SalvePushState
  pub is_auto_rollback : Bytes → Bool

-- A state is decoded as it was encoded.
abbrev pub DecodesEncoded : Json → Type 0
DecodesEncoded J = (s : SalvePushState) → J.decode (J.encode s) ≡ some s

pub record Disk (J : Json) : Type 0 where
  pub state_text : Option J.Text
  pub mount_marker : Bool
  pub crash_marker : Option Bytes
  pub releases : Releases

abbrev pub bundle_of : Option Release → Option Bytes
bundle_of none = none
bundle_of (some r) = r.bundle

abbrev pub is_some {ℓ} : {A : Type ℓ} → Option A → Bool
is_some none = false
is_some (some _) = true

-- A directory that exists stays as it is.
abbrev pub created : Option Release → Option Release
created none = some (record { bundle = none; temp = none })
created (some r) = some r

abbrev pub temp_written : Bytes → Option Release → Option Release
temp_written bytes none = none
temp_written bytes (some r) = some (record r { temp = some bytes })

-- `removeItem` of what is not there throws.
abbrev pub bundle_removed : Option Release → Option Release
bundle_removed none = none
bundle_removed (some r) = elim r.bundle [ none ↦ none | some _ ↦ some (record r { bundle = none }) ]

-- `moveItem` does not replace a file.
abbrev pub moved : Option Bytes → Option Bytes → Option Release
moved (some bytes) none = some (record { bundle = some bytes; temp = none })
moved (some bytes) (some _) = none
moved none bundle = none

abbrev pub temp_moved : Option Release → Option Release
temp_moved none = none
temp_moved (some r) = moved r.temp r.bundle

module _ {J : Json} where
  -- A call with a new content for the directory `id`, or one that throws.
  abbrev pub with_release : Bytes → Disk J → Option Release → Option (Disk J)
  with_release id d none = none
  with_release id d (some r) = some (record d { releases = put id r d.releases })

  -- Each call gives the disk after it, or `none` where it throws.
  abbrev pub create_release_directory : Bytes → Disk J → Option (Disk J)
  create_release_directory id d = with_release id d (created (find id d.releases))

  abbrev pub write_temp : Bytes → Bytes → Disk J → Option (Disk J)
  write_temp id bytes d = with_release id d (temp_written bytes (find id d.releases))

  abbrev pub remove_bundle : Bytes → Disk J → Option (Disk J)
  remove_bundle id d = with_release id d (bundle_removed (find id d.releases))

  abbrev pub move_temp : Bytes → Disk J → Option (Disk J)
  move_temp id d = with_release id d (temp_moved (find id d.releases))

  abbrev pub bundle_exists : Bytes → Disk J → Bool
  bundle_exists id d = is_some (bundle_of (find id d.releases))

  abbrev pub remove_release : Bytes → Disk J → Option (Disk J)
  remove_release id d = some (record d { releases = remove id d.releases })

  abbrev pub write_state_text : J.Text → Disk J → Option (Disk J)
  write_state_text text d = some (record d { state_text = some text })

  abbrev pub create_mount_marker : Disk J → Option (Disk J)
  create_mount_marker d = some (record d { mount_marker = true })

  abbrev pub remove_mount_marker : Disk J → Option (Disk J)
  remove_mount_marker d = if d.mount_marker then some (record d { mount_marker = false }) else none

  abbrev pub remove_crash_marker : Disk J → Option (Disk J)
  remove_crash_marker d = elim d.crash_marker [
    | none ↦ none
    | some _ ↦ some (record d { crash_marker = none })
  ]
