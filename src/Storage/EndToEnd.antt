-- ===== src/Storage/EndToEnd.antt =====
-- From the signal handler of one process to the launch of the next.
use salve_push.Base.{◌≤◌, ◌≡◌, ap, sym, ◌∙◌, true, not, Option, none, some, ℤ, Bytes, length}
use salve_push.Posix.Kernel.{Node, Kernel}
use salve_push.Posix.Files.Laws.{can_open_read, can_open_truncate}
use salve_push.CrashHandler.State.{Linkage, Process, returned, max_signal_number}
use salve_push.CrashHandler.Marker.{write_crash_marker, marker_text}
use salve_push.CrashHandler.Marker.Text.{IsInt32}
use salve_push.CrashHandler.Install.{install_crash_handlers, crash_marker_name, mount_marker_name}
use salve_push.CrashHandler.Crash.{crash_writes_text}
use salve_push.Storage.Disk.{Json, DecodesEncoded, Disk}
use salve_push.Storage.Io.{ok}
use salve_push.Storage.Operations.{resolve_bundle_path}
use salve_push.Storage.Sound.{state_of, IsSound}
use salve_push.Storage.Calm.{calm}
use salve_push.Storage.Recovery.{ReadsMarkers, recovered, launch_after_crash}

abbrev pub contents_of : Option Node → Option Bytes
contents_of none = none
contents_of (some node) = some node.contents

module _ {J : Json} where
  -- The disk `d` with the crash marker that the system `k` has in the base directory.
  abbrev pub with_marker_of : Bytes → Kernel → Disk J → Disk J
  with_marker_of base k d = record d {
    crash_marker = contents_of (k.files (crash_marker_name base));
  }

module _ (J : Json) where
  -- After an installation of the crash handlers, with the array of 32 stored actions, under a base
  -- directory of at most 498 bytes, the marker of a crash with a 32-bit signal number is written,
  -- where it can be opened for writing and there are 45 bytes of room. The disk of the next launch
  -- has what the system then has under the marker's path; it is sound, its mount marker is there
  -- exactly if it could be opened at the crash, every call works, and the JSON coders read back
  -- what they and the crash handler wrote. Then writing the marker returns, and the launch boots
  -- the release before, now confirmed, if there is one and the boot was not confirmed, and else
  -- the same release again.
  pub crash_to_launch :
      (l : Linkage) (base : Bytes) (p q : Process) (n : ℤ) (d : Disk J)
      → DecodesEncoded J
      → ReadsMarkers J
      → IsSound d
      → d.mount_marker ≡ can_open_read (mount_marker_name base) q.kernel
      → length p.globals.previous_handlers ≡ max_signal_number
      → install_crash_handlers l base p ≡ returned tt q
      → length base ≤ 498
      → IsInt32 n
      → can_open_truncate (crash_marker_name base) q.kernel ≡ true
      → 45 ≤ q.kernel.room
      → (r : Process) × (write_crash_marker n q ≡ returned tt r)
        × (resolve_bundle_path J (calm (with_marker_of base r.kernel d))
            ≡ (ok (state_of (recovered d)).current_release_id, calm (recovered d)))
  crash_to_launch l base p q n d law reads sound mount size install short h can room =
      let (r, node, written, found, text) =
        crash_writes_text l base p q n size install short h can room in
      (
        r,
        written,
        ap (λ c. resolve_bundle_path J (calm (record d { crash_marker = c })))
              (ap contents_of found ∙ ap some (text ∙ ap (λ b. marker_text n (not b)) (sym mount)))
            ∙ launch_after_crash J n d law reads sound,
      )
