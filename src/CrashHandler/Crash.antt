-- ===== src/CrashHandler/Crash.antt =====
-- From an installation to the marker that a crash leaves for the next launch.
use mathlib.Core.Path.{subst}
use salve_push.Base.{
  ◌≤◌, ℤ, ◌≡◌, ap, sym, ◌∙◌, true, some, not, arith, Bytes, length, take, take-all,
}
use salve_push.Posix.Kernel.{Node}
use salve_push.Posix.Files.{kept_mode}
use salve_push.Posix.Files.Laws.{can_open_read, can_open_truncate, update_self}
use salve_push.CrashHandler.State.{Linkage, Process, returned, max_signal_number}
use salve_push.CrashHandler.Marker.{write_crash_marker, is_mounted, marker_text, owner_only}
use salve_push.CrashHandler.Marker.Text.{
  IsInt32, length-marker_text, read_marker, read_marker-marker_text,
}
use salve_push.CrashHandler.Marker.Laws.{
  marked, mount_marker_opens, write_crash_marker_lem, is_mounted_lem,
}
use salve_push.CrashHandler.Install.{install_crash_handlers, crash_marker_name, mount_marker_name}
use salve_push.CrashHandler.Install.Paths.{stored_path-short, stored_path-long}
use salve_push.CrashHandler.Install.Installed.{returned-IsInstalled}

-- The contents that a path has after its marker was written.
marked-contents :
    (n : ℤ) (q : Process)
    → IsInt32 n
    → can_open_truncate q.globals.crash_marker_path q.kernel ≡ true
    → 45 ≤ q.kernel.room
    → (node : Node) × ((marked n q).kernel.files q.globals.crash_marker_path ≡ some node)
      × (node.contents ≡ marker_text n (not (mount_marker_opens q)))
marked-contents n q h can room =
    let text = marker_text n (not (mount_marker_opens q)) in
    (
      record {
        contents = take q.kernel.room text;
        mode = kept_mode (q.kernel.files q.globals.crash_marker_path) owner_only;
      },
      rw can (update_self q.globals.crash_marker_path _ q.kernel.files),
      take-all q.kernel.room text
          (omega (arith, length-marker_text n (not (mount_marker_opens q)) h)),
    )

-- A marker that was written can be opened, if reading is permitted.
opens_marked :
    (n : ℤ) (q : Process)
    → can_open_truncate q.globals.crash_marker_path q.kernel ≡ true
    → q.kernel.readable q.globals.crash_marker_path ≡ true
    → can_open_read q.globals.crash_marker_path (marked n q).kernel ≡ true
opens_marked n q can readable = rw can (rw update_self (ground arith))

-- The text that the crash leaves in the base directory.
pub crash_writes_text :
    (l : Linkage) (base : Bytes) (p q : Process) (n : ℤ)
    → length p.globals.previous_handlers ≡ max_signal_number
    → install_crash_handlers l base p ≡ returned tt q
    → length base ≤ 498
    → IsInt32 n
    → can_open_truncate (crash_marker_name base) q.kernel ≡ true
    → 45 ≤ q.kernel.room
    → (r : Process) × (node : Node) × (write_crash_marker n q ≡ returned tt r)
      × (r.kernel.files (crash_marker_name base) ≡ some node)
      × (node.contents ≡ marker_text n (not (can_open_read (mount_marker_name base) q.kernel)))
crash_writes_text l base p q n size install short h can room =
    let installed = returned-IsInstalled l base p q size install in
    let paths = stored_path-short base short in
    let crash_path : q.globals.crash_marker_path ≡ crash_marker_name base =
      installed.crash_path ∙ paths.0 in
    let mount_path : q.globals.mount_marker_path ≡ mount_marker_name base =
      installed.mount_path ∙ paths.1 in
    let (node, found, text) =
      marked-contents n q h
        (subst (λ path. can_open_truncate path q.kernel ≡ true) (sym crash_path) can) room in
    (
      marked n q,
      node,
      write_crash_marker_lem n q h,
      subst (λ path. (marked n q).kernel.files path ≡ some node) crash_path found,
      text ∙ ap (λ path. marker_text n (not (can_open_read path q.kernel))) mount_path,
    )

-- After an installation, with the array of 32 stored actions, under a base directory of at most
-- 498 bytes, writing the marker for a 32-bit signal number, where the crash marker can be opened
-- for writing and there are 45 bytes of room, returns and leaves `crash.marker` in that directory.
-- Whoever reads it finds the signal, and `isAutoRollback` true exactly if `mount.marker` cannot be
-- opened there.
pub crash_leaves_marker :
    (l : Linkage) (base : Bytes) (p q : Process) (n : ℤ)
    → length p.globals.previous_handlers ≡ max_signal_number
    → install_crash_handlers l base p ≡ returned tt q
    → length base ≤ 498
    → IsInt32 n
    → can_open_truncate (crash_marker_name base) q.kernel ≡ true
    → 45 ≤ q.kernel.room
    → (r : Process) × (node : Node) × (write_crash_marker n q ≡ returned tt r)
      × (r.kernel.files (crash_marker_name base) ≡ some node)
      × (read_marker node.contents
          ≡ some (n, not (can_open_read (mount_marker_name base) q.kernel)))
crash_leaves_marker l base p q n size install short h can room =
    let (r, node, written, found, text) =
      crash_writes_text l base p q n size install short h can room in
    (
      r,
      node,
      written,
      found,
      ap read_marker text
          ∙ read_marker-marker_text n (not (can_open_read (mount_marker_name base) q.kernel)),
    )

-- After an installation, with the array of 32 stored actions, under a base directory of 510 bytes
-- or more, writing the marker for a 32-bit signal number, where its path can be opened for writing
-- and may be read, returns, and makes `isMounted` true: the marker stands under the path by which
-- `isMounted` looks for the confirmation.
pub long_base_confirms :
    (l : Linkage) (base : Bytes) (p q : Process) (n : ℤ)
    → length p.globals.previous_handlers ≡ max_signal_number
    → install_crash_handlers l base p ≡ returned tt q
    → 510 ≤ length base
    → IsInt32 n
    → can_open_truncate q.globals.crash_marker_path q.kernel ≡ true
    → q.kernel.readable q.globals.crash_marker_path ≡ true
    → (r : Process) × (write_crash_marker n q ≡ returned tt r) × (is_mounted r ≡ returned true r)
long_base_confirms l base p q n size install long h can readable =
    let installed = returned-IsInstalled l base p q size install in
    let same : q.globals.mount_marker_path ≡ q.globals.crash_marker_path =
      installed.mount_path ∙ sym (stored_path-long base long) ∙ sym installed.crash_path in
    (
      marked n q,
      write_crash_marker_lem n q h,
      is_mounted_lem (marked n q)
          ∙ ap (λ opens. returned opens (marked n q))
              (ap (λ path. can_open_read path (marked n q).kernel) same
                ∙ opens_marked n q can readable),
    )
