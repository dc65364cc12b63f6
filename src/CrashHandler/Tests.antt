-- ===== src/CrashHandler/Tests.antt =====
-- Runs of the crash handler on a small process, and the theorems at it.
mod Launch
use salve_push.Base.{
  ◌≤◌, pos, negsuc, ◌≡◌, refl, true, false, not, none, some, [], ◌∷◌, arith, ◌==◌, if◌then◌else◌,
  Bytes, codes, length, replicate, bytes_discrete,
}
use salve_push.Posix.Kernel.{Node, SigAction}
use salve_push.Posix.Files.{open_read, open_truncate, write_file, close_file, find_free}
use salve_push.Posix.Files.Laws.{can_open_read}
use salve_push.Posix.Format.{decimal, format_int}
use salve_push.Posix.Signals.{android, default_action, sigaction_get, sigaction_set, raise_signal}
use salve_push.CrashHandler.State.{
  Process, Linkage, Outcome, returned, out_of_fuel, ◌>>◌, with_info,
}
use salve_push.CrashHandler.Marker.{
  is_mounted, write_crash_marker, mark_crash, write_opened, write_json, write_buffer, marker_text,
}
use salve_push.CrashHandler.Marker.Text.{length-marker_text, read_marker}
use salve_push.CrashHandler.Handler.{
  handle_signal, chain_to_previous_handler, call_previous, zero_action,
}
use salve_push.CrashHandler.Install.{install_crash_handlers, crash_marker_name, mount_marker_name}
use salve_push.CrashHandler.Install.Installed.{IsInstalled, install_crash_handlers-IsInstalled}
use salve_push.CrashHandler.Install.Twice.{install_twice_never_ends}
use salve_push.CrashHandler.Crash.{crash_leaves_marker, long_base_confirms}

-- A crash reporter stands behind `SIGSEGV`, at address 7000.
abbrev reporter : SigAction
reporter = record { handler = 7000; sa_flags = 4; sa_mask = [] }

abbrev before_install : Process
before_install = record {
  kernel = record {
    files = λ _. none;
    readable = λ _. true;
    creatable = λ _. true;
    room = 1000;
    descriptors = none ∷ none ∷ [];
    dispositions = λ n. if n == 11 then reporter else default_action android;
    pending = [];
  };
  globals = record {
    crash_marker_path = [];
    mount_marker_path = [];
    previous_handlers = replicate 32 zero_action;
  };
  calls = [];
}

abbrev linkage : Linkage
linkage = record { platform = android; handle_signal_address = 5000; foreign = λ _ k. some k }

final : Outcome (Unit {0}) → Process
final (returned _ p) = p
final _ = before_install

installed : Process
unfolding install_crash_handlers final sigaction_get sigaction_set
installed = final (install_crash_handlers linkage (codes "/d") before_install)

crashed : Process
unfolding handle_signal chain_to_previous_handler call_previous write_crash_marker is_mounted
    mark_crash write_opened write_json write_buffer final installed open_read open_truncate
    write_file close_file find_free bytes_discrete sigaction_set raise_signal
crashed = final (handle_signal linkage 1 (pos 11) 1 2 installed)

-- The marker that the crash leaves, and the one call of the crash reporter.
crashed_marker :
    crashed.kernel.files (codes "/d/crash.marker")
    ≡ some (record { contents = codes "{\"signal\":11,\"isAutoRollback\":true}"; mode = 0o600 })
unfolding crashed decimal format_int marker_text
crashed_marker = refl

crashed_calls : crashed.calls ≡ with_info 7000 (pos 11) 1 2 ∷ []
unfolding crashed marker_text format_int decimal
crashed_calls = refl

crashed_pending : crashed.kernel.pending ≡ pos 11 ∷ []
unfolding crashed marker_text format_int decimal
crashed_pending = refl

length-marker_text_example : length (marker_text (negsuc 0) false) ≤ 45
length-marker_text_example = length-marker_text (negsuc 0) false (omega arith)

install_crash_handlers-IsInstalled_example :
    (q : Process) × (install_crash_handlers linkage (codes "/d") before_install ≡ returned tt q)
    × IsInstalled linkage (codes "/d") before_install q
install_crash_handlers-IsInstalled_example =
    install_crash_handlers-IsInstalled linkage (codes "/d") before_install refl

install_twice_never_ends_example :
    (r : Process) × ((install_crash_handlers linkage (codes "/d")
          >> install_crash_handlers linkage (codes "/d"))
        before_install
      ≡ returned tt r)
    × (handle_signal linkage 100 (pos 11) 1 2 r ≡ out_of_fuel)
install_twice_never_ends_example =
    install_twice_never_ends linkage (codes "/d") (codes "/d") before_install 11 1 2 100 refl
      (omega arith) refl

installs : install_crash_handlers linkage (codes "/d") before_install ≡ returned tt installed
unfolding installed
installs = refl

crash_leaves_marker_example :
    (r : Process) × (node : Node) × (write_crash_marker (pos 11) installed ≡ returned tt r)
    × (r.kernel.files (crash_marker_name (codes "/d")) ≡ some node)
    × (read_marker node.contents
        ≡ some (pos 11, not (can_open_read (mount_marker_name (codes "/d")) installed.kernel)))
unfolding installed find_free
crash_leaves_marker_example =
    crash_leaves_marker linkage (codes "/d") before_install installed (pos 11) refl installs
      (omega arith) (omega arith) refl (omega arith)

-- A base directory of 510 bytes.
abbrev long_base : Bytes
long_base = replicate 510 b'd'

far_installed : Process
unfolding installed
far_installed = final (install_crash_handlers linkage long_base before_install)

far_installs : install_crash_handlers linkage long_base before_install ≡ returned tt far_installed
unfolding far_installed
far_installs = refl

long_base_confirms_example :
    (r : Process) × (write_crash_marker (pos 11) far_installed ≡ returned tt r)
    × (is_mounted r ≡ returned true r)
unfolding far_installed find_free
long_base_confirms_example =
    long_base_confirms linkage long_base before_install far_installed (pos 11) refl far_installs
      (omega arith) (omega arith) refl refl
