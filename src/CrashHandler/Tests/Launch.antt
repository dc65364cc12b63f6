-- ===== src/CrashHandler/Tests/Launch.antt =====
-- The entry point, and the way from a signal to the next launch, on the same small process.
use salve_push.Base.{◌≡◌, refl, false, ℕ, some, suc, pos, arith, Bytes, codes}
use salve_push.Posix.Files.{find_free}
use salve_push.CrashHandler.State.{Process, returned}
use salve_push.CrashHandler.Marker.{write_crash_marker}
use salve_push.CrashHandler.Install.Installed.{IsInstalled}
use salve_push.CrashHandler.Bridge.{Jni}
use salve_push.CrashHandler.Tests.{linkage, before_install, installed, installs}
use salve_push.Uncaught.Installer.{Installer, install_native_signal_handlers, native_handlers_once}
use salve_push.Storage.Io.{ok}
use salve_push.Storage.Operations.{resolve_bundle_path}
use salve_push.Storage.Calm.{calm}
use salve_push.Storage.Recovery.{recovered}
use salve_push.Storage.EndToEnd.{with_marker_of, crash_to_launch}
use salve_push.Storage.Tests.{json, json-DecodesEncoded, json-ReadsMarkers, disk, disk-IsSound, r1}

-- The world counts the strings that are held.
abbrev jni : Jni
jni = record {
  World = ℕ;
  JString = Bytes;
  get_string_utf_chars = λ s w. (some s, suc w);
  release_string_utf_chars = λ s chars w. 0;
}

native_handlers_once_example :
    (s : Installer jni) × (q : Process) × (install_native_signal_handlers jni linkage
        (codes "/d")
        (record { did_install_native = false; jni = 0 })
        before_install
      ≡ returned s q)
    × IsInstalled linkage (codes "/d") before_install q
    × (install_native_signal_handlers jni linkage (codes "/e") s q ≡ returned s q)
native_handlers_once_example =
    native_handlers_once jni linkage (codes "/d") (codes "/e") (codes "/d") 0 1 before_install refl
      refl

crash_to_launch_example :
    (r : Process) × (write_crash_marker (pos 11) installed ≡ returned tt r)
    × (resolve_bundle_path json (calm (with_marker_of (codes "/d") r.kernel disk))
        ≡ (ok (some r1), calm (recovered disk)))
unfolding installed find_free
crash_to_launch_example =
    crash_to_launch json linkage (codes "/d") before_install installed (pos 11) disk
      json-DecodesEncoded json-ReadsMarkers disk-IsSound refl refl installs (omega arith)
      (omega arith) refl (omega arith)
