-- ===== src/CrashHandler/Bridge.antt =====
-- packages/sdk-react-native/android/src/main/cpp/salve_push_crash_bridge.cpp: the entry point of
-- SalvePushCrashHandler.kt.
use salve_push.Base.{◌≡◌, ap, ◌∙◌, Option, none, some, Bytes, length}
use salve_push.CrashHandler.State.{
  Linkage, Process, Action, returned, undefined, ◌>>=◌, >>=-returned, pure, max_signal_number,
}
use salve_push.CrashHandler.Install.{install_crash_handlers}
use salve_push.CrashHandler.Install.Installed.{IsInstalled, install_crash_handlers-IsInstalled}

-- The JNI environment: the characters of a Java string, where `none` is a null pointer, and their
-- release.
pub record Jni : Type 1 where
  pub World : Type 0
  pub JString : Type 0
  pub get_string_utf_chars : JString → World → Option Bytes × World
  pub release_string_utf_chars : JString → Bytes → World → World

module _ (J : Jni) (l : Linkage) where
  -- What is done with the result of `GetStringUTFChars`; `%s` must not be given a null pointer.
  abbrev install_chars : J.JString → Option Bytes → J.World → Action J.World
  install_chars base none w = λ _. undefined
  install_chars base (some path) w =
      install_crash_handlers l path >>= λ _. pure (J.release_string_utf_chars base path w)

  unfoldable pub native_install : J.JString → J.World → Action J.World
  native_install base w =
      let (path, w') = J.get_string_utf_chars base w in install_chars base path w'

  -- From a process whose array has its 32 entries, where the characters of the base directory can
  -- be had: `nativeInstall` returns, the handlers are installed under that directory, and the
  -- characters are released.
  pub native_install-IsInstalled :
      (base : J.JString) (path : Bytes) (w w' : J.World) (p : Process)
      → length p.globals.previous_handlers ≡ max_signal_number
      → J.get_string_utf_chars base w ≡ (some path, w')
      → (q : Process) × (native_install base w p
          ≡ returned (J.release_string_utf_chars base path w') q)
        × IsInstalled l path p q
  unfolding native_install
  native_install-IsInstalled base path w w' p size chars =
      let (q, e, installed) = install_crash_handlers-IsInstalled l path p size in
      (
        q,
        ap (λ r. install_chars base r.0 r.1 p) chars
            ∙ >>=-returned (install_crash_handlers l path)
                (λ _. pure (J.release_string_utf_chars base path w')) p e,
        installed,
      )
