-- ===== src/Uncaught/Installer.antt =====
-- SalvePushCrashHandler.kt: the native handlers are installed once.
use salve_push.Base.{Bool, true, ◌≡◌, false, some, Bytes, if◌then◌else◌, length}
use salve_push.CrashHandler.State.{
  Linkage, Process, Action, returned, pure, ◌>>=◌, >>=-returned, max_signal_number,
}
use salve_push.CrashHandler.Install.Installed.{IsInstalled}
use salve_push.CrashHandler.Bridge.{Jni, native_install, native_install-IsInstalled}

-- The flag `didInstallNative`, and the JNI.
pub record Installer (N : Jni) : Type 0 where
  pub did_install_native : Bool
  pub jni : N.World

module _ (N : Jni) (l : Linkage) where
  abbrev install_first : N.JString → Installer N → Action (Installer N)
  install_first base s =
      native_install N l base s.jni >>= λ w. pure (record { did_install_native = true; jni = w })

  -- `installNativeSignalHandlers`, once the library is loaded.
  unfoldable pub install_native_signal_handlers : N.JString → Installer N → Action (Installer N)
  install_native_signal_handlers base s =
      if s.did_install_native then pure s else install_first base s

  -- From a process whose array has its 32 entries, where the characters of the base directory can
  -- be had: the first `installNativeSignalHandlers`, once the library is loaded, returns with the
  -- handlers installed, and a second one, with any base directory, returns and changes nothing.
  pub native_handlers_once :
      (base later : N.JString) (path : Bytes) (w w' : N.World) (p : Process)
      → length p.globals.previous_handlers ≡ max_signal_number
      → N.get_string_utf_chars base w ≡ (some path, w')
      → (s : Installer N) × (q : Process) × (install_native_signal_handlers base
            (record { did_install_native = false; jni = w })
            p
          ≡ returned s q)
        × IsInstalled l path p q
        × (install_native_signal_handlers later s q ≡ returned s q)
  unfolding install_native_signal_handlers
  native_handlers_once base later path w w' p size chars =
      let (q, e, installed) = native_install-IsInstalled N l base path w w' p size chars in
      (
        record { did_install_native = true; jni = N.release_string_utf_chars base path w' },
        q,
        >>=-returned (native_install N l base w)
            (λ v. pure (record { did_install_native = true; jni = v })) p e,
        installed,
        λ i.
            returned
              (record { did_install_native = true; jni = N.release_string_utf_chars base path w' })
              q,
      )
