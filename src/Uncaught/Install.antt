-- ===== src/Uncaught/Install.antt =====
-- The whole installations: `installWithBaseDirectory` of SalvePushCrashHandlerBridge.mm, and `install`
-- of SalvePushCrashHandler.kt. The process and its handlers of uncaught errors are the state.
use salve_push.Base.{ℕ, Option, some, Bytes}
use salve_push.CrashHandler.State.{Linkage, Action, pure, ◌>>=◌}
use salve_push.CrashHandler.Install.{install_crash_handlers}
use salve_push.CrashHandler.Bridge.{Jni}
use salve_push.Storage.Disk.{Json}
use salve_push.Uncaught.Installer.{Installer, install_native_signal_handlers}
use salve_push.Uncaught.Handlers.{
  Handler, uncaught_exception, handle_uncaught_exception, log_function,
}

-- The handler of uncaught exceptions that the system has, and React Native's log function, which gets
-- a level and what is logged.
pub record AppHandlers (J : Json) (E M : Type 0) : Type 0 where
  pub uncaught : Option (Handler J E)
  pub log : Option (Handler J (ℕ × M))

module _ (J : Json) {E M : Type 0} where
  -- `installUncaughtExceptionHandler` in Kotlin
  abbrev pub install_kotlin_handler : AppHandlers J E M → AppHandlers J E M
  install_kotlin_handler h = record h { uncaught = some (uncaught_exception J h.uncaught) }

  -- `installUncaughtExceptionHandler` and `installFatalJSErrorHandler` in Objective-C
  abbrev pub install_uncaught_exception_handler : AppHandlers J E M → AppHandlers J E M
  install_uncaught_exception_handler h = record h { uncaught = some (handle_uncaught_exception J) }

  abbrev pub install_fatal_js_error_handler : ℕ → AppHandlers J E M → AppHandlers J E M
  install_fatal_js_error_handler fatal h = record h { log = some (log_function J fatal h.log) }

  abbrev pub install_apple_handlers : ℕ → AppHandlers J E M → AppHandlers J E M
  install_apple_handlers fatal h =
      install_fatal_js_error_handler fatal (install_uncaught_exception_handler h)

  -- `installWithBaseDirectory`; `base` is the UTF-8 text of the directory.
  unfoldable pub install_with_base_directory :
      Linkage → ℕ → Bytes → AppHandlers J E M → Action (AppHandlers J E M)
  install_with_base_directory l fatal base h =
      install_crash_handlers l base >>= λ _. pure (install_apple_handlers fatal h)

  -- `SalvePushCrashHandler.install` in Kotlin
  unfoldable pub install :
      (N : Jni)
      → Linkage
      → N.JString
      → Installer N
      → AppHandlers J E M
      → Action (Installer N × AppHandlers J E M)
  install N l base s h =
      install_native_signal_handlers N l base s >>= λ s'. pure (s', install_kotlin_handler h)
