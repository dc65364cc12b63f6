-- ===== src/Uncaught/Handlers.antt =====
-- The handlers of uncaught errors: of Kotlin exceptions, of Objective-C exceptions and of fatal
-- errors in JavaScript, which React Native reports to its log function.
use salve_push.Base.{ℕ, leb, Option, none, some, if◌then◌else◌}
use salve_push.Storage.Disk.{Json}
use salve_push.Storage.Io.{Io, pure, ◌>>◌}
use salve_push.Storage.Operations
use salve_push.Storage.Android

module _ (J : Json) where
  -- A handler of others, which gets what the error comes with.
  abbrev pub Handler : Type 0 → Type 0
  Handler T = T → Io J (Unit {0})

  abbrev pub notify_previous : {T : Type 0} → Option (Handler T) → Handler T
  notify_previous none error = pure tt
  notify_previous (some handler) error = handler error

  -- The handler of `installUncaughtExceptionHandler` in Kotlin.
  unfoldable pub uncaught_exception : {T : Type 0} → Option (Handler T) → Handler T
  uncaught_exception previous error =
      Android.rollback_to_previous_if_unconfirmed J >> notify_previous previous error

  -- `SalvePushHandleUncaughtException`
  unfoldable pub handle_uncaught_exception : {T : Type 0} → Handler T
  handle_uncaught_exception error = Operations.rollback_to_previous_if_unconfirmed J

  -- The log function of `installFatalJSErrorHandler`; `fatal` is `RCTLogLevelFatal`.
  unfoldable pub log_function : {T : Type 0} → ℕ → Option (Handler (ℕ × T)) → Handler (ℕ × T)
  log_function fatal previous (level, message) =
      (if leb fatal level then Operations.rollback_to_previous_if_unconfirmed J else pure tt)
      >> notify_previous previous (level, message)
